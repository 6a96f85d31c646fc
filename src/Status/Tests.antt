-- ===== src/Status/Tests.antt =====
-- Error numbers at concrete codes.
use sword_fs.Prelude.{◌≡◌, refl}
use sword_fs.Status.{Code, Errno, to_errno}

no_locks_errno : to_errno Code.no_locks ≡ Errno.enolck
unfolding to_errno
no_locks_errno = refl
