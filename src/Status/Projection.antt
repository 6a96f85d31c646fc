-- ===== src/Status/Projection.antt =====
-- What the errno projection of Status.cpp keeps of a status code.
use sword_fs.Prelude.{◌≡◌, refl, ◌∙◌, ◌≢◌, Option, none, some, arith}
use sword_fs.Status.{Code, Errno, to_errno}

-- The code that an error number stands for, EIO apart.
code_of : Errno → Option Code
code_of Errno.enoent = some Code.not_found
code_of Errno.eexist = some Code.already_exists
code_of Errno.enotdir = some Code.not_directory
code_of Errno.eisdir = some Code.is_directory
code_of Errno.enotempty = some Code.not_empty
code_of Errno.einval = some Code.invalid_argument
code_of Errno.enosys = some Code.not_supported
code_of Errno.eopnotsupp = some Code.operation_not_supported
code_of Errno.enotty = some Code.not_tty
code_of Errno.enodata = some Code.no_data
code_of Errno.ebusy = some Code.busy
code_of Errno.eagain = some Code.would_block
code_of Errno.eintr = some Code.interrupted
code_of Errno.enolck = some Code.no_locks
code_of Errno.eperm = some Code.not_permitted
code_of Errno.eacces = some Code.permission
code_of Errno.enomem = some Code.no_memory
code_of Errno.enametoolong = some Code.name_too_long
code_of Errno.erange = some Code.range
code_of Errno.eio = none

code_of-to_errno : (c : Code) → to_errno c ≢ Errno.eio → code_of (to_errno c) ≡ some c
unfolding code_of to_errno
code_of-to_errno Code.not_found h = refl
code_of-to_errno Code.already_exists h = refl
code_of-to_errno _ h = ground arith

-- Outside EIO no two status codes share an error number.
pub to_errno-injective : (a b : Code) → to_errno a ≢ Errno.eio → to_errno a ≡ to_errno b → a ≡ b
to_errno-injective a b h e =
    cc (code_of-to_errno a h, code_of-to_errno b (λ (f : to_errno b ≡ Errno.eio). h (e ∙ f)))
