-- ===== src/Status.antt =====
-- src/utils/Status.hpp and src/utils/Status.cpp: the status codes and their errno projection.
-- A call that fills an output on success returns `Result`: the output, or the code that was
-- returned with the output left alone. Messages are not modelled: no code reads them.
mod Projection
mod Tests
use sword_fs.Prelude.{Bool, true, false, ◌≡◌, refl, ◌⊎◌, inl, inr, arith}

pub data Code : Type 0 where
  not_found end_of_directory already_exists not_directory is_directory not_empty : Code
  invalid_argument malformed not_supported operation_not_supported not_tty no_data : Code
  io_error unavailable outcome_unknown busy would_block interrupted no_locks : Code
  not_permitted permission no_memory name_too_long range internal : Code

-- The system's error numbers, by name.
pub data Errno : Type 0 where
  enoent eexist enotdir eisdir enotempty einval enosys eopnotsupp enotty enodata eio ebusy : Errno
  eagain eintr enolck eperm eacces enomem enametoolong erange : Errno

-- `Status::ToErrno` of a code that is not `kOk`, whose number is 0.
unfoldable pub to_errno : Code → Errno
to_errno not_found = enoent
to_errno already_exists = eexist
to_errno not_directory = enotdir
to_errno is_directory = eisdir
to_errno invalid_argument = einval
to_errno not_supported = enosys
to_errno operation_not_supported = eopnotsupp
to_errno not_tty = enotty
to_errno no_data = enodata
to_errno busy = ebusy
to_errno would_block = eagain
to_errno no_locks = enolck
to_errno interrupted = eintr
to_errno not_empty = enotempty
to_errno not_permitted = eperm
to_errno permission = eacces
to_errno no_memory = enomem
to_errno name_too_long = enametoolong
to_errno range = erange
to_errno _ = eio

-- What a call hands back: its output, or the code that it failed with.
pub data Result {ℓ} (Output : Type ℓ) : Type ℓ where
  ok : Output → Result Output
  err : Code → Result Output

-- A plain `utils::Status`.
abbrev pub Status : Type 0
Status = Result (Unit {0})

-- `if (test) { return error; }`
abbrev pub fail_if : Bool → Code → Status
fail_if false code = ok tt
fail_if true code = err code

-- `if (!status.ok()) { return status; }`, and what comes behind it.
module _ {ℓ κ} {In : Type ℓ} {Out : Type κ} where
  infixl 5 ◌>>=◌
  abbrev pub ◌>>=◌ : Result In → (In → Result Out) → Result Out
  err code >>= behind = err code
  ok value >>= behind = behind value

  -- A chain that ends well has passed its first call.
  pub >>=-eq-ok :
      (first : Result In) (behind : In → Result Out) {out : Out}
      → (first >>= behind) ≡ ok out
      → (value : In) × (first ≡ ok value) × (behind value ≡ ok out)
  >>=-eq-ok (err code) behind ended = cc
  >>=-eq-ok (ok value) behind ended = (value, refl, ended)

module _ {κ} {Out : Type κ} where
  infixl 5 ◌>>◌
  abbrev pub ◌>>◌ : Status → Result Out → Result Out
  check >> behind = check >>= λ _. behind

  pub >>-eq-ok :
      (check : Status) (behind : Result Out) {out : Out}
      → (check >> behind) ≡ ok out
      → (check ≡ ok tt) × (behind ≡ ok out)
  >>-eq-ok (err code) behind ended = cc
  >>-eq-ok (ok tt) behind ended = (refl, ended)

  pub ok_injective : {a b : Out} → ok a ≡ ok b → a ≡ b
  ok_injective same = cc

  pub Result-cases :
      (r : Result Out) → ((out : Out) × (r ≡ ok out)) ⊎ ((code : Code) × (r ≡ err code))
  Result-cases (err code) = inr (code, refl)
  Result-cases (ok out) = inl (out, refl)

pub fail_if-eq-ok : (test : Bool) (code : Code) → fail_if test code ≡ ok tt → test ≡ false
fail_if-eq-ok false code passed = refl
fail_if-eq-ok true code passed = cc
