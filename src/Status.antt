-- ===== src/Status.antt =====
-- Status values and the two macros of execution/status_macros.h. A `StatusOr` holds a value or an
-- error, whose code is not OK; a status is a `StatusOr` with nothing in it.
pub mod Laws
use code_contests.Prelude.{Text, Bool, true, false}

-- The codes of an error, as the status library names them; OK is no error.
pub data ErrorCode : Type 0 where
  cancelled unknown invalid_argument deadline_exceeded not_found already_exists : ErrorCode
  permission_denied resource_exhausted failed_precondition aborted out_of_range : ErrorCode
  unimplemented internal unavailable data_loss unauthenticated : ErrorCode

pub record Error : Type 0 where
  pub code : ErrorCode
  pub message : Text

pub data StatusOr {ℓ} (A : Type ℓ) : Type ℓ where
  ok : A → StatusOr A
  err : Error → StatusOr A

abbrev pub Status : Type 0
Status = StatusOr (Unit {0})

abbrev pub ok_status : Status
ok_status = ok tt

-- `.status()`
abbrev pub status {ℓ} : {A : Type ℓ} → StatusOr A → Status
status (ok a) = ok tt
status (err e) = err e

-- `.ok()`
abbrev pub is_ok {ℓ} : {A : Type ℓ} → StatusOr A → Bool
is_ok (ok a) = true
is_ok (err e) = false

abbrev pub code_is_cancelled : ErrorCode → Bool
code_is_cancelled cancelled = true
code_is_cancelled _ = false

-- `status().code() == absl::StatusCode::kCancelled`
abbrev pub is_cancelled {ℓ} : {A : Type ℓ} → StatusOr A → Bool
is_cancelled (ok a) = false
is_cancelled (err e) = code_is_cancelled e.code

-- ASSIGN_OR_RETURN(lhs, rexpr), with the rest of the function as the second argument.
infixl 5 ◌>>=◌ ◌>>◌
abbrev pub ◌>>=◌ {ℓ κ} : {A : Type ℓ} {B : Type κ} → StatusOr A → (A → StatusOr B) → StatusOr B
ok a >>= f = f a
err e >>= f = err e

-- RETURN_IF_ERROR(expr), with the rest of the function as the second argument.
abbrev pub ◌>>◌ {ℓ} : {B : Type ℓ} → Status → StatusOr B → StatusOr B
s >> k = s >>= λ _. k

abbrev pub error {ℓ} : {A : Type ℓ} → ErrorCode → Text → StatusOr A
error c m = err (record { code = c; message = m })
