-- ===== src/Absl.antt =====
-- What the code calls of the abseil library, as far as the modelled parts need it: the functions
-- that format a message, that merge two statuses, and that move a result.
pub mod Examples
use code_contests.Prelude.{ℕ, Text, ◌≡◌, List}
use code_contests.Status.{Status, StatusOr, Error, err, ok_status}

pub record Absl : Type 0 where
  -- absl::Substitute(format, $0, $1, …), with numbers for arguments
  pub substitute : Text → List ℕ → Text
  -- absl::Status::Update: an OK status takes the new value, and any other stays as it is.
  pub update : Status → Status → Status
  pub update-ok : (s : Status) → update ok_status s ≡ s
  pub update-err : (e : Error) (s : Status) → update (err e) s ≡ err e
  -- What std::move leaves in the place of a cached result: a valid value, of which nothing is known.
  pub moved_from : StatusOr Text → StatusOr Text
