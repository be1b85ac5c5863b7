-- ===== src/Matchers.antt =====
-- The matchers of execution/status_matchers.h, for results and statuses. A matcher of gMock says
-- whether a value matches, with what it writes to the listener, and describes itself and its
-- negation.
pub mod Meaning
mod Examples
use code_contests.Prelude.{
  ℕ, Bool, true, false, not, Option, none, some, List, [], ◌∷◌, ◌++◌, ◌==◌, if◌then◌else◌, Text,
  codes, text_eq,
}
use code_contests.Status.{
  StatusOr, ok, err, status, Status, ErrorCode, cancelled, unknown, invalid_argument,
  deadline_exceeded, not_found, already_exists, permission_denied, resource_exhausted,
  failed_precondition, aborted, out_of_range, unimplemented, internal, unavailable, data_loss,
  unauthenticated,
}

pub record Matcher (A : Type 0) : Type 0 where
  pub match_and_explain : A → Bool × Text
  pub describe : Text
  pub describe_negation : Text

-- absl::StatusCode, with the numbers of its values
pub data StatusCode : Type 0 where
  no_error : StatusCode
  of_error : ErrorCode → StatusCode

pub number_of : ErrorCode → ℕ
number_of cancelled = 1
number_of unknown = 2
number_of invalid_argument = 3
number_of deadline_exceeded = 4
number_of not_found = 5
number_of already_exists = 6
number_of permission_denied = 7
number_of resource_exhausted = 8
number_of failed_precondition = 9
number_of aborted = 10
number_of out_of_range = 11
number_of unimplemented = 12
number_of internal = 13
number_of unavailable = 14
number_of data_loss = 15
number_of unauthenticated = 16

unfoldable pub number : StatusCode → ℕ
unfolding number_of
number no_error = 0
number (of_error c) = number_of c

-- `status.code()` and `status.message()`; an OK status has no message.
abbrev pub code_of : Status → StatusCode
code_of (ok u) = no_error
code_of (err e) = of_error e.code

abbrev pub message_of : Status → Text
message_of (ok u) = []
message_of (err e) = e.message

abbrev which_is_not_ok : Bool × Text
which_is_not_ok = (false, codes "which is not OK")

-- What is written of the value's own explanation.
abbrev contains : Text → Text
contains [] = []
contains (c ∷ s) = codes "which contains a value " ++ (c ∷ s)

module _ {A : Type 0} where
  unfoldable pub match_ok : StatusOr A → Bool × Text
  match_ok (ok a) = (true, [])
  match_ok (err e) = which_is_not_ok

  -- IsOkMatcher
  abbrev pub is_ok_matcher : Matcher (StatusOr A)
  is_ok_matcher = record {
    match_and_explain = match_ok;
    describe = codes "is OK";
    describe_negation = codes "is not OK";
  }

  module _ (value_matcher : Matcher A) where
    unfoldable pub match_value : StatusOr A → Bool × Text
    match_value (err e) = which_is_not_ok
    match_value (ok a) =
        let (is_a_match, explanation) = value_matcher.match_and_explain a in
        (is_a_match, contains explanation)

    -- IsOkAndHoldsMatcher
    abbrev pub is_ok_and_holds_matcher : Matcher (StatusOr A)
    is_ok_and_holds_matcher = record {
      match_and_explain = match_value;
      describe = codes "is OK and contains a value that " ++ value_matcher.describe;
      describe_negation =
          codes "is not OK or contains a value that " ++ value_matcher.describe_negation;
    }

  -- ASSERT_OK_AND_ASSIGN, with the rest of the function; `none` is a failed assertion.
  unfoldable pub assert_ok_and_assign {κ} : {B : Type κ} → StatusOr A → (A → Option B) → Option B
  assert_ok_and_assign (ok a) rest = rest a
  assert_ok_and_assign (err e) rest = none

-- message_.has_value() && status.message() != message_.value()
abbrev pub other_message : Option Text → Text → Bool
other_message none actual = false
other_message (some expected) actual = not (text_eq actual expected)

abbrev expected_message : Option Text → Text
expected_message none = []
expected_message (some expected) = expected

abbrev described : Text → Option Text → Text
described before none = []
described before (some expected) = before ++ (expected ++ codes "'")

-- `code_name` is absl::StatusCodeToString.
module _ (code_name : StatusCode → Text) (code : StatusCode) (message : Option Text) where
  -- `MatchAndExplain` behind GetStatus.
  unfoldable pub match_status : Status → Bool × Text
  unfolding number text_eq
  match_status s =
      if not (number code == number (code_of s))
      then (false, codes "whose error code is generic::" ++ code_name (code_of s))
      else if other_message message (message_of s)
      then (false, codes "whose error message is '" ++ (expected_message message ++ codes "'"))
      else (true, [])

  -- StatusIsMatcher; GetStatus takes the status of a result.
  unfoldable pub status_is_matcher : {A : Type 0} → Matcher (StatusOr A)
  unfolding match_status
  status_is_matcher = record {
    match_and_explain = λ value. match_status (status value);
    describe =
        codes "has a status code that is generic::"
        ++ (code_name code ++ described (codes ", and has an error message that is '") message);
    describe_negation =
        codes "has a status code that is not generic::"
        ++ (code_name code ++ described (codes ", and has an error message that is not '") message);
  }

-- IsOkAndHoldsGenerator: it holds the inner matcher until the type of the result is known.
pub record IsOkAndHoldsGenerator (A : Type 0) : Type 0 where
  pub value_matcher : Matcher A

-- Its conversion to a matcher.
abbrev pub to_matcher : {A : Type 0} → IsOkAndHoldsGenerator A → Matcher (StatusOr A)
to_matcher g = is_ok_and_holds_matcher g.value_matcher

-- What a test writes: `IsOk`, `IsOkAndHolds` and `StatusIs`.
abbrev pub is_ok : {A : Type 0} → Matcher (StatusOr A)
is_ok = is_ok_matcher

abbrev pub is_ok_and_holds : {A : Type 0} → Matcher A → IsOkAndHoldsGenerator A
is_ok_and_holds value_matcher = record { value_matcher = value_matcher }

abbrev pub status_is :
    (StatusCode → Text) → StatusCode → Option Text → {A : Type 0} → Matcher (StatusOr A)
status_is code_name code message = status_is_matcher code_name code message
