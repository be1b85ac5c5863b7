-- ===== src/Matchers/Meaning.antt =====
-- Which results match.
use code_contests.Prelude.{
  ◌≡◌, ◌↔◌, refl, sym, ap, subst, ◌∙◌, Bool, true, false, not, if◌then◌else◌, Option, none, some,
  List, [], ◌∷◌, get_elem?, Text, text_eq, text_eq_iff, ◌==◌, arith,
}
use code_contests.Status.{StatusOr, Status, ErrorCode, ok, err, status}
use code_contests.Matchers.{
  is_ok, is_ok_and_holds, to_matcher, status_is, Matcher, StatusCode, no_error, of_error, number_of,
  number, code_of, message_of, match_ok, match_value, match_status, other_message,
  status_is_matcher,
}

-- The codes in the order of their numbers.
abbrev all_codes : List StatusCode
all_codes =
    no_error
    ∷ of_error ErrorCode.cancelled
    ∷ of_error ErrorCode.unknown
    ∷ of_error ErrorCode.invalid_argument
    ∷ of_error ErrorCode.deadline_exceeded
    ∷ of_error ErrorCode.not_found
    ∷ of_error ErrorCode.already_exists
    ∷ of_error ErrorCode.permission_denied
    ∷ of_error ErrorCode.resource_exhausted
    ∷ of_error ErrorCode.failed_precondition
    ∷ of_error ErrorCode.aborted
    ∷ of_error ErrorCode.out_of_range
    ∷ of_error ErrorCode.unimplemented
    ∷ of_error ErrorCode.internal
    ∷ of_error ErrorCode.unavailable
    ∷ of_error ErrorCode.data_loss
    ∷ of_error ErrorCode.unauthenticated
    ∷ []

get_elem?-number : (c : StatusCode) → get_elem? all_codes (number c) ≡ some c
unfolding number number_of
get_elem?-number no_error = refl
get_elem?-number (of_error ErrorCode.cancelled) = refl
get_elem?-number (of_error ErrorCode.unknown) = refl
get_elem?-number (of_error ErrorCode.invalid_argument) = refl
get_elem?-number (of_error ErrorCode.deadline_exceeded) = refl
get_elem?-number (of_error ErrorCode.not_found) = refl
get_elem?-number (of_error ErrorCode.already_exists) = refl
get_elem?-number (of_error ErrorCode.permission_denied) = refl
get_elem?-number (of_error ErrorCode.resource_exhausted) = refl
get_elem?-number (of_error ErrorCode.failed_precondition) = refl
get_elem?-number (of_error ErrorCode.aborted) = refl
get_elem?-number (of_error ErrorCode.out_of_range) = refl
get_elem?-number (of_error ErrorCode.unimplemented) = refl
get_elem?-number (of_error ErrorCode.internal) = refl
get_elem?-number (of_error ErrorCode.unavailable) = refl
get_elem?-number (of_error ErrorCode.data_loss) = refl
get_elem?-number (of_error ErrorCode.unauthenticated) = refl

number-injective : (c d : StatusCode) → number c ≡ number d → c ≡ d
number-injective c d h =
    cc (sym (get_elem?-number c) ∙ ap (get_elem? all_codes) h ∙ get_elem?-number d)

-- The message is the one that is asked for, if one is.
abbrev pub MessageIs : Option Text → Text → Type 0
MessageIs none actual = Unit
MessageIs (some expected) actual = actual ≡ expected

other_message_iff :
    (o : Option Text) (actual : Text) → (other_message o actual ≡ false) ↔ MessageIs o actual
unfolding text_eq
other_message_iff none actual = (λ h. tt, λ h. refl)
other_message_iff (some expected) actual = (
  λ h. (text_eq_iff actual expected).0 (ground arith),
  λ h. rw ((text_eq_iff actual expected).1 h) refl,
)

same_code : (c d : StatusCode) → (number c == number d ≡ true) ↔ (c ≡ d)
same_code c d = (λ h. number-injective c d (ground arith), λ h. rw h (ground arith))

-- The result of two tests, with what each writes.
abbrev tested : Bool → Bool → Text → Text → Bool × Text
tested a b x y = if not a then (false, x) else if b then (false, y) else (true, [])

both_tests : (a b : Bool) (x y : Text) → ((tested a b x y).0 ≡ true) ↔ ((a ≡ true) × (b ≡ false))
both_tests true true x y = (λ h. absurd (cc), λ (p, q). absurd (cc))
both_tests true false x y = (λ h. (refl, refl), λ h. refl)
both_tests false b x y = (λ h. absurd (cc), λ (p, q). absurd (cc))

module _ (code_name : StatusCode → Text) (code : StatusCode) (message : Option Text) where
  match_status_iff :
      (s : Status)
      → ((match_status code_name code message s).0 ≡ true)
        ↔ ((code ≡ code_of s) × MessageIs message (message_of s))
  unfolding match_status
  match_status_iff s =
      let (there, back) =
        both_tests (number code == number (code_of s)) (other_message message (message_of s)) _ _ in
      (
        λ h.
            let (p, q) = there h in
            ((same_code code (code_of s)).0 p, (other_message_iff message (message_of s)).0 q),
        λ (p, q).
            back ((same_code code (code_of s)).1 p, (other_message_iff message (message_of s)).1 q),
      )

  -- Which values the three matchers match, among results of any type: IsOk those that have a value;
  -- IsOkAndHolds those that have a value which the inner matcher matches; StatusIs those whose
  -- status has the code, and the message if one is given.
  pub matchers_iff :
      {A : Type 0} (inner : Matcher A) (r : StatusOr A)
      → (((is_ok.match_and_explain r).0 ≡ true) ↔ ((a : A) × (r ≡ ok a)))
        × ((((to_matcher (is_ok_and_holds inner)).match_and_explain r).0 ≡ true)
            ↔ ((a : A) × (r ≡ ok a) × ((inner.match_and_explain a).0 ≡ true)))
        × ((((status_is code_name code message).match_and_explain r).0 ≡ true)
            ↔ ((code ≡ code_of (status r)) × MessageIs message (message_of (status r))))
  unfolding match_ok match_value status_is_matcher
  matchers_iff inner (ok a) = (
    (λ h. (a, refl), λ h. refl),
    (
      λ h. (a, refl, h),
      λ (b, same, h).
          let there : a ≡ b = cc in subst (λ y. (inner.match_and_explain y).0 ≡ true) (sym there) h,
    ),
    match_status_iff (ok tt),
  )
  matchers_iff inner (err e) = (
    (λ h. absurd (cc), λ (b, same). absurd (cc)),
    (λ h. absurd (cc), λ (b, same, h). absurd (cc)),
    match_status_iff (err e),
  )
