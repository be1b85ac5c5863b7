-- ===== src/Matchers/Examples.antt =====
-- Matching a result whose message is another one.
use code_contests.Prelude.{ℕ, ◌≡◌, ◌↔◌, refl, true, false, some, none, ◌==◌, Text, text_eq, codes}
use code_contests.Status.{StatusOr, ok, error, ErrorCode, status}
use code_contests.Matchers.{
  is_ok, is_ok_and_holds, to_matcher, status_is, Matcher, StatusCode, of_error, number, code_of,
  message_of, is_ok_and_holds_matcher, match_status, match_value, assert_ok_and_assign,
  status_is_matcher,
}
use code_contests.Matchers.Meaning.{MessageIs, matchers_iff}

abbrev name : StatusCode → Text
name c = codes "CODE"

abbrev is_three : Matcher ℕ
is_three = record {
  match_and_explain = λ n. (n == 3, codes "which is compared with 3");
  describe = codes "is equal to 3";
  describe_negation = codes "isn't equal to 3";
}

abbrev late : StatusOr ℕ
late = error ErrorCode.deadline_exceeded (codes "too late")

abbrev deadline : StatusCode
deadline = of_error ErrorCode.deadline_exceeded

matches-code : ((status_is_matcher name deadline none).match_and_explain late).0 ≡ true
unfolding status_is_matcher match_status number
matches-code = refl

matches-other_code :
    (status_is_matcher name (of_error ErrorCode.internal) none).match_and_explain late
    ≡ (false, codes "whose error code is generic::CODE")
unfolding status_is_matcher match_status number
matches-other_code = refl

-- The message that is written is the one that was expected, not the one that was found.
matches-other_message :
    (status_is_matcher name deadline (some (codes "late"))).match_and_explain late
    ≡ (false, codes "whose error message is 'late'")
unfolding status_is_matcher match_status number text_eq
matches-other_message = refl

holds-four :
    (is_ok_and_holds_matcher is_three).match_and_explain (ok 4)
    ≡ (false, codes "which contains a value which is compared with 3")
unfolding match_value
holds-four = refl

assigns-value : assert_ok_and_assign (ok 4) (λ n. some (n == 3)) ≡ some false
unfolding assert_ok_and_assign
assigns-value = refl

matchers_iff_example :
    ((is_ok.match_and_explain late).0 ≡ true ↔ ((a : ℕ) × (late ≡ ok a)))
    × ((((to_matcher (is_ok_and_holds is_three)).match_and_explain late).0 ≡ true)
        ↔ ((a : ℕ) × (late ≡ ok a) × ((is_three.match_and_explain a).0 ≡ true)))
    × ((((status_is name deadline (some (codes "late"))).match_and_explain late).0 ≡ true) ↔ (
        (deadline ≡ code_of (status late))
        × MessageIs (some (codes "late")) (message_of (status late))))
matchers_iff_example = matchers_iff name deadline (some (codes "late")) is_three late
