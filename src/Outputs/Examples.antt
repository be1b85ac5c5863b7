-- ===== src/Outputs/Examples.antt =====
-- Concrete string and number functions that have the properties assumed of the libraries, and the
-- comparison of a few outputs with them.
pub mod Functions
use code_contests.Prelude.{
  ◌^◌, ℕ, ◌≡◌, refl, ◌≢◌, ◌⊎◌, ◌↔◌, inl, inr, true, false, List, [], ◌∷◌, map, Text, codes, text_eq,
  arith,
}
use code_contests.Prelude.Int.{nat_abs, ◌-ℤ◌, int_eq, pos}
use code_contests.Outputs.{
  contains, delimiters, IsWord, ascii_lower, values_match, outputs_match, split_and_lowercase,
  texts_eq, all_match,
}
use code_contests.Outputs.Words.{Words, end, skip, last, word, lower_words}
use code_contests.Outputs.Values.{
  ExactIntegers, values_match-numbers, values_match-text, values_match-rounded,
  values_match-not_self,
}
use code_contests.Outputs.Matching.{
  AllMatch, outputs_match_iff, outputs_match-layout, outputs_match_refl, outputs_match-not_self,
}
use Functions.{strings, numbers, exact, Double, fin, nan, split}

abbrev spaced : Text
spaced = codes " Yes\n17 "

abbrev plain : Text
plain = codes "yes 17"

abbrev plain_words : List Text
plain_words = codes "yes" ∷ codes "17" ∷ []

abbrev spaced_words : List Text
spaced_words = codes "Yes" ∷ codes "17" ∷ []

yes-IsWord : IsWord delimiters (codes "Yes")
yes-IsWord = ((λ e. cc), (refl, (refl, (refl, tt))))

number-IsWord : IsWord delimiters (codes "17")
number-IsWord = ((λ e. cc), (refl, (refl, tt)))

Words-spaced : Words spaced spaced_words
Words-spaced = skip 32 refl (
    word 10 (codes "Yes") (codes "17 ") yes-IsWord refl
      (word 32 (codes "17") [] number-IsWord refl end))

Words-plain : Words plain plain_words
Words-plain =
    word 32 (codes "yes") (codes "17") ((λ e. cc), (refl, (refl, (refl, tt)))) refl
      (last (codes "17") number-IsWord)

outputs_match-spaced : outputs_match strings numbers spaced plain ≡ true
unfolding outputs_match split_and_lowercase split texts_eq text_eq
outputs_match-spaced = refl

outputs_match_iff_example : (outputs_match strings numbers spaced plain ≡ true) ↔ (
    (lower_words spaced_words ≡ lower_words plain_words)
    ⊎ AllMatch numbers (lower_words spaced_words) (lower_words plain_words))
outputs_match_iff_example =
    outputs_match_iff strings numbers spaced plain spaced_words plain_words Words-spaced Words-plain

layout_ignored :
    (outputs_match strings numbers spaced plain ≡ outputs_match strings numbers plain plain)
    × (outputs_match strings numbers plain spaced ≡ outputs_match strings numbers plain plain)
layout_ignored =
    outputs_match-layout strings numbers spaced plain plain spaced_words plain_words Words-spaced
      Words-plain refl

outputs_match-spaced_self : outputs_match strings numbers spaced spaced ≡ true
outputs_match-spaced_self = outputs_match_refl strings numbers spaced

values_match-numbers_example :
    (values_match numbers (codes "17") (codes "018")
      ≡ numbers.lt (numbers.abs (numbers.sub (fin (pos 17)) (fin (pos 18)))) (numbers.literal 1 5))
    × ((numbers.simple_atoi (codes "17")).0 ≡ true
        → (numbers.simple_atoi (codes "018")).0 ≡ true
        → values_match numbers (codes "17") (codes "018") ≡ int_eq (pos 17) (pos 18))
values_match-numbers_example =
    values_match-numbers numbers exact (codes "17") (codes "018") (fin (pos 17)) (fin (pos 18)) refl
      refl

yes_against_number :
    ((values_match numbers (codes "yes") (codes "17") ≡ true) ↔ (codes "yes" ≡ codes "17"))
    × ((values_match numbers (codes "17") (codes "yes") ≡ true) ↔ (codes "yes" ≡ codes "17"))
unfolding text_eq
yes_against_number = values_match-text numbers (codes "yes") (codes "17") (refl, refl)

-- 2 ^ 56 + 1 and 2 ^ 56 + 2
large_integers-match :
    values_match numbers (codes "72057594037927937") (codes "72057594037927938") ≡ true
unfolding nat_abs ◌-ℤ◌
large_integers-match =
    values_match-rounded numbers (codes "72057594037927937") (codes "72057594037927938")
      (fin (pos (2 ^ 56))) refl refl refl

nan-unlike_nan : values_match numbers (codes "nan") (codes "nan") ≡ false
unfolding text_eq
nan-unlike_nan = values_match-not_self numbers (codes "nan") nan refl refl

outputs_match-nan : outputs_match strings numbers (codes "nan 1") (codes "nan 01") ≡ false
unfolding outputs_match split_and_lowercase split texts_eq text_eq values_match all_match
outputs_match-nan = refl

Words-nan : Words (codes "nan 17") (codes "nan" ∷ codes "17" ∷ [])
Words-nan =
    word 32 (codes "nan") (codes "17") ((λ e. cc), (refl, (refl, (refl, tt)))) refl
      (last (codes "17") number-IsWord)
