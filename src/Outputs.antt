-- ===== src/Outputs.antt =====
-- The comparison of outputs in execution/tester_sandboxer.cc: `SplitAndLowercase`, `ValuesMatch` and
-- `OutputsMatch`. The string functions of abseil and the arithmetic of doubles are parameters.
pub mod Words
pub mod Values
pub mod Matching
pub mod Examples
use code_contests.Prelude.{
  ℕ, ◌+◌, ◌≡◌, ◌≢◌, Bool, true, false, not, ◌&&◌, ◌||◌, List, [], ◌∷◌, ◌++◌, map, length, All, ◌==◌,
  leb, if◌then◌else◌, Text, text_eq,
}
use code_contests.Prelude.Int.{ℤ, int_eq}

-- " \n\t\r\v"
abbrev pub delimiters : Text
delimiters = 32 ∷ 10 ∷ 9 ∷ 13 ∷ 11 ∷ []

abbrev pub contains : Text → ℕ → Bool
contains [] c = false
contains (d ∷ ds) c = d == c || contains ds c

-- The bytes A to Z become a to z.
abbrev pub ascii_lower : ℕ → ℕ
ascii_lower c = if leb b'A' c && leb c b'Z' then c + 32 else c

-- A word has a byte, and none that delimits.
abbrev pub IsWord : Text → Text → Type 0
IsWord ds w = (w ≢ []) × All (λ c. contains ds c ≡ false) w

-- What the code takes from absl/strings: splitting at every one of some bytes, with the empty pieces
-- left out, and lowercase for ASCII.
pub record Strings : Type 0 where
  pub str_split : Text → Text → List Text
  pub to_lower : Text → Text
  pub split-nil : (ds : Text) → str_split ds [] ≡ []
  pub split-delimiter :
      (ds s : Text) (c : ℕ) → contains ds c ≡ true → str_split ds (c ∷ s) ≡ str_split ds s
  pub split-word : (ds w : Text) → IsWord ds w → str_split ds w ≡ w ∷ []
  pub split-word_delimiter :
      (ds w s : Text) (c : ℕ)
      → IsWord ds w
      → contains ds c ≡ true
      → str_split ds (w ++ c ∷ s) ≡ w ∷ str_split ds s
  pub to_lower-map : (s : Text) → to_lower s ≡ map ascii_lower s

-- What the code takes of numbers: the two parsers, with whether they accept and the value that they
-- store, and the arithmetic of doubles. `literal m e` is the double that the literal m·10^-e stands
-- for.
pub record Numbers : Type 1 where
  pub Double : Type 0
  pub simple_atoi : Text → Bool × ℤ
  pub simple_atod : Text → Bool × Double
  pub sub : Double → Double → Double
  pub abs : Double → Double
  pub lt : Double → Double → Bool
  pub literal : ℕ → ℕ → Double

-- operator== on vectors of strings
unfoldable pub texts_eq : List Text → List Text → Bool
unfolding text_eq
texts_eq [] [] = true
texts_eq (a ∷ as') (b ∷ bs) = text_eq a b && texts_eq as' bs
texts_eq _ _ = false

module _ (strings : Strings) where
  unfoldable pub split_and_lowercase : Text → List Text
  split_and_lowercase s = map strings.to_lower (strings.str_split delimiters s)

module _ (numbers : Numbers) where
  open numbers use {Double, simple_atoi, simple_atod, sub, abs, lt, literal}

  -- kDoublePrecision: 1e-5
  abbrev pub double_precision : Double
  double_precision = literal 1 5

  unfoldable pub values_match : Text → Text → Bool
  values_match a b =
      let (a_is_int, ai) = simple_atoi a in
      let (b_is_int, bi) = simple_atoi b in
      let (a_is_double, ad) = simple_atod a in
      let (b_is_double, bd) = simple_atod b in
      let a_is_string = not a_is_int && not a_is_double in
      let b_is_string = not b_is_int && not b_is_double in
      if a_is_string || b_is_string
      then text_eq a b
      else if a_is_double || b_is_double
      then lt (abs (sub ad bd)) double_precision
      else int_eq ai bi

  -- std::transform_reduce with std::logical_and, over two vectors of one length
  pub all_match : List Text → List Text → Bool
  all_match (a ∷ as') (b ∷ bs) = values_match a b && all_match as' bs
  all_match _ _ = true

module _ (strings : Strings) (numbers : Numbers) where
  unfoldable pub outputs_match : Text → Text → Bool
  outputs_match output expected =
      let output_parts = split_and_lowercase strings output in
      let expected_parts = split_and_lowercase strings expected in
      if texts_eq output_parts expected_parts
      then true
      else if not (length output_parts == length expected_parts)
      then false
      else all_match numbers output_parts expected_parts
