-- ===== src/Outputs/Examples/Functions.antt =====
-- A splitter and number functions for the examples.
use code_contests.Prelude.{
  ℕ, ◌+◌, ◌-◌, ◌*◌, ◌/◌, ◌^◌, ◌≡◌, refl, Bool, true, false, ◌&&◌, Option, none, some, List, [], ◌∷◌,
  ◌++◌, map, leb, ltb, if◌then◌else◌, Text, text_eq, codes, arith,
}
use code_contests.Prelude.Int.{ℤ, pos, IsInt32, ◌-ℤ◌, nat_abs}
use code_contests.Outputs.{contains, ascii_lower, IsWord, Strings, Numbers}
use code_contests.Outputs.Values.{ExactIntegers}

-- Whether a word goes on at the head of a text.
abbrev goes_on : Text → Text → Bool
goes_on ds [] = false
goes_on ds (c ∷ s) = if contains ds c then false else true

abbrev glue : ℕ → List Text → List Text
glue c [] = (c ∷ []) ∷ []
glue c (w ∷ ws) = (c ∷ w) ∷ ws

unfoldable pub split : Text → Text → List Text
split ds [] = []
split ds (c ∷ s) =
    let rest = split ds s in
    if contains ds c then rest else if goes_on ds s then glue c rest else (c ∷ []) ∷ rest

pub split-nil : (ds : Text) → split ds [] ≡ []
unfolding split
split-nil ds = refl

pub split-delimiter : (ds s : Text) (c : ℕ) → contains ds c ≡ true → split ds (c ∷ s) ≡ split ds s
unfolding split
split-delimiter ds s c h = rw h

split-tail :
    (ds : Text) (c d : ℕ) (s w : Text) (ws : List Text)
    → contains ds c ≡ false
    → contains ds d ≡ false
    → split ds (d ∷ s) ≡ w ∷ ws
    → split ds (c ∷ d ∷ s) ≡ (c ∷ w) ∷ ws
unfolding split
split-tail ds c d s w ws h k e = ground arith

pub split-word_delimiter :
    (ds w s : Text) (c : ℕ)
    → IsWord ds w
    → contains ds c ≡ true
    → split ds (w ++ c ∷ s) ≡ w ∷ split ds s
unfolding split
split-word_delimiter ds [] s c i h = absurd (i.0 refl)
split-word_delimiter ds (b ∷ []) s c (_, (nb, _)) h = rw (nb, h)
split-word_delimiter ds (b ∷ d ∷ w) s c (_, (nb, (nd, n))) h =
    split-tail ds b d (w ++ c ∷ s) (d ∷ w) (split ds s) nb nd
      (split-word_delimiter ds (d ∷ w) s c ((λ e. cc), (nd, n)) h)

pub split-word : (ds w : Text) → IsWord ds w → split ds w ≡ w ∷ []
unfolding split
split-word ds [] i = absurd (i.0 refl)
split-word ds (b ∷ []) (_, (nb, _)) = rw nb
split-word ds (b ∷ d ∷ w) (_, (nb, (nd, n))) =
    split-tail ds b d w (d ∷ w) [] nb nd (split-word ds (d ∷ w) ((λ e. cc), (nd, n)))

abbrev pub strings : Strings
strings = record {
  str_split = split;
  to_lower = map ascii_lower;
  split-nil = split-nil;
  split-delimiter = split-delimiter;
  split-word = split-word;
  split-word_delimiter = split-word_delimiter;
  to_lower-map = λ s. refl;
}

-- Integers, decimal fractions m·10^-e, and a value that is no number.
pub data Double : Type 0 where
  fin : ℤ → Double
  frac : ℕ → ℕ → Double
  nan : Double

abbrev digits : ℕ → Text → Option ℕ
digits n [] = some n
digits n (c ∷ s) = if leb b'0' c && leb c b'9' then digits (10 * n + (c - b'0')) s else none

abbrev natural : Text → Option ℕ
natural [] = none
natural (c ∷ s) = digits 0 (c ∷ s)

abbrev int_of : Option ℕ → Bool × ℤ
int_of none = (false, pos 0)
int_of (some n) = if ltb n (2 ^ 31) then (true, pos n) else (false, pos 0)

-- Large numbers are rounded down to a multiple of 16.
abbrev double_of : Text → Option ℕ → Bool × Double
double_of s none = if text_eq s (codes "nan") then (true, nan) else (false, fin (pos 0))
double_of s (some n) =
    if ltb n (2 ^ 31) then (true, fin (pos n)) else (true, fin (pos (n / 16 * 16)))

abbrev sub : Double → Double → Double
sub (fin m) (fin n) = fin (m -ℤ n)
sub _ _ = nan

abbrev abs : Double → Double
abs (fin m) = fin (pos (nat_abs m))
abs x = x

-- Only integers are compared with fractions.
abbrev lt : Double → Double → Bool
lt (fin (pos n)) (frac m e) = ltb (n * 10 ^ e) m
lt _ _ = false

abbrev pub numbers : Numbers
numbers = record {
  Double = Double;
  simple_atoi = λ s. int_of (natural s);
  simple_atod = λ s. double_of s (natural s);
  sub = sub;
  abs = abs;
  lt = lt;
  literal = frac;
}

pub exact : ExactIntegers numbers
exact = record {
  of_int = fin;
  in_range = λ t h. int_in_range (natural t) h;
  reads_double = λ t h. reads (natural t) t h;
  sub_exact = λ m n hm hn. refl;
  abs_exact = λ m n hm hn. refl;
  below_literal = λ n m e small range. refl;
}
  where
    int_in_range : (o : Option ℕ) → (int_of o).0 ≡ true → IsInt32 (int_of o).1
    int_in_range none h = cc
    int_in_range (some n) h = ground arith

    reads :
        (o : Option ℕ) (t : Text) → (int_of o).0 ≡ true → double_of t o ≡ (true, fin (int_of o).1)
    reads none t h = cc
    reads (some n) t h = ground arith
