-- ===== src/Outputs/Values.antt =====
-- When two tokens match.
use code_contests.Prelude.{
  ℕ, ◌≡◌, sym, ap, ◌∙◌, ◌↔◌, true, false, Text, text_eq, text_eq_iff, ◌==◌, arith, ◌*◌, ◌^◌, ◌≤◌,
  ltb,
}
use code_contests.Prelude.Int.{ℤ, pos, IsInt32, int_eq, ◌-ℤ◌, nat_abs, nat_abs-sub}
use code_contests.Outputs.{Numbers, values_match}

below_one : (n : ℕ) → ltb (n * 10 ^ 5) 1 ≡ (n == 0)
below_one n = ground arith

module _ (numbers : Numbers) where
  open numbers use {Double, simple_atoi, simple_atod, sub, abs, lt, literal}

  -- What the parsers and doubles are known to do on the integers of 32 bits: a text that reads as an
  -- `int` is in its range and reads as the double of the same value; differences and absolute values
  -- of such doubles are exact; and the double of a natural number is below that of a literal which is
  -- not above 1, and does not underflow, exactly if the number is below the literal.
  pub record ExactIntegers : Type 0 where
    pub of_int : ℤ → Double
    pub in_range : (t : Text) → (simple_atoi t).0 ≡ true → IsInt32 (simple_atoi t).1
    pub reads_double :
        (t : Text) → (simple_atoi t).0 ≡ true → simple_atod t ≡ (true, of_int (simple_atoi t).1)
    pub sub_exact : (m n : ℤ) → IsInt32 m → IsInt32 n → sub (of_int m) (of_int n) ≡ of_int (m -ℤ n)
    pub abs_exact :
        (m n : ℤ) → IsInt32 m → IsInt32 n → abs (of_int (m -ℤ n)) ≡ of_int (pos (nat_abs (m -ℤ n)))
    pub below_literal :
        (n m e : ℕ) → m ≤ 10 ^ e → e ≤ 300 → lt (of_int (pos n)) (literal m e) ≡ ltb (n * 10 ^ e) m

  only_zero : (x : ExactIntegers) (n : ℕ) → lt (x.of_int (pos n)) (literal 1 5) ≡ (n == 0)
  only_zero x n = x.below_literal n 1 5 (omega arith) (omega arith) ∙ below_one n

  -- The branch for doubles, with its tests known.
  by_doubles :
      (a b : Text) (x y : Double)
      → simple_atod a ≡ (true, x)
      → simple_atod b ≡ (true, y)
      → values_match numbers a b ≡ lt (abs (sub x y)) (literal 1 5)
  unfolding values_match
  by_doubles a b x y p q = ground arith

  values_match-integers :
      ExactIntegers
      → (a b : Text) → (simple_atoi a).0 ≡ true
      → (simple_atoi b).0 ≡ true
      → values_match numbers a b ≡ int_eq (simple_atoi a).1 (simple_atoi b).1
  values_match-integers x a b p q =
      let m = (simple_atoi a).1 in
      let n = (simple_atoi b).1 in
      let hm = x.in_range a p in
      let hn = x.in_range b q in
      by_doubles a b (x.of_int m) (x.of_int n) (x.reads_double a p) (x.reads_double b q)
      ∙ ap (λ d. lt (abs d) (literal 1 5)) (x.sub_exact m n hm hn)
      ∙ ap (λ d. lt d (literal 1 5)) (x.abs_exact m n hm hn)
      ∙ only_zero x (nat_abs (m -ℤ n))
      ∙ nat_abs-sub m n

  -- How two tokens that read as numbers are compared, if the parsers and doubles are exact on the
  -- integers of 32 bits. The tokens match exactly if the absolute difference of their doubles is
  -- below 1e-5. If both read as integers, this is so exactly if the integers are equal: the tolerance,
  -- through which they are compared too, lets no other pair pass.
  pub values_match-numbers :
      ExactIntegers
      → (a b : Text) (x y : Double) → simple_atod a ≡ (true, x)
      → simple_atod b ≡ (true, y)
      → (values_match numbers a b ≡ lt (abs (sub x y)) (literal 1 5))
        × ((simple_atoi a).0 ≡ true
            → (simple_atoi b).0 ≡ true
            → values_match numbers a b ≡ int_eq (simple_atoi a).1 (simple_atoi b).1)
  values_match-numbers exact a b x y p q = (by_doubles a b x y p q, values_match-integers exact a b)

  by_text :
      (a b : Text)
      → ((simple_atoi a).0 ≡ false) × ((simple_atod a).0 ≡ false)
      → (values_match numbers a b ≡ text_eq a b) × (values_match numbers b a ≡ text_eq b a)
  unfolding values_match
  by_text a b (p, q) = (ground arith, ground arith)

  -- A token that reads as no number matches itself and no other token, by its bytes.
  pub values_match-text :
      (a b : Text)
      → ((simple_atoi a).0 ≡ false) × ((simple_atod a).0 ≡ false)
      → ((values_match numbers a b ≡ true) ↔ (a ≡ b))
        × ((values_match numbers b a ≡ true) ↔ (a ≡ b))
  values_match-text a b h =
      let (e, f) = by_text a b h in
      let (to, from) = text_eq_iff a b in
      let (to', from') = text_eq_iff b a in
      (
        (λ m. to (sym e ∙ m), λ same. e ∙ from same),
        (λ m. sym (to' (sym f ∙ m)), λ same. f ∙ from' (sym same)),
      )

  -- Integers that do not fit an `int` are compared as doubles. So two different ones match as soon
  -- as they are rounded to one double whose difference with itself is below the tolerance.
  pub values_match-rounded :
      (a b : Text) (x : Double)
      → simple_atod a ≡ (true, x)
      → simple_atod b ≡ (true, x)
      → lt (abs (sub x x)) (literal 1 5) ≡ true
      → values_match numbers a b ≡ true
  values_match-rounded a b x p q h = by_doubles a b x x p q ∙ h

  -- A token that reads as a double which differs from itself, as a NaN and an infinity do, does not
  -- even match itself.
  pub values_match-not_self :
      (a : Text) (x : Double)
      → simple_atod a ≡ (true, x)
      → lt (abs (sub x x)) (literal 1 5) ≡ false
      → values_match numbers a a ≡ false
  values_match-not_self a x p h = by_doubles a a x x p p ∙ h
