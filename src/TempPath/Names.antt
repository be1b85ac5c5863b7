-- ===== src/TempPath/Names.antt =====
-- What the name of a temporary directory tells.
use code_contests.Prelude.{
  ℕ, zero, suc, ◌+◌, ◌-◌, ◌*◌, ◌/◌, ◌%◌, ◌≤◌, ◌<◌, ◌≡◌, refl, sym, ◌∙◌, ap, subst, inl, inr, Bool,
  true, false, Option, none, some, [], ◌∷◌, ◌++◌, All, All-append, ltb, Bool-cases, ◌==◌,
  if◌then◌else◌, Text, drop, arith,
}
use code_contests.Results.Print.{decimal, digits_loop}
use code_contests.TempPath.{Surroundings, path_of, drawn, unless_created, construct_path}

-- The number that a text of digits stands for, after the digits that gave `n`.
pub value_from : ℕ → Text → ℕ
value_from n [] = n
value_from n (c ∷ s) = value_from (n * 10 + (c - b'0')) s

abbrev value : Text → ℕ
value s = value_from 0 s

abbrev pub IsDigit : ℕ → Type 0
IsDigit c = (b'0' ≤ c) × (c ≤ b'9')

-- Numbers are printed by digits that stand for them.
pub record PrintsNumbers (print : ℕ → Text) : Type 0 where
  pub digits : (n : ℕ) → All IsDigit (print n)
  pub value_is : (n : ℕ) → value (print n) ≡ n

-- What stands before the first dash, and what stands behind it.
pub until_dash : Text → Text × Text
until_dash [] = ([], [])
until_dash (c ∷ s) = let (a, b) = until_dash s in if c == b'-' then ([], s) else (c ∷ a, b)

abbrev last_two : Text → Text × Text → ℕ × ℕ × ℕ
last_two a (b, c) = (value a, value b, value c)

abbrev all_three : Text × Text → ℕ × ℕ × ℕ
all_three (a, rest) = last_two a (until_dash rest)

-- The time, the process and the random number in a path.
unfoldable pub read_path : Text → ℕ × ℕ × ℕ
read_path path = all_three (until_dash (drop 5 path))

until_dash-digits : (s t : Text) → All IsDigit s → until_dash (s ++ b'-' ∷ t) ≡ (s, t)
unfolding until_dash
until_dash-digits [] t h = refl
until_dash-digits (c ∷ s) t (d, h) =
    let no_dash : (c == b'-') ≡ false = ground (arith, d) in
    rw (no_dash, until_dash-digits s t h) refl

value_from-append :
    (n : ℕ) (s : Text) (c : ℕ) → value_from n (s ++ c ∷ []) ≡ value_from n s * 10 + (c - b'0')
unfolding value_from
value_from-append n [] c = refl
value_from-append n (d ∷ s) c = value_from-append (n * 10 + (d - b'0')) s c

value-digits_loop : (fuel n : ℕ) → n < fuel → value (digits_loop fuel n) ≡ n
unfolding digits_loop value_from
value-digits_loop zero n h = absurd (omega (arith, h))
value-digits_loop (suc fuel) n h = elim (Bool-cases (ltb n 10)) [
  | inl small ↦ rw (digits_loop, small) (omega arith)
  | inr large ↦
      let smaller : n / 10 < fuel = ground (arith, h) in
      rw
        (
          digits_loop,
          large,
          value_from-append 0 (digits_loop fuel (n / 10)) (b'0' + n % 10),
          value-digits_loop fuel (n / 10) smaller,
        )
        (omega arith)
]

digits-digits_loop : (fuel n : ℕ) → All IsDigit (digits_loop fuel n)
unfolding digits_loop
digits-digits_loop zero n = tt
digits-digits_loop (suc fuel) n = elim (Bool-cases (ltb n 10)) [
  | inl small ↦ rw (digits_loop, small) (ground arith)
  | inr large ↦
      rw (digits_loop, large)
        (All-append IsDigit (digits_loop fuel (n / 10)) _ (digits-digits_loop fuel (n / 10))
          (ground arith))
]

pub decimal-PrintsNumbers : PrintsNumbers decimal
unfolding decimal
decimal-PrintsNumbers = record {
  digits = λ n. digits-digits_loop (n + 1) n;
  value_is = λ n. value-digits_loop (n + 1) n (omega arith);
}

module _ (s : Surroundings) where
  open s use {State, unix_millis, pid, uniform, create_directory, print}

  made :
      (path : Text) (o : Option Bool) (state : State) (q : Text) (state' : State)
      → unless_created s path (o, state) ≡ (some q, state')
      → (path ≡ q) × (o ≡ some true) × (state ≡ state')
  made path (some true) state q state' e = (cc, refl, cc)
  made path (some false) state q state' e = absurd (cc)
  made path none state q state' e = absurd (cc)

  -- The path of a new object is the one that is printed for what was drawn.
  pub construct_path-path_of :
      (state state' : State) (path : Text)
      → construct_path s state ≡ (some path, state')
      → let (millis, rand, before) = drawn s state in path_of s millis pid rand ≡ path
  unfolding construct_path
  construct_path-path_of state state' path e =
      let (millis, rand, before) = drawn s state in
      let named = path_of s millis pid rand in
      (made named (create_directory named before).0 (create_directory named before).1 path state'
        e).0

  -- Its directory was created by this very call.
  pub construct_path-created :
      (state state' : State) (path : Text)
      → construct_path s state ≡ (some path, state')
      → let (millis, rand, before) = drawn s state in
        ((create_directory path before).0 ≡ some true) × ((create_directory path before).1 ≡ state')
  unfolding construct_path
  construct_path-created state state' path e =
      let (millis, rand, before) = drawn s state in
      let named = path_of s millis pid rand in
      let (same, created, after) =
        made named (create_directory named before).0 (create_directory named before).1 path state'
          e in
      (
        subst (λ q. (create_directory q before).0 ≡ some true) same created,
        subst (λ q. (create_directory q before).1 ≡ state') same after,
      )

module _ (s : Surroundings) (prints : PrintsNumbers s.print) where
  open s use {State, unix_millis, pid, uniform, create_directory, print}

  read_path-path_of : (m p r : ℕ) → read_path (path_of s m p r) ≡ (m, p, r)
  unfolding read_path path_of
  read_path-path_of m p r =
      ap all_three (until_dash-digits (print m) (print p ++ (b'-' ∷ print r)) (prints.digits m))
      ∙ ap (last_two (print m)) (until_dash-digits (print p) (print r) (prints.digits p))
      ∙ rw (prints.value_is m, prints.value_is p, prints.value_is r) refl

  -- The path of a new TempPath can be read back: it tells the time, the process and the random number
  -- that were drawn for it, if `%d` prints numbers in decimal, so that objects of different times,
  -- processes or random numbers have different paths. And its directory was created by this very
  -- call.
  pub construct_path-read_path :
      (state state' : State) (path : Text)
      → construct_path s state ≡ (some path, state')
      → let (millis, rand, before) = drawn s state in
        (read_path path ≡ (millis, pid, rand))
        × ((create_directory path before).0 ≡ some true)
        × ((create_directory path before).1 ≡ state')
  construct_path-read_path state state' path e =
      let (millis, rand, before) = drawn s state in
      (
        ap read_path (sym (construct_path-path_of s state state' path e))
            ∙ read_path-path_of millis pid rand,
        (construct_path-created s state state' path e).0,
        (construct_path-created s state state' path e).1,
      )
