-- ===== src/TempPath/Separate.antt =====
-- The directories of two TempPath objects are apart.
use code_contests.Prelude.{
  ℕ, ◌≡◌, ◌≢◌, refl, sym, ◌∙◌, ap, subst, ◌⊎◌, inl, inr, some, [], ◌∷◌, ◌++◌, All, All-append,
  All-mono, drop, Text, codes, arith,
}
use code_contests.TempPath.{Surroundings, path_of, drawn, construct_path}
use code_contests.TempPath.Names.{
  IsDigit, PrintsNumbers, read_path, construct_path-read_path, construct_path-path_of,
}

-- A path below another, and two paths of which one is the other or below it.
abbrev pub Below : Text → Text → Type 0
Below a b = (t : Text) × (b ≡ a ++ b'/' ∷ t)

abbrev pub Overlap : Text → Text → Type 0
Overlap a b = (a ≡ b) ⊎ Below a b ⊎ Below b a

abbrev NoSlash : ℕ → Type 0
NoSlash c = c ≢ b'/'

-- A path directly below /tmp.
abbrev pub IsTempPath : Text → Type 0
IsTempPath p = (name : Text) × (p ≡ codes "/tmp/" ++ name) × All NoSlash name

digits-NoSlash : (s : Text) → All IsDigit s → All NoSlash s
digits-NoSlash = All-mono IsDigit NoSlash (λ c h e. absurd (omega (arith, h, e)))

not_slashed : (x t : Text) → All NoSlash (x ++ b'/' ∷ t) → ⊥
not_slashed [] t h = h.0 refl
not_slashed (c ∷ x) t h = not_slashed x t h.1

not-Below : (p q : Text) → IsTempPath p → IsTempPath q → Below p q → ⊥
not-Below p q (x, e, _) (y, f, plain) (t, g) =
    let same : y ≡ x ++ b'/' ∷ t = ap (drop 5) (sym f ∙ g ∙ ap (λ r. r ++ b'/' ∷ t) e) in
    not_slashed x t (subst (All NoSlash) same plain)

pub IsTempPath-apart : (p q : Text) → IsTempPath p → IsTempPath q → p ≢ q → Overlap p q → ⊥
IsTempPath-apart p q a b other (inl same) = other same
IsTempPath-apart p q a b other (inr (inl h)) = not-Below p q a b h
IsTempPath-apart p q a b other (inr (inr h)) = not-Below q p b a h

abbrev second : Text → ℕ
second [] = 0
second (c ∷ []) = 0
second (c ∷ d ∷ s) = d

-- The device of random numbers is elsewhere.
pub device-apart : (q : Text) → IsTempPath q → Overlap (codes "/dev/urandom") q → ⊥
device-apart q (y, f, plain) (inl e) = absurd (omega (arith, ap second (e ∙ f)))
device-apart q (y, f, plain) (inr (inl (t, e))) = absurd (omega (arith, ap second (sym e ∙ f)))
device-apart q (y, f, plain) (inr (inr (t, e))) =
    absurd (omega (arith, ap second (e ∙ ap (λ r. r ++ b'/' ∷ t) f)))

module _ (s : Surroundings) (prints : PrintsNumbers s.print) where
  path_of-IsTempPath : (m p r : ℕ) → IsTempPath (path_of s m p r)
  unfolding path_of
  path_of-IsTempPath m p r =
      let plain = λ (n : ℕ). digits-NoSlash (s.print n) (prints.digits n) in
      let dash : NoSlash b'-' = λ e. absurd (omega (arith, e)) in
      (
        s.print m ++ (codes "-" ++ (s.print p ++ (codes "-" ++ s.print r))),
        refl,
        All-append NoSlash (s.print m) _ (plain m)
            (dash, All-append NoSlash (s.print p) _ (plain p) (dash, plain r)),
      )

  pub construct_path-IsTempPath :
      (state state' : s.State) (path : Text)
      → construct_path s state ≡ (some path, state')
      → IsTempPath path
  construct_path-IsTempPath state state' path e =
      let (millis, rand, before) = drawn s state in
      subst IsTempPath (construct_path-path_of s state state' path e)
        (path_of-IsTempPath millis s.pid rand)

-- What names an object: the time, the process and the random number.
abbrev pub key : (s : Surroundings) → s.State → ℕ × ℕ × ℕ
key s state = let (millis, rand, before) = drawn s state in (millis, s.pid, rand)

module _ (s s' : Surroundings) (prints : PrintsNumbers s.print)
    (prints' : PrintsNumbers s'.print) where
  pub keys-apart :
      (a b : s.State) (c d : s'.State) (p q : Text)
      → construct_path s a ≡ (some p, b)
      → construct_path s' c ≡ (some q, d)
      → key s a ≢ key s' c
      → Overlap p q
      → ⊥
  keys-apart a b c d p q e f other =
      IsTempPath-apart p q (construct_path-IsTempPath s prints a b p e)
        (construct_path-IsTempPath s' prints' c d q f)
        (λ same. other (
          sym (construct_path-read_path s prints a b p e).0
          ∙ ap read_path same
          ∙ (construct_path-read_path s' prints' c d q f).0))
