-- ===== src/Python/Hash.antt =====
-- What the hash of a compiled program depends on.
use code_contests.Prelude.{
  ℕ, zero, suc, ◌+◌, ◌≤◌, ◌≡◌, refl, ◌∙◌, ap, sym, ◌≢◌, inl, inr, true, false, Bool-cases, some, [],
  ◌∷◌, ◌++◌, length, take, drop, length-append, ltb, Text, arith,
}
use code_contests.Python.{code_file, begins_with, find, replace_path, without_header, program_hash}

begins_with_append : (t rest : Text) → begins_with (t ++ rest) t ≡ true
begins_with_append [] [] = refl
begins_with_append [] (c ∷ rest) = refl
begins_with_append (c ∷ t) rest = ground (arith, begins_with_append t rest)

begins_with_split : (s t : Text) → begins_with s t ≡ true → (rest : Text) × (s ≡ t ++ rest)
begins_with_split s [] h = (s, refl)
begins_with_split [] (d ∷ t) h = cc
begins_with_split (c ∷ s) (d ∷ t) h =
    let same : c ≡ d = ground (arith, h) in
    let (rest, e) = begins_with_split s t (ground (arith, h)) in
    (rest, ap (λ x. x ∷ s) same ∙ ap (λ x. d ∷ x) e)

-- The path `t` does not occur in the binary, with `c` and the path after `pre`, before its place.
abbrev pub FirstAfter : Text → ℕ → Text → Text → Type 0
FirstAfter pre c t rest =
    (before after : Text)
    → length before ≤ length pre
    → pre ++ (c ∷ (t ++ rest)) ≢ before ++ (t ++ after)

find-here : (s t : Text) → begins_with s t ≡ true → find s t ≡ some 0
unfolding find
find-here [] t h = rw h refl
find-here (c ∷ s) t h = rw h refl

find-later :
    (c : ℕ) (s t : Text) (i : ℕ)
    → begins_with (c ∷ s) t ≡ false
    → find s t ≡ some i
    → find (c ∷ s) t ≡ some (suc i)
unfolding find
find-later c s t i h e = rw (h, e) refl

not_here : (s t : Text) → ((after : Text) → s ≢ t ++ after) → begins_with s t ≡ false
not_here s t h = elim (Bool-cases (begins_with s t)) [
  | inl here ↦ let (after, e) = begins_with_split s t here in absurd (h after e)
  | inr later ↦ later
]

find-first :
    (pre : Text) (c : ℕ) (t rest : Text)
    → FirstAfter pre c t rest
    → find (pre ++ (c ∷ (t ++ rest))) t ≡ some (suc (length pre))
find-first [] c t rest h =
    find-later c (t ++ rest) t 0 (not_here (c ∷ (t ++ rest)) t (λ after. h [] after (omega arith)))
      (find-here (t ++ rest) t (begins_with_append t rest))
find-first (b ∷ pre) c t rest h =
    find-later b (pre ++ (c ∷ (t ++ rest))) t (suc (length pre))
      (not_here (b ∷ (pre ++ (c ∷ (t ++ rest)))) t (λ after. h [] after (omega arith)))
      (find-first pre c t rest
        (λ before after k e. h (b ∷ before) after (omega (arith, k)) (ap (λ s. b ∷ s) e)))

take-append : (s t : Text) → take (length s) (s ++ t) ≡ s
take-append [] t = refl
take-append (c ∷ s) t = ap (λ x. c ∷ x) (take-append s t)

drop-append : (s t : Text) (n k : ℕ) → k ≡ length s + n → drop k (s ++ t) ≡ drop n t
drop-append [] t n k e = ap (λ m. drop m t) (omega (arith, e))
drop-append (c ∷ s) t n zero e = absurd (omega (arith, e))
drop-append (c ∷ s) t n (suc k) e = drop-append s t n k (omega (arith, e))

drop-prefix : (n : ℕ) (s t : Text) → n ≤ length s → drop n (s ++ t) ≡ drop n s ++ t
drop-prefix zero s t h = refl
drop-prefix (suc n) [] t h = absurd (omega (arith, h))
drop-prefix (suc n) (c ∷ s) t h = drop-prefix n s t (omega (arith, h))

drop-path : (c : ℕ) (t rest : Text) → drop (length t + 1) (c ∷ (t ++ rest)) ≡ rest
drop-path c t rest = drop-append (c ∷ t) rest 0 (length t + 1) (omega arith)

replace_path-first :
    (pre : Text) (c : ℕ) (t rest : Text)
    → FirstAfter pre c t rest
    → replace_path (pre ++ (c ∷ (t ++ rest))) t ≡ some (pre ++ (code_file ++ rest))
unfolding replace_path
replace_path-first pre c t rest h =
    rw
      (
        replace_path,
        find-first pre c t rest h,
        take-append pre (c ∷ (t ++ rest)),
        drop-append pre (c ∷ (t ++ rest)) (length t + 1) (length pre + (length t + 1)) refl,
        drop-path c t rest,
      )
      refl

without_header-long :
    (pre s : Text) → 32 ≤ length pre → without_header (pre ++ s) ≡ some (drop 32 pre ++ s)
unfolding without_header
without_header-long pre s long =
    let enough : ltb (length (pre ++ s)) 32 ≡ false = ground (arith, length-append pre s, long) in
    rw (enough, drop-prefix 32 pre s long) refl

module _ (fingerprint : Text → ℕ) where
  hash-first :
      (pre : Text) (c : ℕ) (t rest : Text)
      → 32 ≤ length pre
      → FirstAfter pre c t rest
      → program_hash fingerprint (pre ++ (c ∷ (t ++ rest))) t
        ≡ some (fingerprint (drop 32 pre ++ (code_file ++ rest)))
  unfolding program_hash
  hash-first pre c t rest long h =
      rw
        (
          program_hash,
          replace_path-first pre c t rest h,
          without_header-long pre (code_file ++ rest) long,
        )
        refl

  -- The hash does not depend on the temporary directory, on the byte before the path, or on the
  -- first 32 bytes. Let two binaries contain the paths of their source files, not before the places
  -- that are named, with at least 32 bytes and one more before them. If they agree after the first
  -- 32 bytes up to that one byte, and agree after the path, their hashes are the same, and both are
  -- the fingerprint of that common text with the relative path; no exception is thrown.
  pub program_hash-same :
      (pre pre' : Text) (c c' : ℕ) (path path' rest : Text)
      → 32 ≤ length pre
      → 32 ≤ length pre'
      → drop 32 pre ≡ drop 32 pre'
      → FirstAfter pre c path rest
      → FirstAfter pre' c' path' rest
      → (program_hash fingerprint (pre ++ (c ∷ (path ++ rest))) path
          ≡ some (fingerprint (drop 32 pre ++ (code_file ++ rest))))
        × (program_hash fingerprint (pre' ++ (c' ∷ (path' ++ rest))) path'
            ≡ some (fingerprint (drop 32 pre ++ (code_file ++ rest))))
  program_hash-same pre pre' c c' path path' rest long long' same h h' = (
    hash-first pre c path rest long h,
    hash-first pre' c' path' rest long' h'
        ∙ ap (λ s. some (fingerprint (s ++ (code_file ++ rest)))) (sym same),
  )
