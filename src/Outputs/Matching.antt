-- ===== src/Outputs/Matching.antt =====
-- When two outputs match.
use code_contests.Prelude.{
  ◌≡◌, refl, sym, ap, ap₂, map, ◌∙◌, ◌⊎◌, ◌↔◌, inl, inr, Bool, true, false, not, List, [], ◌∷◌,
  length, Text, text_eq_iff, ◌==◌, if◌then◌else◌, arith, Bool-cases,
}
use code_contests.Outputs.{
  ascii_lower, Strings, Numbers, values_match, all_match, texts_eq, split_and_lowercase,
  outputs_match,
}
use code_contests.Outputs.Words.{Words, lower_words, words_of, split_and_lowercase-Words}

pub texts_eq_iff : (s t : List Text) → (texts_eq s t ≡ true) ↔ (s ≡ t)
unfolding texts_eq
texts_eq_iff [] [] = (λ _. refl, λ _. refl)
texts_eq_iff [] (b ∷ t) = (λ h. cc, λ h. cc)
texts_eq_iff (a ∷ s) [] = (λ h. cc, λ h. cc)
texts_eq_iff (a ∷ s) (b ∷ t) = ground (arith, text_eq_iff a b, texts_eq_iff s t)

-- The tokens match one by one, and there are as many.
abbrev pub AllMatch : Numbers → List Text → List Text → Type 0
AllMatch numbers [] [] = Unit
AllMatch numbers (a ∷ s) (b ∷ t) = (values_match numbers a b ≡ true) × AllMatch numbers s t
AllMatch numbers _ _ = ⊥

module _ (numbers : Numbers) where
  AllMatch-iff :
      (s t : List Text)
      → ((length s == length t) ≡ true) × (all_match numbers s t ≡ true) ↔ AllMatch numbers s t
  unfolding all_match
  AllMatch-iff [] [] = (λ _. tt, λ _. (refl, refl))
  AllMatch-iff [] (b ∷ t) = (λ h. ground arith, λ h. absurd h)
  AllMatch-iff (a ∷ s) [] = (λ h. ground arith, λ h. absurd h)
  AllMatch-iff (a ∷ s) (b ∷ t) = (
    λ h. (ground (arith, h), (AllMatch-iff s t).0 (ground (arith, h), ground (arith, h))),
    λ h. let (same, all) = (AllMatch-iff s t).1 h.1 in (ground arith, ground (arith, h.0)),
  )

  -- `OutputsMatch` behind the splitting.
  abbrev parts_match : List Text → List Text → Bool
  parts_match s t =
      if texts_eq s t
      then true
      else if not (length s == length t)
      then false
      else all_match numbers s t

  parts_match_iff : (s t : List Text) → (parts_match s t ≡ true) ↔ ((s ≡ t) ⊎ AllMatch numbers s t)
  parts_match_iff s t = elim (Bool-cases (texts_eq s t)) [
    | inl same ↦ (λ h. inl ((texts_eq_iff s t).0 same), λ h. rw same)
    | inr other ↦ (
      λ h. inr ((AllMatch-iff s t).0 (ground (arith, h), ground (arith, h))),
      λ h. elim h [
        | inl e ↦ absurd (cc ((texts_eq_iff s t).1 e))
        | inr m ↦ let (same, all) = (AllMatch-iff s t).1 m in ground arith
      ],
    )
  ]

module _ (strings : Strings) (numbers : Numbers) where
  by_parts :
      (s t : Text)
      → outputs_match strings numbers s t
        ≡ parts_match numbers (split_and_lowercase strings s) (split_and_lowercase strings t)
  unfolding outputs_match
  by_parts s t = refl

  by_words :
      (s t : Text) (ws vs : List Text)
      → Words s ws
      → Words t vs
      → outputs_match strings numbers s t ≡ parts_match numbers (lower_words ws) (lower_words vs)
  by_words s t ws vs p q =
      by_parts s t
      ∙ ap₂ (parts_match numbers) (split_and_lowercase-Words strings s ws p)
          (split_and_lowercase-Words strings t vs q)

  -- Two outputs match exactly when, in lowercase, their words are the same, or there are as many
  -- words in both and they match one by one. Where the words stand in the texts, and which of the
  -- five delimiters are between them, does not matter.
  pub outputs_match_iff :
      (s t : Text) (ws vs : List Text)
      → Words s ws
      → Words t vs
      → (outputs_match strings numbers s t ≡ true)
        ↔ ((lower_words ws ≡ lower_words vs) ⊎ AllMatch numbers (lower_words ws) (lower_words vs))
  outputs_match_iff s t ws vs p q =
      let e = by_words s t ws vs p q in
      let (to, from) = parts_match_iff numbers (lower_words ws) (lower_words vs) in
      (λ h. to (sym e ∙ h), λ h. e ∙ from h)

  -- Layout and case do not matter, on either side: an output and its replacement with the same words
  -- up to case compare alike with every text.
  pub outputs_match-layout :
      (s s' t : Text) (ws ws' : List Text)
      → Words s ws
      → Words s' ws'
      → lower_words ws ≡ lower_words ws'
      → (outputs_match strings numbers s t ≡ outputs_match strings numbers s' t)
        × (outputs_match strings numbers t s ≡ outputs_match strings numbers t s')
  outputs_match-layout s s' t ws ws' p q e =
      let (vs, r) = words_of t in
      (
        by_words s t ws vs p r
            ∙ ap (λ x. parts_match numbers x (lower_words vs)) e
            ∙ sym (by_words s' t ws' vs q r),
        by_words t s vs ws r p
            ∙ ap (λ x. parts_match numbers (lower_words vs) x) e
            ∙ sym (by_words t s' vs ws' r q),
      )

  -- Every output matches itself, also where it has tokens that do not match themselves.
  pub outputs_match_refl : (s : Text) → outputs_match strings numbers s s ≡ true
  outputs_match_refl s = let (ws, p) = words_of s in (outputs_match_iff s s ws ws p p).1 (inl refl)

  -- But a token that does not match itself spoils every other comparison: two outputs that begin
  -- with it match only if all their words are the same.
  pub outputs_match-not_self :
      (s t a : Text) (ws vs : List Text)
      → Words s (a ∷ ws)
      → Words t (a ∷ vs)
      → values_match numbers (map ascii_lower a) (map ascii_lower a) ≡ false
      → outputs_match strings numbers s t ≡ true
      → lower_words ws ≡ lower_words vs
  outputs_match-not_self s t a ws vs p q bad h =
      elim ((outputs_match_iff s t (a ∷ ws) (a ∷ vs) p q).0 h) [
        | inl e ↦ cc
        | inr m ↦ absurd (cc (m.0))
      ]
