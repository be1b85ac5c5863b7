-- ===== src/Outputs/Words.antt =====
-- The words of a text, as a relation, and that `split_and_lowercase` finds them.
use code_contests.Prelude.{
  ℕ, ◌≡◌, inl, inr, true, false, List, [], ◌∷◌, ◌++◌, map, All, Text, Bool-cases, ap, ◌∙◌, fun_ext,
}
use code_contests.Outputs.{delimiters, contains, ascii_lower, IsWord, Strings, split_and_lowercase}

-- The text is these words, each up to the next delimiter, with any delimiters between them.
pub data Words : Text → List Text → Type 0 where
  end : Words [] []
  skip :
      (c : ℕ) {s : Text} {ws : List Text}
      → contains delimiters c ≡ true
      → Words s ws
      → Words (c ∷ s) ws
  last : (w : Text) → IsWord delimiters w → Words w (w ∷ [])
  word :
      (c : ℕ) (w s : Text) {ws : List Text}
      → IsWord delimiters w
      → contains delimiters c ≡ true
      → Words s ws
      → Words (w ++ c ∷ s) (w ∷ ws)

cons-IsWord :
    (c : ℕ) (w : Text)
    → contains delimiters c ≡ false
    → All (λ d. contains delimiters d ≡ false) w
    → IsWord delimiters (c ∷ w)
cons-IsWord c w h k = (λ e. cc, (h, k))

-- A byte that does not delimit extends the first word, or begins one.
extend :
    (c : ℕ) {s : Text} {ws : List Text}
    → contains delimiters c ≡ false
    → Words s ws
    → (vs : List Text) × Words (c ∷ s) vs
extend c h end = (_, last (c ∷ []) (cons-IsWord c [] h tt))
extend c h (skip d {s} e r) = (_, word d (c ∷ []) s (cons-IsWord c [] h tt) e r)
extend c h (last w i) = (_, last (c ∷ w) (cons-IsWord c w h i.1))
extend c h (word d w s i e r) = (_, word d (c ∷ w) s (cons-IsWord c w h i.1) e r)

-- Every text has its words.
pub words_of : (s : Text) → (ws : List Text) × Words s ws
words_of [] = ([], end)
words_of (c ∷ s) = elim (Bool-cases (contains delimiters c)) [
  | inl d ↦ let (ws, r) = words_of s in (ws, skip c d r)
  | inr n ↦ let (ws, r) = words_of s in extend c n r
]

abbrev pub lower_words : List Text → List Text
lower_words = map (map ascii_lower)

module _ (strings : Strings) where
  split-Words : {s : Text} {ws : List Text} → Words s ws → strings.str_split delimiters s ≡ ws
  split-Words end = strings.split-nil delimiters
  split-Words (skip c {s} d r) = strings.split-delimiter delimiters s c d ∙ split-Words r
  split-Words (last w i) = strings.split-word delimiters w i
  split-Words (word c w s i d r) =
      strings.split-word_delimiter delimiters w s c i d ∙ ap (λ vs. w ∷ vs) (split-Words r)

  -- `SplitAndLowercase` gives the words of the text in order, each in lowercase.
  pub split_and_lowercase-Words :
      (s : Text) (ws : List Text) → Words s ws → split_and_lowercase strings s ≡ lower_words ws
  unfolding split_and_lowercase
  split_and_lowercase-Words s ws r =
      ap (map strings.to_lower) (split-Words r) ∙ ap (λ f. map f ws) (fun_ext strings.to_lower-map)
