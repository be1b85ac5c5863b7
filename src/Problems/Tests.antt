-- ===== src/Problems/Tests.antt =====
-- The tests that the example hands to `Test`.
use code_contests.Prelude.{
  ◌≢◌, ℕ, zero, suc, ◌<◌, ◌≤◌, ◌≡◌, refl, ◌∙◌, ap, sym, ◌⊎◌, inl, inr, some, List, [], ◌∷◌, ◌++◌,
  map, length, get_elem?, Text, arith,
}
use code_contests.Status.{ok_status}
use code_contests.Problems.{TestCase, ContestProblem, resize, get_inputs, get_outputs}
use code_contests.Runner.{check_arguments}
use code_contests.Runner.Beginning.{check_arguments_iff}
use code_contests.Runner.Task.{Job}

-- All tests of a problem, in the order in which the example takes them.
abbrev pub all_tests : ContestProblem → List TestCase
all_tests p = (p.public_tests ++ p.private_tests) ++ p.generated_tests

map-append {ℓ κ} :
    {A : Type ℓ} {B : Type κ} (f : A → B) (xs ys : List A) → map f (xs ++ ys) ≡ map f xs ++ map f ys
map-append f [] ys = refl
map-append f (x ∷ xs) ys = ap (λ zs. f x ∷ zs) (map-append f xs ys)

length-resize : (xs : List Text) (n : ℕ) → length (resize xs n) ≡ n
unfolding resize
length-resize xs zero = refl
length-resize [] (suc n) = omega (arith, length-resize [] n)
length-resize (x ∷ xs) (suc n) = omega (arith, length-resize xs n)

module _ (f : TestCase → Text) where
  joined :
      (p : ContestProblem)
      → (map f p.public_tests ++ map f p.private_tests) ++ map f p.generated_tests
        ≡ map f (all_tests p)
  joined p =
      ap (λ xs. xs ++ map f p.generated_tests) (sym (map-append f p.public_tests p.private_tests))
      ∙ sym (map-append f (p.public_tests ++ p.private_tests) p.generated_tests)

-- The entry of two lists of texts at one place: from one test, or empty after the last test.
abbrev pub Paired : List TestCase → List Text → List Text → ℕ → Type 0
Paired tests xs ys i =
    ((t : TestCase) × (get_elem? tests i ≡ some t)
      × (get_elem? xs i ≡ some t.input)
      × (get_elem? ys i ≡ some t.output))
    ⊎ ((length tests ≤ i) × (get_elem? xs i ≡ some []) × (get_elem? ys i ≡ some []))

resize-nil : (n i : ℕ) → i < n → get_elem? (resize [] n) i ≡ some []
unfolding resize
resize-nil zero i h = absurd (omega (arith, h))
resize-nil (suc n) zero h = refl
resize-nil (suc n) (suc i) h = resize-nil n i (omega arith)

Paired-resize :
    (tests : List TestCase) (n i : ℕ)
    → i < n
    → Paired tests (resize (map (λ t. t.input) tests) n) (resize (map (λ t. t.output) tests) n) i
unfolding resize
Paired-resize tests zero i h = absurd (omega (arith, h))
Paired-resize [] (suc n) i h = inr (omega arith, resize-nil (suc n) i h, resize-nil (suc n) i h)
Paired-resize (t ∷ tests) (suc n) zero h = inl (t, refl, refl, refl)
Paired-resize (t ∷ tests) (suc n) (suc i) h = elim (Paired-resize tests n i (omega arith)) [
  | inl found ↦ inl found
  | inr (late, e, e') ↦ inr (omega (arith, late), e, e')
]

-- The inputs and the outputs are as many as asked for, and stand at the same places: at each place
-- both are of one test, in the order of public, private and generated tests; behind the last test
-- both are empty.
pub get_inputs-get_outputs :
    (p : ContestProblem) (n : ℕ)
    → (length (get_inputs p n) ≡ n)
      × (length (get_outputs p n) ≡ n)
      × ((i : ℕ) → i < n → Paired (all_tests p) (get_inputs p n) (get_outputs p n) i)
unfolding get_inputs get_outputs
get_inputs-get_outputs p n = (
  length-resize _ n,
  length-resize _ n,
  λ i h. rw (joined (λ t. t.input) p, joined (λ t. t.output) p) (Paired-resize (all_tests p) n i h),
)

nonempty : (n : ℕ) (xs : List Text) → 0 < n → length xs ≡ n → xs ≢ []
nonempty n [] h e = absurd (omega (arith, h, e))
nonempty n (x ∷ xs) h e = λ q. cc

-- With any other arguments as they are, `Test` accepts the inputs and outputs that the example hands
-- to it, if it asks for at least one of them; early stopping may be asked for.
pub check_arguments-get_inputs :
    (j : Job) (p : ContestProblem) (n : ℕ)
    → 0 < n
    → check_arguments (record j { inputs = get_inputs p n; expected = get_outputs p n }) ≡ ok_status
check_arguments-get_inputs j p n h =
    let same = get_inputs-get_outputs p n in
    (check_arguments_iff (record j { inputs = get_inputs p n; expected = get_outputs p n })).1
      (inr (same.0 ∙ sym same.1), λ _. nonempty n (get_outputs p n) h same.1)
