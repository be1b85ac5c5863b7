-- ===== src/Problems/Search.antt =====
-- The search for the problem that the example solves.
use code_contests.Prelude.{
  ap, sym, ◌∙◌, subst, codes, ◌≡◌, refl, ◌≢◌, ◌↔◌, ◌⊎◌, inl, inr, false, List, [], ◌∷◌, ◌++◌, All,
  text_eq, text_eq_iff, Bool-cases,
}
use code_contests.Status.{StatusOr, Error, ok, err, error, not_found}
use code_contests.Problems.{ContestProblem, gregor_and_cryptography, find_gregor_and_cryptography}

abbrev pub OtherName : ContestProblem → Type 0
OtherName p = p.name ≢ gregor_and_cryptography

abbrev pub not_there : StatusOr ContestProblem
not_there =
    error not_found
      (codes "Gregor and Cryptography problem not found. Did you pass the validation dataset?")

-- The first record of that name: none before it has the name.
pub record First (records : List ContestProblem) (p : ContestProblem) : Type 0 where
  pub before : List ContestProblem
  pub after : List ContestProblem
  pub split : records ≡ before ++ p ∷ after
  pub others : All OtherName before
  pub named : p.name ≡ gregor_and_cryptography

First-later :
    {q p : ContestProblem} {rest : List ContestProblem}
    → OtherName q
    → First rest p
    → First (q ∷ rest) p
First-later {q} other f = record {
  before = q ∷ f.before;
  after = f.after;
  split = ap (λ rs. q ∷ rs) f.split;
  others = (other, f.others);
  named = f.named;
}

module _ (q : ContestProblem) (rest : List ContestProblem) where
  find-named : q.name ≡ gregor_and_cryptography → find_gregor_and_cryptography (q ∷ rest) ≡ ok q
  unfolding find_gregor_and_cryptography
  find-named h = rw ((text_eq_iff q.name gregor_and_cryptography).1 h)

  find-other :
      text_eq q.name gregor_and_cryptography ≡ false
      → find_gregor_and_cryptography (q ∷ rest) ≡ find_gregor_and_cryptography rest
  unfolding find_gregor_and_cryptography
  find-other h = rw h

  name-cases :
      ((q.name ≡ gregor_and_cryptography) × (find_gregor_and_cryptography (q ∷ rest) ≡ ok q))
      ⊎ (OtherName q
          × (find_gregor_and_cryptography (q ∷ rest) ≡ find_gregor_and_cryptography rest))
  name-cases = elim (Bool-cases (text_eq q.name gregor_and_cryptography)) [
    | inl same ↦
        let e = (text_eq_iff q.name gregor_and_cryptography).0 same in inl (e, find-named e)
    | inr other ↦ inr (λ e. cc ((text_eq_iff q.name gregor_and_cryptography).1 e), find-other other)
  ]

find-First :
    (records : List ContestProblem) (p : ContestProblem)
    → find_gregor_and_cryptography records ≡ ok p
    → First records p
unfolding find_gregor_and_cryptography
find-First [] p h = cc
find-First (q ∷ rest) p h = elim (name-cases q rest) [
  | inl (e, found) ↦
      let same : q ≡ p = cc in
      record {
        before = [];
        after = rest;
        split = ap (λ x. x ∷ rest) same;
        others = tt;
        named = subst (λ x. x.name ≡ gregor_and_cryptography) same e;
      }
  | inr (other, later) ↦ First-later other (find-First rest p (sym later ∙ h))
]

First-find :
    (before after : List ContestProblem) (p : ContestProblem)
    → All OtherName before
    → p.name ≡ gregor_and_cryptography
    → find_gregor_and_cryptography (before ++ p ∷ after) ≡ ok p
First-find [] after p none_before e = find-named p after e
First-find (q ∷ before) after p (other, others) e = elim (name-cases q (before ++ p ∷ after)) [
  | inl (same, found) ↦ absurd (other same)
  | inr (_, later) ↦ later ∙ First-find before after p others e
]

find-nothing :
    (records : List ContestProblem)
    → All OtherName records
    → find_gregor_and_cryptography records ≡ not_there
unfolding find_gregor_and_cryptography
find-nothing [] others = refl
find-nothing (q ∷ rest) (other, others) = elim (name-cases q rest) [
  | inl (same, found) ↦ absurd (other same)
  | inr (_, later) ↦ later ∙ find-nothing rest others
]

nothing-found :
    (records : List ContestProblem) (x : Error)
    → find_gregor_and_cryptography records ≡ err x
    → All OtherName records
unfolding find_gregor_and_cryptography
nothing-found [] x h = tt
nothing-found (q ∷ rest) x h = elim (name-cases q rest) [
  | inl (e, found) ↦ absurd (cc found)
  | inr (other, later) ↦ (other, nothing-found rest x (sym later ∙ h))
]

-- The search finds a problem exactly when it is the first record of its name, and reports NOT_FOUND,
-- with its message, exactly when no record has the name.
pub find_gregor_and_cryptography_iff :
    (records : List ContestProblem)
    → ((p : ContestProblem) → (find_gregor_and_cryptography records ≡ ok p) ↔ First records p)
      × ((find_gregor_and_cryptography records ≡ not_there) ↔ All OtherName records)
find_gregor_and_cryptography_iff records = (
  λ p. (
    find-First records p,
    λ f. ap find_gregor_and_cryptography f.split ∙ First-find f.before f.after p f.others f.named,
  ),
  (λ h. nothing-found records _ h, find-nothing records),
)
