-- ===== src/Status/Laws.antt =====
-- Case rules for results, and what a successful or failing `>>` says of its parts.
use code_contests.Prelude.{◌≡◌, refl, ◌⊎◌, inl, inr}
use code_contests.Status.{StatusOr, Status, Error, ok, err, ok_status, ◌>>=◌, ◌>>◌}

module _ {ℓ} {A : Type ℓ} where
  pub StatusOr-cases : (r : StatusOr A) → ((a : A) × (r ≡ ok a)) ⊎ ((e : Error) × (r ≡ err e))
  StatusOr-cases (ok a) = inl (a, refl)
  StatusOr-cases (err e) = inr (e, refl)

  pub >>-eq-ok : (s : Status) (a b : A) → (s >> ok a) ≡ ok b → (s ≡ ok_status) × (a ≡ b)
  >>-eq-ok (ok tt) a b h = (refl, cc)
  >>-eq-ok (err e) a b h = absurd (cc)

  pub >>-eq-err : (s : Status) (a : A) (e : Error) → (s >> ok a) ≡ err e → s ≡ err e
  >>-eq-err (ok tt) a e h = absurd (cc)
  >>-eq-err (err x) a e h = cc

module _ {ℓ κ} {A : Type ℓ} {B : Type κ} where
  pub >>=-eq-ok :
      (r : StatusOr A) (f : A → StatusOr B) {b : B}
      → (r >>= f) ≡ ok b
      → (a : A) × (r ≡ ok a) × (f a ≡ ok b)
  >>=-eq-ok (ok a) f e = (a, refl, e)
  >>=-eq-ok (err x) f e = absurd (cc)
