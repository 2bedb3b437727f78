-- ===== src/Common/Alls.antt =====
-- Lists whose elements all have a property, and elements that are there.
use exhy.Common.{
  ℕ, zero, suc, ◌<◌, ◌≡◌, refl, ap, subst, List, [], ◌∷◌, ◌++◌, some, arith, length, All, get_elem?,
  set,
}

module _ {ℓ} {A : Type ℓ} where
  pub get_elem?-found : (xs : List A) (i : ℕ) → i < length xs → (x : A) × (get_elem? xs i ≡ some x)
  get_elem?-found [] i h = elim h [ ]
  get_elem?-found (x ∷ xs) zero h = (x, refl)
  get_elem?-found (x ∷ xs) (suc i) h = get_elem?-found xs i (omega arith)

  pub set_same : (xs : List A) (i : ℕ) {x : A} → get_elem? xs i ≡ some x → set xs i x ≡ xs
  set_same [] i h = refl
  set_same (y ∷ xs) zero h = ap (λ z. z ∷ xs) (cc h)
  set_same (y ∷ xs) (suc i) h = ap (◌∷◌ y) (set_same xs i h)

module _ {ℓ κ} {A : Type ℓ} (P : A → Type κ) where
  pub All-get : (xs : List A) (i : ℕ) {x : A} → All P xs → get_elem? xs i ≡ some x → P x
  All-get [] i h e = cc
  All-get (y ∷ xs) zero {x = x} (h, hs) e = let q : y ≡ x = cc in subst P q h
  All-get (y ∷ xs) (suc i) (h, hs) e = All-get xs i hs e

  pub All-set : (xs : List A) (i : ℕ) {x : A} → All P xs → P x → All P (set xs i x)
  All-set [] i h p = h
  All-set (y ∷ xs) zero (h, hs) p = (p, hs)
  All-set (y ∷ xs) (suc i) (h, hs) p = (h, All-set xs i hs p)

  pub All-concat : (xs : List A) {x : A} → All P xs → P x → All P (xs ++ x ∷ [])
  All-concat [] h p = (p, tt)
  All-concat (y ∷ xs) (h, hs) p = (h, All-concat xs hs p)

pub All-weaken {ℓ κ ι} :
    {A : Type ℓ} (P : A → Type κ) (Q : A → Type ι) (xs : List A)
    → ((x : A) → P x → Q x)
    → All P xs
    → All Q xs
All-weaken P Q [] f h = tt
All-weaken P Q (x ∷ xs) f (h, hs) = (f x h, All-weaken P Q xs f hs)
