-- ===== src/Address/Order.antt =====
-- The order on addresses is a strict total order.
use exhy.Common.{
  sym, suc, ℕ, ==_iff, Bool, true, false, not, ◌&&◌, ◌≡◌, ◌≢◌, refl, ap, ◌∙◌, ◌⊎◌, inl, inr, List,
  [], ◌∷◌, ltb, arith, ◌==◌, if◌then◌else◌, length, Bool-cases,
}
use exhy.Address.{memcmp, decide, address_less, is_equal, address_eq}

lex : List ℕ → List ℕ → Bool
lex [] [] = false
lex [] (y ∷ ys) = true
lex (x ∷ xs) [] = false
lex (x ∷ xs) (y ∷ ys) =
    let rest = lex xs ys in if ltb x y then true else if ltb y x then false else rest

ltb-suc : (n m : ℕ) → ltb (suc n) (suc m) ≡ ltb n m
ltb-suc n m = ground arith

eq_suc : (n m : ℕ) → (suc n == suc m) ≡ (n == m)
eq_suc n m = ground arith

less-lex : (a b : List ℕ) → address_less a b ≡ lex a b
unfolding memcmp lex
less-lex [] [] = refl
less-lex [] (y ∷ ys) = ground arith
less-lex (x ∷ xs) [] = ground arith
less-lex (x ∷ xs) (y ∷ ys) = elim (Bool-cases (ltb x y)) [
  | inl h ↦ rw (memcmp, lex, h) refl
  | inr h ↦ elim (Bool-cases (ltb y x)) [
    | inl g ↦ rw (memcmp, lex, h, g) refl
    | inr g ↦
        rw (memcmp, lex, h, g)
          (ap (λ b. decide b (memcmp xs ys)) (ltb-suc (length xs) (length ys)) ∙ less-lex xs ys)
  ]
]

and_false : (b : Bool) → (b && false) ≡ false
and_false true = refl
and_false false = refl

lex_trans : (a b c : List ℕ) → (lex a b && lex b c && not (lex a c)) ≡ false
unfolding lex
lex_trans [] [] c = refl
lex_trans [] (y ∷ ys) [] = refl
lex_trans [] (y ∷ ys) (z ∷ zs) = and_false (lex (y ∷ ys) (z ∷ zs))
lex_trans (x ∷ xs) [] c = refl
lex_trans (x ∷ xs) (y ∷ ys) [] = rw (and_false (lex (x ∷ xs) (y ∷ ys))) refl
lex_trans (x ∷ xs) (y ∷ ys) (z ∷ zs) = let ih = lex_trans xs ys zs in ground arith

not-and : (b : Bool) → (not b && not (not b)) ≡ false
not-and true = refl
not-and false = refl

lex_total : (a b : List ℕ) → (a ≡ b) ⊎ ((a ≢ b) × (lex b a ≡ not (lex a b)))
unfolding lex
lex_total [] [] = inl refl
lex_total [] (y ∷ ys) = inr ((λ e. cc), refl)
lex_total (x ∷ xs) [] = inr ((λ e. cc), refl)
lex_total (x ∷ xs) (y ∷ ys) = elim (lex_total xs ys) [
  | inl e ↦ elim (Bool-cases (x == y)) [
    | inl h ↦ let q : x ≡ y = (==_iff x y).0 h in inl (cc)
    | inr h ↦ inr (λ q. let p : x ≡ y = cc in cc (h, (==_iff x y).1 p), ground arith)
  ]
  | inr (n, e) ↦ inr (λ q. n (cc), ground arith)
]

eq-lex : (a b : List ℕ) → address_eq a b ≡ (not (lex a b) && not (lex b a))
unfolding memcmp lex
eq-lex [] [] = refl
eq-lex [] (y ∷ ys) = ground arith
eq-lex (x ∷ xs) [] = ground arith
eq-lex (x ∷ xs) (y ∷ ys) = elim (Bool-cases (ltb x y)) [
  | inl h ↦ rw (memcmp, lex, h) (and_false _)
  | inr h ↦ elim (Bool-cases (ltb y x)) [
    | inl g ↦ rw (memcmp, lex, h, g) (and_false _)
    | inr g ↦
        rw (memcmp, lex, h, g)
          (ap (λ b. b && is_equal (memcmp xs ys)) (eq_suc (length xs) (length ys)) ∙ eq-lex xs ys)
  ]
]

lex_self : (a : List ℕ) → lex a a ≡ false
unfolding lex
lex_self [] = refl
lex_self (x ∷ xs) = ground (arith, lex_self xs)

-- Two addresses are the same bytes, and then they are equal and neither is less; or they are not, and then they are
-- not equal and exactly one of them is less. And less is transitive.
pub address_order :
    (a b c : List ℕ)
    → (((a ≡ b) × (address_eq a b ≡ true) × (address_less a b ≡ false) × (address_less b a ≡ false))
        ⊎ ((a ≢ b) × (address_eq a b ≡ false) × (address_less b a ≡ not (address_less a b))))
      × ((address_less a b && address_less b c && not (address_less a c)) ≡ false)
address_order a b c = (
  elim (lex_total a b) [
    | inl e ↦ inl (
      e,
      eq-lex a b ∙ rw (ap (lex a) (sym e) ∙ lex_self a, ap (lex b) e ∙ lex_self b) refl,
      less-lex a b ∙ ap (lex a) (sym e) ∙ lex_self a,
      less-lex b a ∙ ap (lex b) e ∙ lex_self b,
    )
    | inr (n, e) ↦
        inr
          (n, eq-lex a b ∙ rw e (not-and (lex a b)), less-lex b a ∙ e ∙ ap not (sym (less-lex a b)))
  ],
  rw (less-lex a b, less-lex b c, less-lex a c) (lex_trans a b c),
)
