-- ===== src/Timers/Expiry.antt =====
-- listExpiredCb: which timers expire, and which callbacks it returns.
use exhy.Common.{
  ℕ, ◌≤◌, true, false, ◌≡◌, refl, ap, subst, inl, inr, List, [], ◌∷◌, ◌++◌, Option, arith, ==_iff,
  ltb, ◌==◌, ltb→lt, ltb-false→le, Bool-cases, All,
}
use exhy.Timers.{TimerManager, Store, before, split_at}
use exhy.Timers.Order.{Sorted, before-le, Fresh}

abbrev pub Due : ℕ → Store → ℕ → Type 0
Due now ts b = (ts b).next ≤ now

abbrev pub Later : ℕ → Store → ℕ → Type 0
Later now ts b = now ≤ (ts b).next

Later-All :
    (now : ℕ) (ts : Store) (a : ℕ) (bs : List ℕ)
    → now ≤ (ts a).next
    → All (λ b. before ts a b ≡ true) bs
    → All (Later now ts) bs
Later-All now ts a [] h k = tt
Later-All now ts a (b ∷ bs) h k = (omega (arith, before-le ts a b k.0), Later-All now ts a bs h k.1)

pub split_lem :
    (ts : Store) (now temp : ℕ) (bs : List ℕ)
    → Sorted ts bs
    → All (Due now ts) (split_at ts now temp bs).0
      × All (Later now ts) (split_at ts now temp bs).1
      × (bs ≡ (split_at ts now temp bs).0 ++ (split_at ts now temp bs).1)
unfolding split_at
split_lem ts now temp [] h = (tt, tt, refl)
split_lem ts now temp (a ∷ bs) h =
    let (due, late, whole) = split_lem ts now temp bs h.1 in
    elim (Bool-cases (ltb now (ts a).next)) [
      | inl k ↦
          let over = ltb→lt _ _ k in
          let l : now ≤ (ts a).next = omega arith in
          rw k (tt, (l, Later-All now ts a bs l h.0), refl)
      | inr k ↦
          let early = ltb-false→le _ _ k in
          elim (Bool-cases (ltb (ts a).next now)) [
            | inl j ↦ rw (k, j) ((early, due), late, ap (λ cs. a ∷ cs) whole)
            | inr j ↦
                let l = ltb-false→le _ _ j in
                elim (Bool-cases (ltb temp a)) [
                  | inl i ↦ rw (k, j, i) (tt, (l, Later-All now ts a bs l h.0), refl)
                  | inr i ↦ rw (k, j, i) ((early, due), late, ap (λ cs. a ∷ cs) whole)
                ]
          ]
    ]

abbrev pub callbacks : Store → List ℕ → List (Option ℕ)
callbacks ts [] = []
callbacks ts (a ∷ bs) = (ts a).cb ∷ callbacks ts bs

-- No timer twice.
abbrev pub Distinct : List ℕ → Type 0
Distinct [] = Unit
Distinct (a ∷ bs) = Fresh a bs × Distinct bs

pub before_self : (ts : Store) (a : ℕ) → before ts a a ≡ false
unfolding before
before_self ts a = ground arith

before-ne : (ts : Store) (a b : ℕ) → before ts a b ≡ true → (b == a) ≡ false
before-ne ts a b h = elim (Bool-cases (b == a)) [
  | inl e ↦
      let same : b ≡ a = (==_iff b a).0 e in
      let k = before_self ts a in let j = subst (λ c. before ts a c ≡ true) same h in cc
  | inr e ↦ e
]

pub All-Fresh : (ts : Store) (a : ℕ) (bs : List ℕ) → All (λ b. before ts a b ≡ true) bs → Fresh a bs
All-Fresh ts a [] h = tt
All-Fresh ts a (b ∷ bs) h = (before-ne ts a b h.0, All-Fresh ts a bs h.1)

pub Sorted-Distinct : (ts : Store) (bs : List ℕ) → Sorted ts bs → Distinct bs
Sorted-Distinct ts [] h = tt
Sorted-Distinct ts (a ∷ bs) h = (All-Fresh ts a bs h.0, Sorted-Distinct ts bs h.1)

pub Fresh-take : (a : ℕ) (bs cs : List ℕ) → Fresh a (bs ++ cs) → Fresh a bs
Fresh-take a [] cs h = tt
Fresh-take a (b ∷ bs) cs h = (h.0, Fresh-take a bs cs h.1)

pub Distinct-take : (bs cs : List ℕ) → Distinct (bs ++ cs) → Distinct bs
Distinct-take [] cs h = tt
Distinct-take (b ∷ bs) cs h = (Fresh-take b bs cs h.0, Distinct-take bs cs h.1)

-- What listExpiredCb returns, by whether the clock was found to have gone back.
pub record Listed (m : TimerManager) (now : ℕ) (cbs : List (Option ℕ)) : Type 0 where
  pub expired : List ℕ
  pub later : List ℕ
  pub whole : m.set_of ≡ expired ++ later
  pub due : All (Due now m.timers) expired
  pub not_due : All (Later now m.timers) later
  pub returned : cbs ≡ callbacks m.timers expired
