-- ===== src/Timers/Order.antt =====
-- The order of the set of timers, and the timer that is due first.
use exhy.Common.{
  Option, ℕ, ◌-◌, ◌≤◌, ◌<◌, Bool, true, false, ◌||◌, ◌≡◌, ◌⊎◌, refl, sym, ap, subst, ◌∙◌, inl, inr,
  List, [], ◌∷◌, if◌then◌else◌, arith, ltb, leb, ◌==◌, Bool-cases, All, size_mod, sub_size,
  add_size,
}
use exhy.Timers.{
  Timer, TimerManager, Store, put, before, insert, insert_timer, add_timer, get_next_timer,
}

-- Comparator on the times x, y and the addresses a, b.
abbrev earlier : ℕ → ℕ → ℕ → ℕ → Bool
earlier x a y b = if ltb x y then true else (if ltb y x then false else ltb a b)

earlier_trans :
    (x a y b z c : ℕ) → earlier x a y b ≡ true → earlier y b z c ≡ true → earlier x a z c ≡ true
earlier_trans x a y b z c h k = ground arith

earlier_total : (x a y b : ℕ) → earlier x a y b ≡ false → earlier y b x a ≡ false → a ≡ b
earlier_total x a y b h k = ground arith

earlier-le : (x a y b : ℕ) → earlier x a y b ≡ true → x ≤ y
earlier-le x a y b h = ground arith

earlier_asym : (x a y b : ℕ) → earlier x a y b ≡ true → earlier y b x a ≡ false
earlier_asym x a y b h = ground arith

-- Strictly ascending in the order of Comparator.
abbrev pub Sorted : Store → List ℕ → Type 0
Sorted ts [] = Unit
Sorted ts (a ∷ others) = All (λ b. before ts a b ≡ true) others × Sorted ts others

pub before_trans :
    (ts : Store) (a b c : ℕ) → before ts a b ≡ true → before ts b c ≡ true → before ts a c ≡ true
unfolding before
before_trans ts a b c h k = earlier_trans (ts a).next a (ts b).next b (ts c).next c h k

pub before-le : (ts : Store) (a b : ℕ) → before ts a b ≡ true → (ts a).next ≤ (ts b).next
unfolding before
before-le ts a b h = earlier-le (ts a).next a (ts b).next b h

before-All :
    (ts : Store) (a b : ℕ) (cs : List ℕ)
    → before ts a b ≡ true
    → All (λ c. before ts b c ≡ true) cs
    → All (λ c. before ts a c ≡ true) cs
before-All ts a b [] h k = tt
before-All ts a b (c ∷ cs) h k = (before_trans ts a b c h k.0, before-All ts a b cs h k.1)

All-insert :
    (ts : Store) (P : ℕ → Type 0) (a : ℕ) (bs : List ℕ) → P a → All P bs → All P (insert ts a bs)
unfolding insert
All-insert ts P a [] h k = (h, tt)
All-insert ts P a (b ∷ bs) h k = elim (Bool-cases (before ts a b)) [
  | inl e ↦ rw e (h, k)
  | inr e ↦ elim (Bool-cases (before ts b a)) [
    | inl f ↦ rw (e, f) (k.0, All-insert ts P a bs h k.1)
    | inr f ↦ rw (e, f) k
  ]
]

pub insert-Sorted : (ts : Store) (a : ℕ) (bs : List ℕ) → Sorted ts bs → Sorted ts (insert ts a bs)
unfolding insert
insert-Sorted ts a [] h = (tt, tt)
insert-Sorted ts a (b ∷ bs) h = elim (Bool-cases (before ts a b)) [
  | inl e ↦ rw e ((e, before-All ts a b bs e h.0), h)
  | inr e ↦ elim (Bool-cases (before ts b a)) [
    | inl f ↦
        rw (e, f) (All-insert ts (λ c. before ts b c ≡ true) a bs f h.0, insert-Sorted ts a bs h.1)
    | inr f ↦ rw (e, f) h
  ]
]

abbrev pub elem : ℕ → List ℕ → Bool
elem b [] = false
elem b (c ∷ cs) = (b == c) || elem b cs

or_twice : (p q r : Bool) → p ≡ q → (p || r) ≡ (q || (p || r))
or_twice true q r h = cc
or_twice false q r h = cc

or_swap : (p q r : Bool) → (p || (q || r)) ≡ (q || (p || r))
or_swap true true r = refl
or_swap true false r = refl
or_swap false true r = refl
or_swap false false r = refl

pub elem-insert :
    (ts : Store) (a : ℕ) (bs : List ℕ) (c : ℕ) → elem c (insert ts a bs) ≡ ((c == a) || elem c bs)
unfolding insert before
elem-insert ts a [] c = refl
elem-insert ts a (b ∷ bs) c = elim (Bool-cases (before ts a b)) [
  | inl e ↦ rw e refl
  | inr e ↦ elim (Bool-cases (before ts b a)) [
    | inl f ↦
        rw (e, f)
          (ap (λ r. (c == b) || r) (elem-insert ts a bs c) ∙ or_swap (c == b) (c == a) (elem c bs))
    | inr f ↦
        let same : a ≡ b = earlier_total (ts a).next a (ts b).next b e f in
        rw (e, f) (or_twice (c == b) (c == a) (elem c bs) (ap (λ x. c == x) (sym same)))
  ]
]

-- Other addresses than `a`.
abbrev pub Fresh : ℕ → List ℕ → Type 0
Fresh a bs = All (λ b. (b == a) ≡ false) bs

before-put :
    (ts : Store) (a : ℕ) (t : Timer) (b c : ℕ)
    → (b == a) ≡ false
    → (c == a) ≡ false
    → before (put a t ts) b c ≡ before ts b c
unfolding before put
before-put ts a t b c h k = rw (h, k) refl

before-All-put :
    (ts : Store) (a : ℕ) (t : Timer) (b : ℕ) (cs : List ℕ)
    → (b == a) ≡ false
    → Fresh a cs
    → All (λ c. before ts b c ≡ true) cs
    → All (λ c. before (put a t ts) b c ≡ true) cs
before-All-put ts a t b [] h f k = tt
before-All-put ts a t b (c ∷ cs) h f k =
    (before-put ts a t b c h f.0 ∙ k.0, before-All-put ts a t b cs h f.1 k.1)

-- What happens to a timer outside the set does not disturb its order.
pub Sorted-put :
    (ts : Store) (a : ℕ) (t : Timer) (bs : List ℕ)
    → Fresh a bs
    → Sorted ts bs
    → Sorted (put a t ts) bs
Sorted-put ts a t [] f h = tt
Sorted-put ts a t (b ∷ bs) f h =
    (before-All-put ts a t b bs f.0 f.1 h.0, Sorted-put ts a t bs f.1 h.1)

-- On a set in order, addTimer with a timer that is not in it keeps the order and adds just this
-- timer.
pub add_timer_lem :
    (now a ms : ℕ) (cb : Option ℕ) (recurring : Bool) (m : TimerManager)
    → Sorted m.timers m.set_of
    → Fresh a m.set_of
    → Sorted
        (add_timer now a ms cb recurring m).1.timers
        (add_timer now a ms cb recurring m).1.set_of
      × ((c : ℕ)
          → elem c (add_timer now a ms cb recurring m).1.set_of ≡ ((c == a) || elem c m.set_of))
unfolding add_timer insert_timer
add_timer_lem now a ms cb recurring m h f =
    let t : Timer = record { recurring = recurring; ms = ms; next = add_size now ms; cb = cb } in
    (
      insert-Sorted (put a t m.timers) a m.set_of (Sorted-put m.timers a t m.set_of f h),
      elem-insert (put a t m.timers) a m.set_of,
    )

All-le :
    (ts : Store) (a : ℕ) (bs : List ℕ)
    → All (λ b. before ts a b ≡ true) bs
    → All (λ b. (ts a).next ≤ (ts b).next) bs
All-le ts a [] h = tt
All-le ts a (b ∷ bs) h = (before-le ts a b h.0, All-le ts a bs h.1)

pub eq_self : (a : ℕ) → (a == a) ≡ true
eq_self a = ground arith

wait_lem :
    (next now : ℕ) → next < size_mod → (if leb next now then 0 else sub_size next now) ≡ next - now
wait_lem next now h = ground arith

pub list_cases : (bs : List ℕ) → (bs ≡ []) ⊎ ((a : ℕ) × (others : List ℕ) × (bs ≡ a ∷ others))
list_cases [] = inl refl
list_cases (a ∷ others) = inr (a, others, refl)

-- On a set in order, with all times below 2 ^ 64, getNextTimer returns ~0ull where there is no
-- timer, and else how long it is until the first of all timers is due, 0 where one is due already.
pub get_next_timer_lem :
    (now : ℕ) (m : TimerManager)
    → Sorted m.timers m.set_of
    → All (λ b. (m.timers b).next < size_mod) m.set_of
    → ((m.set_of ≡ []) × ((get_next_timer now m).0 ≡ size_mod - 1))
      ⊎ ((a : ℕ) × (elem a m.set_of ≡ true)
          × All (λ b. (m.timers a).next ≤ (m.timers b).next) m.set_of
          × ((get_next_timer now m).0 ≡ (m.timers a).next - now))
unfolding get_next_timer
get_next_timer_lem now m h k = elim (list_cases m.set_of) [
  | inl e ↦ inl (e, rw e refl)
  | inr (a, others, e) ↦
      let below = (subst (All (λ b. (m.timers b).next < size_mod)) e k).0 in
      let least = All-le m.timers a others (subst (Sorted m.timers) e h).0 in
      inr (
        a,
        rw (e, eq_self a) refl,
        rw e (omega arith, least),
        rw e (wait_lem (m.timers a).next now below),
      )
]
