-- ===== src/Timers/Invariant.antt =====
-- The invariant of the timers: the set is in order, and holds just the timers that have a callback.
use exhy.Common.{
  ℕ, Bool, true, false, not, ◌&&◌, ◌||◌, ◌≡◌, refl, sym, ap, subst, ◌∙◌, inl, inr, List, [], ◌∷◌,
  some, arith, ◌==◌, ==_iff, Bool-cases, All,
}
use exhy.Common.Alls.{All-weaken}
use exhy.Timers.{Timer, TimerManager, Store, put, before, insert, erase, null_cb}
use exhy.Timers.Order.{eq_self, Sorted, elem, Fresh, Sorted-put, insert-Sorted, elem-insert}
use exhy.Timers.Expiry.{All-Fresh, before_self}

pub record IsValid (m : TimerManager) : Type 0 where
  pub sorted : Sorted m.timers m.set_of
  pub armed : (a : ℕ) → elem a m.set_of ≡ not (null_cb (m.timers a).cb)

before_asym : (ts : Store) (a b : ℕ) → before ts a b ≡ true → before ts b a ≡ false
unfolding before
before_asym ts a b h = ground arith

pub eq_sym : (a b : ℕ) → (a == b) ≡ (b == a)
eq_sym a b = ground arith

pub Fresh-not_elem : (a : ℕ) (bs : List ℕ) → Fresh a bs → elem a bs ≡ false
Fresh-not_elem a [] h = refl
Fresh-not_elem a (b ∷ bs) (h, hs) = rw (eq_sym a b, h) (Fresh-not_elem a bs hs)

pub not_elem-Fresh : (a : ℕ) (bs : List ℕ) → elem a bs ≡ false → Fresh a bs
not_elem-Fresh a [] h = tt
not_elem-Fresh a (b ∷ bs) h = elim (Bool-cases (a == b)) [
  | inl e ↦ cc
  | inr e ↦ (eq_sym b a ∙ e, not_elem-Fresh a bs (ap (λ r. r || elem a bs) (sym e) ∙ h))
]

pub All-elem : (P : ℕ → Type 0) (a : ℕ) (bs : List ℕ) → All P bs → elem a bs ≡ true → P a
All-elem P a [] h e = cc
All-elem P a (b ∷ bs) (h, hs) e = elim (Bool-cases (a == b)) [
  | inl k ↦ subst P (sym ((==_iff a b).0 k)) h
  | inr k ↦ All-elem P a bs hs (ap (λ r. r || elem a bs) (sym k) ∙ e)
]

All-zip : (P Q : ℕ → Type 0) (bs : List ℕ) → All P bs → All Q bs → All (λ b. P b × Q b) bs
All-zip P Q [] h k = tt
All-zip P Q (b ∷ bs) (h, hs) (k, ks) = ((h, k), All-zip P Q bs hs ks)

-- The elements but `a`.
abbrev pub Without : ℕ → List ℕ → List ℕ → Type 0
Without a bs cs = (c : ℕ) → elem c cs ≡ (elem c bs && not (c == a))

pub and_true : (b : Bool) → (b && true) ≡ b
and_true true = refl
and_true false = refl

Without-head : (a : ℕ) (bs : List ℕ) → elem a bs ≡ false → Without a (a ∷ bs) bs
Without-head a bs h c = elim (Bool-cases (c == a)) [
  | inl e ↦ let same = (==_iff c a).0 e in rw e (ap (λ d. elem d bs) same ∙ h)
  | inr e ↦ rw e (sym (and_true (elem c bs)))
]

Without-tail :
    (a b : ℕ) (bs cs : List ℕ) → (a == b) ≡ false → Without a bs cs → Without a (b ∷ bs) (b ∷ cs)
Without-tail a b bs cs h w c = elim (Bool-cases (c == b)) [
  | inl e ↦ let other : (c == a) ≡ false = ground arith in rw (e, other) refl
  | inr e ↦ rw e (w c)
]

pub erase_All :
    (ts : Store) (P : ℕ → Type 0) (a : ℕ) (bs : List ℕ)
    → Sorted ts bs
    → All P bs
    → elem a bs ≡ true
    → (cs : List ℕ) × (erase ts a bs ≡ some cs) × Sorted ts cs × All P cs × Without a bs cs
unfolding erase
erase_All ts P a [] h p e = cc
erase_All ts P a (b ∷ bs) (h, hs) (p, ps) e = elim (Bool-cases (a == b)) [
  | inl k ↦
      let same : a ≡ b = (==_iff a b).0 k in
      let q : before ts a b ≡ false = subst (λ x. before ts a x ≡ false) same (before_self ts a) in
      let r : before ts b a ≡ false = subst (λ x. before ts x a ≡ false) same (before_self ts a) in
      let fresh : Fresh a bs = subst (λ x. Fresh x bs) (sym same) (All-Fresh ts b bs h) in
      (
        bs,
        rw (q, r) refl,
        hs,
        ps,
        subst (λ x. Without a (x ∷ bs) bs) same (Without-head a bs (Fresh-not_elem a bs fresh)),
      )
  | inr k ↦
      let there : elem a bs ≡ true = ap (λ r. r || elem a bs) (sym k) ∙ e in
      let Q : ℕ → Type 0 = λ c. before ts b c ≡ true in
      let r = All-elem Q a bs h there in
      let q = before_asym ts b a r in
      let (cs, g, so, z, w) = erase_All ts (λ c. Q c × P c) a bs hs (All-zip Q P bs h ps) there in
      (
        b ∷ cs,
        rw (q, r, g) refl,
        (All-weaken (λ c. Q c × P c) Q cs (λ c y. y.0) z, so),
        (p, All-weaken (λ c. Q c × P c) P cs (λ c y. y.1) z),
        Without-tail a b bs cs k w,
      )
]

All-unit : (bs : List ℕ) → All (λ c. Unit {0}) bs
All-unit [] = tt
All-unit (b ∷ bs) = (tt, All-unit bs)

-- A timer that has a callback leaves the set.
pub taken_out :
    (m : TimerManager) (a : ℕ)
    → IsValid m
    → null_cb (m.timers a).cb ≡ false
    → (cs : List ℕ) × (erase m.timers a m.set_of ≡ some cs)
      × Sorted m.timers cs
      × Without a m.set_of cs
taken_out m a v h =
    let (cs, g, so, z, w) =
      erase_All m.timers (λ c. Unit {0}) a m.set_of v.sorted (All-unit m.set_of)
        (v.armed a ∙ ap not h) in
    (cs, g, so, w)

pub Without-self : (a : ℕ) (bs cs : List ℕ) → Without a bs cs → elem a cs ≡ false
Without-self a bs cs w = w a ∙ rw (eq_self a) (and_false (elem a bs))
  where
    and_false : (b : Bool) → (b && false) ≡ false
    and_false true = refl
    and_false false = refl

-- The timers of a set without `a`, whatever `a` holds now.
pub Without-put :
    (m : TimerManager) (a : ℕ) (cs : List ℕ) (u : Timer) (c : ℕ)
    → IsValid m
    → Without a m.set_of cs
    → (c == a) ≡ false
    → elem c cs ≡ not (null_cb (put a u m.timers c).cb)
unfolding put
Without-put m a cs u c v w h = rw (put, h) (w c ∙ rw h (and_true (elem c m.set_of) ∙ v.armed c))

pub put_self : (a : ℕ) (u : Timer) (ts : Store) → put a u ts a ≡ u
unfolding put
put_self a u ts = rw (eq_self a) refl

-- `a` has left the set, and has no callback now.
pub removed-IsValid :
    (m : TimerManager) (a : ℕ) (cs : List ℕ) (u : Timer)
    → IsValid m
    → Sorted m.timers cs
    → Without a m.set_of cs
    → null_cb u.cb ≡ true
    → IsValid (record m { timers = put a u m.timers; set_of = cs })
removed-IsValid m a cs u v so w h = record {
  sorted = Sorted-put m.timers a u cs (not_elem-Fresh a cs (Without-self a m.set_of cs w)) so;
  armed = λ c. elim (Bool-cases (c == a)) [
    | inl e ↦
        let same : c ≡ a = (==_iff c a).0 e in
        subst (λ d. elem d cs ≡ not (null_cb (put a u m.timers d).cb)) (sym same)
          (Without-self a m.set_of cs w ∙ rw (put_self a u m.timers, h) refl)
    | inr e ↦ Without-put m a cs u c v w e
  ];
}

-- `a` has left the set, and comes back with what it holds now, a callback among it.
pub placed-IsValid :
    (m : TimerManager) (a : ℕ) (cs : List ℕ) (u : Timer) (tickled : Bool)
    → IsValid m
    → Sorted m.timers cs
    → Without a m.set_of cs
    → null_cb u.cb ≡ false
    → IsValid (record m {
      timers = put a u m.timers;
      set_of = insert (put a u m.timers) a cs;
      tickled = tickled;
    })
placed-IsValid m a cs u tickled v so w h =
    let ts = put a u m.timers in
    record {
      sorted =
          insert-Sorted ts a cs
            (Sorted-put m.timers a u cs (not_elem-Fresh a cs (Without-self a m.set_of cs w)) so);
      armed = λ c. elem-insert ts a cs c ∙ elim (Bool-cases (c == a)) [
        | inl e ↦ let same : c ≡ a = (==_iff c a).0 e in rw (e, same, put_self a u m.timers, h) refl
        | inr e ↦ rw e (Without-put m a cs u c v w e)
      ];
    }
