-- ===== src/Timers/Firing.antt =====
-- The loop of listExpiredCb keeps the set in order, and in it just the timers with a callback.
use exhy.Common.{
  ℕ, Bool, true, false, not, ◌||◌, ◌≡◌, refl, sym, ap, subst, ◌∙◌, inl, inr, List, [], ◌∷◌, ◌++◌,
  ◌==◌, ==_iff, Bool-cases, All,
}
use exhy.Timers.{Timer, TimerManager, Store, put, insert, null_cb, fire}
use exhy.Timers.Order.{Sorted, elem, Fresh, Sorted-put, insert-Sorted, elem-insert, eq_self}
use exhy.Timers.Expiry.{Distinct, Sorted-Distinct, Distinct-take}
use exhy.Timers.Invariant.{IsValid, put_self, not_elem-Fresh, Fresh-not_elem}

-- The loop of listExpiredCb: the timers still to be fired, and those in the set, have a callback.
pub record Firing (xs : List ℕ) (ts : Store) (set_of : List ℕ) : Type 0 where
  pub sorted : Sorted ts set_of
  pub armed : (c : ℕ) → (elem c xs || elem c set_of) ≡ not (null_cb (ts c).cb)
  pub distinct : Distinct xs
  pub apart : All (λ x. elem x set_of ≡ false) xs

pub put_other : (a : ℕ) (u : Timer) (ts : Store) (c : ℕ) → (c == a) ≡ false → put a u ts c ≡ ts c
unfolding put
put_other a u ts c h = rw h refl

pub or_true : (b : Bool) → (b || true) ≡ true
or_true true = refl
or_true false = refl

module _ (a : ℕ) (xs : List ℕ) (ts : Store) (set_of : List ℕ) (v : Firing (a ∷ xs) ts set_of)
    (u : Timer) where
  others_armed :
      (c : ℕ) → (c == a) ≡ false → (elem c xs || elem c set_of) ≡ not (null_cb (put a u ts c).cb)
  others_armed c h =
      rw (put_other a u ts c h) (ap (λ b. (b || elem c xs) || elem c set_of) (sym h) ∙ v.armed c)

  put_one-Sorted : Sorted (put a u ts) set_of
  put_one-Sorted = Sorted-put ts a u set_of (not_elem-Fresh a set_of v.apart.0) v.sorted

  over-Firing : null_cb u.cb ≡ true → Firing xs (put a u ts) set_of
  over-Firing h = record {
    sorted = put_one-Sorted;
    armed = λ c. elim (Bool-cases (c == a)) [
      | inl e ↦
          let same : c ≡ a = (==_iff c a).0 e in
          rw (same, Fresh-not_elem a xs v.distinct.0, v.apart.0, put_self a u ts, h) refl
      | inr e ↦ others_armed c e
    ];
    distinct = v.distinct.1;
    apart = v.apart.1;
  }

  again-Firing : null_cb u.cb ≡ false → Firing xs (put a u ts) (insert (put a u ts) a set_of)
  again-Firing h = record {
    sorted = insert-Sorted (put a u ts) a set_of put_one-Sorted;
    armed = λ c. elim (Bool-cases (c == a)) [
      | inl e ↦
          let same : c ≡ a = (==_iff c a).0 e in
          rw (elem-insert (put a u ts) a set_of c, e, same, put_self a u ts, h)
            (or_true (elem a xs))
      | inr e ↦ rw (elem-insert (put a u ts) a set_of c, e) (others_armed c e)
    ];
    distinct = v.distinct.1;
    apart = still xs v.distinct.0 v.apart.1;
  }
    where
      still :
          (ys : List ℕ)
          → Fresh a ys
          → All (λ x. elem x set_of ≡ false) ys
          → All (λ x. elem x (insert (put a u ts) a set_of) ≡ false) ys
      still [] f p = tt
      still (y ∷ ys) (f, fs) (p, ps) =
          (elem-insert (put a u ts) a set_of y ∙ rw f p, still ys fs ps)

pub not-true : (b : Bool) → not b ≡ true → b ≡ false
not-true true h = sym h
not-true false h = refl

pub fired :
    (now : ℕ) (xs : List ℕ) (ts : Store) (set_of : List ℕ)
    → Firing xs ts set_of
    → Firing [] (fire now xs ts set_of).1 (fire now xs ts set_of).2
unfolding fire null_cb
fired now [] ts set_of v = v
fired now (a ∷ xs) ts set_of v = elim (Bool-cases (ts a).recurring) [
  | inl k ↦ rw k (
      fired now xs _ _
        (again-Firing a xs ts set_of v _ (not-true _ (sym (v.armed a) ∙ rw (eq_self a) refl))))
  | inr k ↦ rw k (fired now xs _ _ (over-Firing a xs ts set_of v _ refl))
]

pub Sorted-drop : (ts : Store) (xs ys : List ℕ) → Sorted ts (xs ++ ys) → Sorted ts ys
Sorted-drop ts [] ys h = h
Sorted-drop ts (x ∷ xs) ys h = Sorted-drop ts xs ys h.1

pub or_assoc : (p q r : Bool) → (p || (q || r)) ≡ ((p || q) || r)
or_assoc true q r = refl
or_assoc false q r = refl

pub elem-append : (c : ℕ) (xs ys : List ℕ) → elem c (xs ++ ys) ≡ (elem c xs || elem c ys)
elem-append c [] ys = refl
elem-append c (x ∷ xs) ys =
    ap (λ r. (c == x) || r) (elem-append c xs ys) ∙ or_assoc (c == x) (elem c xs) (elem c ys)

pub Fresh-drop : (x : ℕ) (xs ys : List ℕ) → Fresh x (xs ++ ys) → Fresh x ys
Fresh-drop x [] ys h = h
Fresh-drop x (y ∷ xs) ys h = Fresh-drop x xs ys h.1

pub Distinct-apart : (xs ys : List ℕ) → Distinct (xs ++ ys) → All (λ x. elem x ys ≡ false) xs
Distinct-apart [] ys h = tt
Distinct-apart (x ∷ xs) ys (h, hs) =
    (Fresh-not_elem x ys (Fresh-drop x xs ys h), Distinct-apart xs ys hs)

-- The first part of the set is about to fire.
pub Firing-start :
    (m : TimerManager) (xs ys : List ℕ) → IsValid m → m.set_of ≡ xs ++ ys → Firing xs m.timers ys
Firing-start m xs ys v e =
    let so : Sorted m.timers (xs ++ ys) = subst (Sorted m.timers) e v.sorted in
    let di = Sorted-Distinct m.timers (xs ++ ys) so in
    record {
      sorted = Sorted-drop m.timers xs ys so;
      armed = λ c. sym (elem-append c xs ys) ∙ ap (elem c) (sym e) ∙ v.armed c;
      distinct = Distinct-take xs ys di;
      apart = Distinct-apart xs ys di;
    }
