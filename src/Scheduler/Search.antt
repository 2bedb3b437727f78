-- ===== src/Scheduler/Search.antt =====
-- The search through the queue: first come, first served, among the entries that a thread can take.
use exhy.Common.{
  ℕ, Bool, true, false, not, ◌&&◌, ◌||◌, ◌≡◌, refl, sym, subst, ap, ◌∙◌, inl, inr, List, [], ◌∷◌,
  ◌++◌, none, some, Bool-cases, All,
}
use exhy.Scheduler.{FiberAndThread, States, Scan, is_null, empty, elsewhere, running, passed, scan}

-- The entry has a callback or a fiber.
abbrev pub Filled : FiberAndThread → Type 0
Filled it = (is_null it.cb && is_null it.fiber) ≡ false

-- It waits for another thread, or its fiber is still running.
abbrev pub Unfit : ℕ → States → FiberAndThread → Type 0
Unfit me states it = (elsewhere me it || running states it) ≡ true

abbrev pub any_elsewhere : ℕ → List FiberAndThread → Bool
any_elsewhere me [] = false
any_elsewhere me (it ∷ its) = elsewhere me it || any_elsewhere me its

-- What the search finds: nothing, and then the queue stays as it is; or the first entry that is fit, which
-- leaves the queue, while all others keep their order. A tickle is due where an entry for another
-- thread was passed or entries stand behind the one that is taken.
pub data Found (me : ℕ) (states : States) : List FiberAndThread → Scan → Type 0 where
  nothing :
      (its : List FiberAndThread)
      → All (Unfit me states) its
      → Found me states its (record { picked = none; left = its; tickle_me = any_elsewhere me its })
  first :
      (skipped rest : List FiberAndThread) (it : FiberAndThread)
      → All (Unfit me states) skipped
      → (elsewhere me it || running states it) ≡ false
      → Filled it
      → Found me states (skipped ++ it ∷ rest) (record {
        picked = some it;
        left = skipped ++ rest;
        tickle_me = any_elsewhere me skipped || not (empty rest);
      })

or_assoc : (a b c : Bool) → (a || (b || c)) ≡ ((a || b) || c)
or_assoc true b c = refl
or_assoc false b c = refl

Found-passed :
    (me : ℕ) (states : States) (it : FiberAndThread) (its : List FiberAndThread) (r : Scan)
    (b : Bool)
    → elsewhere me it ≡ b
    → Unfit me states it
    → Found me states its r
    → Found me states (it ∷ its) (passed it b r)
unfolding passed
Found-passed me states it its _ b e u (nothing _ us) =
    subst
      (λ t.
        Found me states (it ∷ its)
          (record { picked = none; left = it ∷ its; tickle_me = t || any_elsewhere me its }))
      e (nothing (it ∷ its) (u, us))
Found-passed me states it _ _ b e u (first skipped rest x us f n) =
    subst
      (λ t.
        Found me states (it ∷ (skipped ++ x ∷ rest))
          (record { picked = some x; left = it ∷ (skipped ++ rest); tickle_me = t }))
      (ap (λ t. (t || any_elsewhere me skipped) || not (empty rest)) e
        ∙ sym (or_assoc b (any_elsewhere me skipped) (not (empty rest))))
      (first (it ∷ skipped) rest x (u, us) f n)

-- On a queue without empty entries no assertion fails. Where no entry is fit for the thread, the
-- search finds none and the queue stays; else it takes the first entry that is fit, and all others
-- keep their order. A tickle is due just where an entry for another thread was passed or entries
-- stand behind the one that is taken.
pub scan_lem :
    (me : ℕ) (states : States) (its : List FiberAndThread)
    → All Filled its
    → (r : Scan) × (scan me states its ≡ some r) × Found me states its r
unfolding scan
scan_lem me states [] fs = (_, refl, nothing [] tt)
scan_lem me states (it ∷ its) (f, fs) =
    let (r, e, found) = scan_lem me states its fs in
    elim (Bool-cases (elsewhere me it)) [
      | inl h ↦ (
        passed it true r,
        rw (h, e) refl,
        Found-passed me states it its r true h (rw h refl) found,
      )
      | inr h ↦ elim (Bool-cases (running states it)) [
        | inl k ↦ (
          passed it false r,
          rw (h, f, k, e) refl,
          Found-passed me states it its r false h (rw (h, k) refl) found,
        )
        | inr k ↦ (
          record { picked = some it; left = its; tickle_me = not (empty its) },
          rw (h, f, k) refl,
          first [] its it tt (rw (h, k) refl) f,
        )
      ]
    ]
