-- ===== src/Scheduler/Rounds.antt =====
-- One round of a worker: it ends without a failed assertion, and what it does to m_activeThreadCount.
use exhy.Common.{
  ℕ, ◌+◌, ◌<◌, Bool, true, false, ◌&&◌, ◌||◌, ◌≡◌, refl, sym, subst, ◌∙◌, inl, inr, List, Option,
  none, some, if◌then◌else◌, arith, Option-cases, All,
}
use exhy.Scheduler.{
  FiberAndThread, Scan, Worker, States, Resume, size_mod, up, down, is_null, is_exec, finished,
  elsewhere, running, with_active, run_picked, scan, act, round,
}
use exhy.Scheduler.Search.{Filled, Found, nothing, first, scan_lem}
use exhy.Scheduler.Branches.{active, Reusable, run_fiber_lem, run_cb_lem, idle_awake}

-- Is what the search picked a fiber that is done?
abbrev pub picks_finished : States → Option FiberAndThread → Bool
picks_finished states none = false
picks_finished states (some ft) = elim ft.fiber [ none ↦ false | some f ↦ finished (states f) ]

down-up : (n : ℕ) → n + 1 < size_mod → down (up n) ≡ n
down-up n h = omega arith

up_lem : (n : ℕ) → n + 1 < size_mod → up n ≡ n + 1
up_lem n h = omega arith

or_right : (a b : Bool) → (a || b) ≡ false → b ≡ false
or_right true b h = cc
or_right false b h = h

running_of :
    (states : States) (ft : FiberAndThread) (f : ℕ)
    → ft.fiber ≡ some f
    → running states ft ≡ is_exec (states f)
unfolding running
running_of states ft f e = rw e refl

nothing_in :
    (ft : FiberAndThread)
    → ft.fiber ≡ none
    → ft.cb ≡ none
    → (is_null ft.cb && is_null ft.fiber) ≡ true
nothing_in ft e z = rw (e, z) refl

-- The branch of run for what was picked.
picked_lem :
    (resume : Resume) (me : ℕ) (ft : FiberAndThread) (w : Worker)
    → Reusable w
    → Filled ft
    → (elsewhere me ft || running w.states ft) ≡ false
    → (v : Worker) × (run_picked resume ft w ≡ some v)
      × (active v ≡ (if picks_finished w.states (some ft) then active w else down (active w)))
unfolding run_picked
picked_lem resume me ft w k n fit = elim (Option-cases ft.fiber) [
  | inr (f, e) ↦
      let r =
        run_fiber_lem resume f w (
          sym (running_of w.states ft f e)
          ∙ or_right (elsewhere me ft) (running w.states ft) fit) in
      (r.0, rw (e, r.1) refl, rw e r.2)
  | inl e ↦ elim (Option-cases ft.cb) [
    | inl z ↦ let full = nothing_in ft e z in cc
    | inr (c, z) ↦ let r = run_cb_lem resume w k in (r.0, rw (e, z, r.1) refl, rw e r.2)
  ]
]

picked_fit :
    {me : ℕ} {states : States} {its : List FiberAndThread} {r : Scan} {ft : FiberAndThread}
    → Found me states its r
    → r.picked ≡ some ft
    → Filled ft × ((elsewhere me ft || running states ft) ≡ false)
picked_fit (nothing its us) z = cc
picked_fit {me} {states} {ft = ft} (first skipped rest it us fit n) z =
    let same : it ≡ ft = cc in
    subst (λ x. Filled x × ((elsewhere me x || running states x) ≡ false)) same (n, fit)

counted :
    (b : Bool) (n : ℕ)
    → n + 1 < size_mod
    → (if b then up n else down (up n)) ≡ (if b then n + 1 else n)
counted true n h = up_lem n h
counted false n h = down-up n h

act_lem :
    (resume : Resume) (me : ℕ) (w : Worker) (r : Scan)
    → Found me w.states w.scheduler.fibers r
    → is_exec (w.states w.idle_fiber) ≡ false
    → Reusable w
    → active w + 1 < size_mod
    → (go : Bool) × (v : Worker) × (act resume r w ≡ some (r.tickle_me, go, v))
      × (active v ≡ (if picks_finished w.states r.picked then active w + 1 else active w))
unfolding act
act_lem resume me w r found idle k small =
    let taken = record w { scheduler = record w.scheduler { fibers = r.left } } in
    elim (Option-cases r.picked) [
      | inl z ↦
          let (go, v, e1, same) = idle_awake resume taken idle in
          (go, v, rw (z, e1) refl, rw z same)
      | inr (ft, z) ↦
          let (n, fit) = picked_fit found z in
          let (v, e1, count) = picked_lem resume me ft (with_active up taken) k n fit in
          (
            true,
            v,
            rw (z, e1) refl,
            rw z (count ∙ counted (picks_finished w.states (some ft)) (active w) small),
          )
    ]

-- A round in which the queue has no empty entry, the idle fiber is not EXEC, a kept cb_fiber is INIT
-- and m_activeThreadCount can be raised meets no failed assertion. It leaves m_activeThreadCount as
-- it was, with one exception: where a fiber is taken from the queue that is TERM or EXCEP already,
-- the count is one too high afterwards.
pub round_lem :
    (resume : Resume) (me : ℕ) (w : Worker)
    → All Filled w.scheduler.fibers
    → is_exec (w.states w.idle_fiber) ≡ false
    → Reusable w
    → w.scheduler.active_thread_count + 1 < size_mod
    → (r : Scan) × (tickle : Bool) × (go : Bool) × (v : Worker) × (scan me w.states
          w.scheduler.fibers
        ≡ some r)
      × (round resume me w ≡ some (tickle, go, v))
      × (v.scheduler.active_thread_count ≡ (
          if picks_finished w.states r.picked
          then w.scheduler.active_thread_count + 1
          else w.scheduler.active_thread_count))
unfolding round
round_lem resume me w fs idle k small =
    let (r, e, found) = scan_lem me w.states w.scheduler.fibers fs in
    let (go, v, done, count) = act_lem resume me w r found idle k small in
    (r, r.tickle_me, go, v, e, rw e done, count)
