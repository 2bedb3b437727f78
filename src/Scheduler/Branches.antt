-- ===== src/Scheduler/Branches.antt =====
-- The branches of a round: each ends without a failed assertion, and lets m_activeThreadCount down by one.
use exhy.Common.{
  ℕ, ◌+◌, Bool, true, false, ◌&&◌, ◌≡◌, refl, ap, ◌∙◌, inl, inr, List, [], ◌∷◌, Option, none, some,
  if◌then◌else◌, arith, Bool-cases,
}
use exhy.Scheduler.{
  FiberAndThread, FiberState, init, exec, Scheduler, Worker, States, Resume, up, down, is_null,
  is_exec, is_term, with_idle, finished, is_ready, put, schedule_nolock, schedule_all, swap_in,
  with_active, held, requeue, run_fiber, cb_fiber_for, run_cb, run_idle,
}

abbrev pub active : Worker → ℕ
active w = w.scheduler.active_thread_count

-- Queueing entries changes only the queue.
nolock-active :
    (ft : FiberAndThread) (s : Scheduler)
    → (schedule_nolock ft s).1.active_thread_count ≡ s.active_thread_count
unfolding schedule_nolock
nolock-active ft s = elim (Bool-cases (is_null ft.cb && is_null ft.fiber)) [
  | inl h ↦ rw h refl
  | inr h ↦ rw h refl
]

all-active :
    (fts : List FiberAndThread) (s : Scheduler)
    → (schedule_all fts s).1.active_thread_count ≡ s.active_thread_count
unfolding schedule_all
all-active [] s = refl
all-active (ft ∷ fts) s = all-active fts (schedule_nolock ft s).1 ∙ nolock-active ft s

-- A fiber that is not EXEC can be swapped in.
swap_in_lem :
    (resume : Resume) (f : ℕ) (w : Worker)
    → is_exec (w.states f) ≡ false
    → (v : Worker) × (swap_in resume f w ≡ some v) × (active v ≡ active w)
unfolding swap_in
swap_in_lem resume f w h =
    let r = resume f (put f exec w.states) in
    let v = record w { states = r.0; scheduler = (schedule_all r.1 w.scheduler).1 } in
    (v, rw h refl, all-active r.1 w.scheduler)

-- How run leaves a fiber behind.
settled : (f : ℕ) (v : Worker) → Worker
settled f v =
    if is_ready (v.states f) then requeue f v else if finished (v.states f) then v else held f v

settled-active : (f : ℕ) (v : Worker) → active (settled f v) ≡ active v
unfolding settled
settled-active f v = elim (Bool-cases (is_ready (v.states f))) [
  | inl h ↦ rw h (nolock-active _ v.scheduler)
  | inr h ↦ elim (Bool-cases (finished (v.states f))) [
    | inl k ↦ rw (h, k) refl
    | inr k ↦ rw (h, k) refl
  ]
]

pub run_fiber_lem :
    (resume : Resume) (f : ℕ) (w : Worker)
    → is_exec (w.states f) ≡ false
    → (v : Worker) × (run_fiber resume f w ≡ some v)
      × (active v ≡ (if finished (w.states f) then active w else down (active w)))
unfolding run_fiber settled
run_fiber_lem resume f w h = elim (Bool-cases (finished (w.states f))) [
  | inl k ↦ (w, rw k refl, rw k refl)
  | inr k ↦
      let (v, e, same) = swap_in_lem resume f w h in
      (
        settled f (with_active down v),
        rw (k, e) refl,
        rw k (settled-active f (with_active down v) ∙ ap down same),
      )
]

-- The states in which Fiber::reset takes a cb_fiber that is kept.
abbrev pub Reusable : Worker → Type 0
Reusable w = elim w.cb_fiber [ none ↦ Unit | some f ↦ (w.states f ≡ init) ]

put_self : (f : ℕ) (st : FiberState) (states : States) → put f st states f ≡ st
unfolding put
put_self f st states = ground arith

cb_fiber_for_lem :
    (w : Worker)
    → Reusable w
    → (f : ℕ) × (v : Worker) × (cb_fiber_for w ≡ some (f, v))
      × (v.states f ≡ init)
      × (active v ≡ active w)
unfolding cb_fiber_for
cb_fiber_for_lem w k = go w.cb_fiber refl k
  where
    go :
        (o : Option ℕ)
        → w.cb_fiber ≡ o
        → (elim o as (λ x. Type 0) [ none ↦ Unit | some f ↦ w.states f ≡ init ])
        → (f : ℕ) × (v : Worker) × (cb_fiber_for w ≡ some (f, v))
          × (v.states f ≡ init)
          × (active v ≡ active w)
    go none e k = (
      w.next_fiber,
      (record w {
        states = put w.next_fiber init w.states;
        cb_fiber = some w.next_fiber;
        next_fiber = w.next_fiber + 1;
      }),
      rw e refl,
      put_self w.next_fiber init w.states,
      refl,
    )
    go (some f) e k = (f, w, rw (e, k) refl, k, refl)

pub run_cb_lem :
    (resume : Resume) (w : Worker)
    → Reusable w
    → (v : Worker) × (run_cb resume w ≡ some v) × (active v ≡ down (active w))
unfolding run_cb is_exec
run_cb_lem resume w k =
    let (f, w1, e, i, same) = cb_fiber_for_lem w k in
    let (v, e1, same1) = swap_in_lem resume f w1 (rw i refl) in
    let v1 = with_active down v in
    let total : active v1 ≡ down (active w) = ap down (same1 ∙ same) in
    elim (Bool-cases (is_ready (v.states f))) [
      | inl h ↦ (
        record (requeue f v1) { cb_fiber = none },
        rw (e, e1, h) refl,
        nolock-active _ v1.scheduler ∙ total,
      )
      | inr h ↦ elim (Bool-cases (finished (v.states f))) [
        | inl j ↦ (record v1 { states = put f init v1.states }, rw (e, e1, h, j) refl, total)
        | inr j ↦ (record (held f v1) { cb_fiber = none }, rw (e, e1, h, j) refl, total)
      ]
    ]

pub idle_awake :
    (resume : Resume) (w : Worker)
    → is_exec (w.states w.idle_fiber) ≡ false
    → (go : Bool) × (v : Worker) × (run_idle resume w ≡ some (go, v)) × (active v ≡ active w)
unfolding run_idle
idle_awake resume w h = elim (Bool-cases (is_term (w.states w.idle_fiber))) [
  | inl k ↦ (false, w, rw k refl, refl)
  | inr k ↦
      let (v, e, same) = swap_in_lem resume w.idle_fiber (with_idle up w) h in
      let v1 = with_idle down v in
      elim (Bool-cases (finished (v.states w.idle_fiber))) [
        | inl j ↦ (true, v1, rw (k, e, j) refl, same)
        | inr j ↦ (true, held w.idle_fiber v1, rw (k, e, j) refl, same)
      ]
]
