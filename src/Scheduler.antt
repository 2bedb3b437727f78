-- ===== src/Scheduler.antt =====
-- exhy/exhy_scheduler.h and exhy/exhy_scheduler.cpp: the queue of fibers and callbacks, and one round of
-- a worker thread's loop. The states are those of exhy/exhy_fiber.h.
--
-- A fiber or a callback is known by a number. What a fiber does between swapIn and its return to the
-- scheduler is the user's code: `Resume` takes the fiber and the states of all fibers, and gives the states
-- afterwards and the entries that were scheduled meanwhile. The result `none` is an EXHY_ASSERT that
-- fails.
pub mod Search
mod Runs
pub mod Branches
pub mod Rounds
pub use exhy.Common.{size_mod, up, down}
use exhy.Common.{
  ℕ, ◌+◌, ◌-◌, ◌%◌, ◌^◌, Bool, true, false, not, ◌&&◌, ◌||◌, List, [], ◌∷◌, ◌++◌, Option, none,
  some, ◌>>=◌, if◌then◌else◌, ◌==◌,
}

pub data FiberState : Type 0 where
  init hold exec term ready excep : FiberState

-- FiberAndThread; the thread -1 is `none`.
pub record FiberAndThread : Type 0 where
  pub fiber : Option ℕ
  pub cb : Option ℕ
  pub thread : Option ℕ

pub record Scheduler : Type 0 where
  pub fibers : List FiberAndThread
  pub active_thread_count : ℕ
  pub idle_thread_count : ℕ
  pub stopping_flag : Bool
  pub auto_stop : Bool

abbrev pub States : Type 0
States = ℕ → FiberState

pub put : ℕ → FiberState → States → States
put f st states g = if g == f then st else states g

abbrev pub is_null : {A : Type 0} → Option A → Bool
is_null none = true
is_null (some a) = false

pub empty : List FiberAndThread → Bool
empty [] = true
empty (x ∷ xs) = false

-- The entry is queued unless it is empty; the Boolean says whether a tickle is due.
pub schedule_nolock : FiberAndThread → Scheduler → Bool × Scheduler
schedule_nolock ft s = (
  empty s.fibers,
  if is_null ft.cb && is_null ft.fiber then s else record s { fibers = s.fibers ++ ft ∷ [] },
)

-- schedule(begin, end).
pub schedule_all : List FiberAndThread → Scheduler → Bool × Scheduler
schedule_all [] s = (false, s)
schedule_all (ft ∷ fts) s =
    let one = schedule_nolock ft s in let rest = schedule_all fts one.1 in (one.0 || rest.0, rest.1)

pub record Scan : Type 0 where
  pub picked : Option FiberAndThread
  pub left : List FiberAndThread
  pub tickle_me : Bool

-- it->thread != -1 && it->thread != GetThreadId()
pub elsewhere : ℕ → FiberAndThread → Bool
elsewhere me it = elim it.thread [ none ↦ false | some t ↦ not (t == me) ]

pub is_exec : FiberState → Bool
is_exec exec = true
is_exec st = false

-- it->fiber && it->fiber->getState() == Fiber::EXEC
pub running : States → FiberAndThread → Bool
running states it = elim it.fiber [ none ↦ false | some f ↦ is_exec (states f) ]

pub passed : FiberAndThread → Bool → Scan → Scan
passed it tickle r = record {
  picked = r.picked;
  left = it ∷ r.left;
  tickle_me = tickle || r.tickle_me;
}

-- The search of run through m_fibers for what the thread `me` can take.
pub scan : ℕ → States → List FiberAndThread → Option Scan
scan me states [] = some (record { picked = none; left = []; tickle_me = false })
scan me states (it ∷ rest) =
    let further = scan me states rest in
    if elsewhere me it
    then (further >>= λ r. some (passed it true r))
    else (if is_null it.cb && is_null it.fiber
        then none
        else (if running states it
            then (further >>= λ r. some (passed it false r))
            else some (record { picked = some it; left = rest; tickle_me = not (empty rest) })))

pub finished : FiberState → Bool
finished term = true
finished excep = true
finished st = false

pub is_ready : FiberState → Bool
is_ready ready = true
is_ready st = false

abbrev pub Resume : Type 0
Resume = ℕ → States → States × List FiberAndThread

-- One worker's view: the scheduler, the states, its cb_fiber, its idle fiber, and the number that the
-- next new fiber has.
pub record Worker : Type 0 where
  pub scheduler : Scheduler
  pub states : States
  pub cb_fiber : Option ℕ
  pub idle_fiber : ℕ
  pub next_fiber : ℕ

abbrev pub of_fiber : ℕ → FiberAndThread
of_fiber f = record { fiber = some f; cb = none; thread = none }

-- swapIn: the fiber runs until it gives control back.
pub swap_in : Resume → ℕ → Worker → Option Worker
swap_in resume f w =
    let r = resume f (put f exec w.states) in
    if is_exec (w.states f)
    then none
    else some (record w { states = r.0; scheduler = (schedule_all r.1 w.scheduler).1 })

abbrev pub with_active : (ℕ → ℕ) → Worker → Worker
with_active g w = record w {
  scheduler = record w.scheduler { active_thread_count = g w.scheduler.active_thread_count };
}

abbrev pub held : ℕ → Worker → Worker
held f w = record w { states = put f hold w.states }

abbrev pub requeue : ℕ → Worker → Worker
requeue f w = record w { scheduler = (schedule_nolock (of_fiber f) w.scheduler).1 }

-- The branch of run for a fiber.
pub run_fiber : Resume → ℕ → Worker → Option Worker
run_fiber resume f w =
    if finished (w.states f)
    then some w
    else (swap_in resume f w >>= λ v.
        let v1 = with_active down v in
        let st = v1.states f in
        some (if is_ready st then requeue f v1 else if finished st then v1 else held f v1))

-- cb_fiber->reset(ft.cb), or a new Fiber(ft.cb): the fiber and its state INIT. Fiber::reset asserts that
-- the fiber is INIT or done.
pub cb_fiber_for : Worker → Option (ℕ × Worker)
cb_fiber_for w = elim w.cb_fiber [
  | none ↦ some (
    w.next_fiber,
    record w {
      states = put w.next_fiber init w.states;
      cb_fiber = some w.next_fiber;
      next_fiber = w.next_fiber + 1;
    },
  )
  | some f ↦ elim (w.states f) [
    | init ↦ some (f, w)
    | term ↦ some (f, record w { states = put f init w.states })
    | excep ↦ some (f, record w { states = put f init w.states })
    | _ ↦ none
  ]
]

-- The branch of run for a callback.
pub run_cb : Resume → Worker → Option Worker
run_cb resume w = cb_fiber_for w >>= λ p.
    let f = p.0 in
    swap_in resume f p.1 >>= λ v.
    let v1 = with_active down v in
    let st = v1.states f in
    some (
      if is_ready st
      then record (requeue f v1) { cb_fiber = none }
      else if finished st
      then record v1 { states = put f init v1.states }
      else record (held f v1) { cb_fiber = none })

pub is_term : FiberState → Bool
is_term term = true
is_term st = false

abbrev pub with_idle : (ℕ → ℕ) → Worker → Worker
with_idle g w = record w {
  scheduler = record w.scheduler { idle_thread_count = g w.scheduler.idle_thread_count };
}

-- The branch of run for a thread that finds nothing: false is the loop's exit.
pub run_idle : Resume → Worker → Option (Bool × Worker)
run_idle resume w =
    let f = w.idle_fiber in
    if is_term (w.states f)
    then some (false, w)
    else (swap_in resume f (with_idle up w) >>= λ v.
        let v1 = with_idle down v in some (true, if finished (v1.states f) then v1 else held f v1))

-- What is picked is run.
pub run_picked : Resume → FiberAndThread → Worker → Option Worker
run_picked resume ft w = elim ft.fiber [
  | some f ↦ run_fiber resume f w
  | none ↦ elim ft.cb [ some k ↦ run_cb resume w | none ↦ some (with_active down w) ]
]

-- The part of a round below the search.
pub act : Resume → Scan → Worker → Option (Bool × Bool × Worker)
act resume r w =
    let taken = record w { scheduler = record w.scheduler { fibers = r.left } } in
    elim r.picked [
      | some ft ↦ run_picked resume ft (with_active up taken) >>= λ v. some (r.tickle_me, true, v)
      | none ↦ run_idle resume taken >>= λ v. some (r.tickle_me, v.0, v.1)
    ]

-- One round of the loop of run; the first Boolean says whether it calls tickle, the second whether the
-- loop goes on.
pub round : Resume → ℕ → Worker → Option (Bool × Bool × Worker)
round resume me w = scan me w.states w.scheduler.fibers >>= λ r. act resume r w

pub stopping : Scheduler → Bool
stopping s = s.auto_stop && s.stopping_flag && empty s.fibers && (s.active_thread_count == 0)
