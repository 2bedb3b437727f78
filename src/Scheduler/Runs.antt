-- ===== src/Scheduler/Runs.antt =====
-- Runs of the scheduler's theorems on concrete queues.
use exhy.Common.{◌==◌, leb, Bool, false, ◌≡◌, refl, List, [], ◌∷◌, none, some, if◌then◌else◌, arith}
use exhy.Scheduler.{
  FiberAndThread, hold, exec, term, Scan, Worker, States, Resume, is_exec, scan, round,
}
use exhy.Scheduler.Search.{Found, scan_lem}
use exhy.Scheduler.Rounds.{picks_finished, round_lem}

-- Fiber 0 is the idle fiber, fiber 1 runs elsewhere, fiber 2 waits and all others are done.
abbrev states : States
states f = if f == 1 then exec else if leb f 2 then hold else term

abbrev queue : List FiberAndThread
queue =
    record { fiber = some 2; cb = none; thread = some 7 }
    ∷ record { fiber = some 1; cb = none; thread = none }
    ∷ record { fiber = none; cb = some 4; thread = none }
    ∷ []

abbrev worker : Worker
worker = record {
  scheduler = record {
    fibers = queue;
    active_thread_count = 0;
    idle_thread_count = 0;
    stopping_flag = false;
    auto_stop = false;
  };
  states = states;
  cb_fiber = none;
  idle_fiber = 0;
  next_fiber = 8;
}

-- Every fiber runs to its end at once.
abbrev ends : Resume
ends f s = (s, [])

scan_lem_example : (r : Scan) × (scan 5 states queue ≡ some r) × Found 5 states queue r
scan_lem_example = scan_lem 5 states queue (refl, (refl, (refl, tt)))

round_lem_example :
    (r : Scan) × (tickle : Bool) × (go : Bool) × (v : Worker) × (scan 5 states queue ≡ some r)
    × (round ends 5 worker ≡ some (tickle, go, v))
    × (v.scheduler.active_thread_count ≡ (if picks_finished states r.picked then 1 else 0))
unfolding is_exec
round_lem_example = round_lem ends 5 worker (refl, (refl, (refl, tt))) refl tt (omega arith)
