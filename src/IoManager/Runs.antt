-- ===== src/IoManager/Runs.antt =====
-- Runs of the IO manager's theorems on concrete managers.
use exhy.Common.{
  ◌≤◌, bit_and, true, false, ◌≡◌, refl, ◌⊎◌, [], ◌∷◌, none, some, ◌==◌, arith, get_elem?,
}
use exhy.IoManager.{
  Ctl, read_event, write_event, FdContext, IoManager, Caller, run_fiber, run_cb, clear_bits, widen,
  new_context, new_iomanager, add_event, grown_for, del_event, cancel_event, cancel_all,
  handle_event, leave,
}
use exhy.IoManager.Slots.{Registered, mask, has, holding, Shape, new_context-Shape}
use exhy.IoManager.Invariant.{IsValid, new_iomanager-IsValid}
use exhy.IoManager.Events.{Unregistered, Answers, Gone, Triggered, del_event_lem, cancel_event_lem}
use exhy.IoManager.Drain.{Drained}
use exhy.IoManager.Dispatch.{ready, cancel_all_lem, handle_event_lem}
use exhy.IoManager.Stale.{handle_event_stale}
use exhy.IoManager.Board.{board, Stays}
use exhy.IoManager.Refinement.{run, handling, Idle, Answer, Move, run-Move}
use exhy.IoManager.Adding.{Asks, Added, add_event_lem}

abbrev accepts : Ctl
accepts op fd events = true

-- A descriptor on which a fiber waits to read and a callback to write.
abbrev busy : FdContext
busy = record { read = holding 9 (run_fiber 3); write = holding 9 (run_cb 4); fd = 1; events = 5 }

busy-Shape : Shape (true, true) busy
busy-Shape = record {
  events_is = refl;
  reads = (9, run_fiber 3, refl);
  writes = (9, run_cb 4, refl);
}

-- One on which a fiber waits to read.
abbrev reading : FdContext
reading = record {
  read = holding 9 (run_fiber 5);
  write = (new_context 2).write;
  fd = 2;
  events = 1;
}

reading-Shape : Shape (true, false) reading
reading-Shape = record { events_is = refl; reads = (9, run_fiber 5, refl); writes = refl }

abbrev manager : IoManager
manager = record {
  fd_contexts = new_context 0 ∷ busy ∷ reading ∷ [];
  pending_event_count = 3;
  scheduled = [];
}

manager-IsValid : IsValid manager
manager-IsValid = record {
  shaped = (
    ((false, false), new_context-Shape 0),
    refl,
    (((true, true), busy-Shape), refl, (((true, false), reading-Shape), refl, tt)),
  );
  counted = refl;
  room = omega arith;
}

abbrev caller : Caller
caller = record { scheduler = some 9; fiber = 6; is_exec = true }

add_event_lem_example :
    (c : FdContext) × (g : Registered) × (get_elem? (grown_for 40 new_iomanager).fd_contexts 40
      ≡ some c)
    × Shape g c
    × (((has read_event g ≡ true)
          × (add_event accepts caller new_iomanager 40 read_event none ≡ none))
        ⊎ ((has read_event g ≡ false)
            × Asks accepts 40 c read_event false
            × (add_event accepts caller new_iomanager 40 read_event none
                ≡ some (false, grown_for 40 new_iomanager))
            × IsValid (grown_for 40 new_iomanager))
        ⊎ ((has read_event g ≡ false)
            × Asks accepts 40 c read_event true
            × ((n : IoManager) × (add_event accepts caller new_iomanager 40 read_event none
                  ≡ some (true, n))
                × Added caller 9 new_iomanager 40 read_event none g c n)))
add_event_lem_example =
    add_event_lem accepts caller 9 new_iomanager 40 read_event none new_iomanager-IsValid.0
      (omega (arith, new_iomanager-IsValid.1)) (omega (arith, new_iomanager-IsValid.1))
      (omega arith) refl refl

del_event_lem_example :
    ((del_event accepts manager 1 read_event ≡ some (false, manager))
      × (Unregistered manager 1 read_event ⊎ Answers accepts manager 1 read_event false))
    ⊎ ((n : IoManager) × (del_event accepts manager 1 read_event ≡ some (true, n))
        × Answers accepts manager 1 read_event true
        × ((c : FdContext) × Gone manager 1 read_event c [] n))
del_event_lem_example = del_event_lem accepts manager 1 read_event manager-IsValid (omega arith)

cancel_event_lem_example :
    ((cancel_event accepts manager 1 write_event ≡ some (false, manager))
      × (Unregistered manager 1 write_event ⊎ Answers accepts manager 1 write_event false))
    ⊎ ((n : IoManager) × (cancel_event accepts manager 1 write_event ≡ some (true, n))
        × Answers accepts manager 1 write_event true
        × Triggered manager 1 write_event n)
cancel_event_lem_example =
    cancel_event_lem accepts manager 1 write_event manager-IsValid (omega arith)

cancel_all_lem_example :
    ((cancel_all accepts manager 1 ≡ some (false, manager))
      × ((3 ≤ 1)
          ⊎ ((c : FdContext) × (get_elem? manager.fd_contexts 1 ≡ some c)
              × (((c.events == 0) ≡ true) ⊎ (true ≡ false)))))
    ⊎ ((n : IoManager) × (c : FdContext) × (g : Registered) × (cancel_all accepts manager 1
          ≡ some (true, n))
        × (get_elem? manager.fd_contexts 1 ≡ some c)
        × Shape g c
        × (true ≡ true)
        × Drained manager 1 c g g n)
cancel_all_lem_example = cancel_all_lem accepts manager 1 manager-IsValid (omega arith)

handle_event_lem_example :
    ((handle_event accepts manager 1 1 ≡ some manager)
      × (((bit_and (mask (true, true)) (mask (ready 1 5)) == 0) ≡ true)
          ⊎ (leave accepts 1 (clear_bits (mask (true, true)) (mask (ready 1 5))) ≡ false)))
    ⊎ ((n : IoManager) × (handle_event accepts manager 1 1 ≡ some n)
        × ((bit_and (mask (true, true)) (mask (ready 1 5)) == 0) ≡ false)
        × (leave accepts 1 (clear_bits (mask (true, true)) (mask (ready 1 5))) ≡ true)
        × Drained manager 1 busy (true, true) (ready 1 5) n)
handle_event_lem_example =
    handle_event_lem accepts manager 1 1 busy (true, true) manager-IsValid refl busy-Shape
      ((λ p. refl), (λ p. refl))

handle_event_stale_example : handle_event accepts manager 2 5 ≡ none
unfolding widen
handle_event_stale_example =
    handle_event_stale accepts manager 2 5 reading true manager-IsValid refl reading-Shape refl refl

run-Move_example :
    (n : IoManager) × (run accepts (handling 1 1) manager ≡ some n)
    × IsValid n
    × ((Stays (board manager) (board n)
          × (Idle (handling 1 1) manager ⊎ Answer accepts (handling 1 1) manager false))
        ⊎ (Answer accepts (handling 1 1) manager true
            × Move (handling 1 1) manager (board manager) (board n)))
run-Move_example =
    run-Move accepts (handling 1 1) manager manager-IsValid (omega arith)
      (busy, (true, true), refl, busy-Shape, ((λ p. refl), (λ p. refl)))
