-- ===== src/IoManager.antt =====
-- exhy/exhy_iomanager.h and exhy/exhy_iomanager.cpp: the events that wait on file descriptors, and the
-- calls that add, delete, cancel and trigger them.
--
-- epoll_ctl and epoll_wait are not code of the repository: each operation takes `ctl`, which says
-- whether epoll_ctl with this operation, descriptor and event mask returns 0, and handle_event takes the
-- event mask that epoll_wait reported. A file descriptor is not negative, and the event of a call is
-- READ or WRITE. Fibers, callbacks and schedulers are known by a number. The result `none` is an
-- EXHY_ASSERT that fails, or a null scheduler that is followed.
pub mod Slots
mod Runs
pub mod Invariant
pub mod Events
pub mod Drain
pub mod Dispatch
pub mod Board
pub mod Waiting
pub mod Moves
pub mod Refinement
pub mod Stale
pub mod Adding
pub use exhy.Common.{◌<◌, int_le, size_mod, up, down}
use exhy.Common.{
  ℕ, zero, suc, ◌+◌, ◌-◌, ◌*◌, ◌/◌, ◌%◌, ◌^◌, bit_and, bit_or, bit_xor, Bool, true, false, List, [],
  ◌∷◌, ◌++◌, Option, none, some, ◌>>=◌, if◌then◌else◌, ltb, leb, ◌==◌, length, take, get_elem?, set,
}

-- The operations of epoll_ctl.
pub data CtlOp : Type 0 where
  ctl_add ctl_mod ctl_del : CtlOp

pub data Event : Type 0 where
  read_event write_event : Event

pub event_bits : Event → ℕ
event_bits read_event = 1
event_bits write_event = 4

abbrev pub epollet : ℕ
epollet = 2 ^ 31

-- What is handed to a scheduler.
pub data Task : Type 0 where
  run_fiber : ℕ → Task
  run_cb : ℕ → Task

pub record EventContext : Type 0 where
  pub scheduler : Option ℕ
  pub fiber : Option ℕ
  pub cb : Option ℕ

pub record FdContext : Type 0 where
  pub read : EventContext
  pub write : EventContext
  pub fd : ℕ
  pub events : ℕ

pub record IoManager : Type 0 where
  pub fd_contexts : List FdContext
  pub pending_event_count : ℕ
  -- The tasks that were handed over, each with its scheduler, the oldest first.
  pub scheduled : List (ℕ × Task)

-- What Scheduler::GetThis and Fiber::GetThis say where a call is made, and whether that fiber is EXEC.
pub record Caller : Type 0 where
  pub scheduler : Option ℕ
  pub fiber : ℕ
  pub is_exec : Bool

-- a & ~b on an int that is not negative.
abbrev pub clear_bits : ℕ → ℕ → ℕ
clear_bits a b = bit_and a (bit_xor b (2 ^ 32 - 1))

abbrev pub empty_context : EventContext
empty_context = record { scheduler = none; fiber = none; cb = none }

abbrev pub new_context : ℕ → FdContext
new_context fd = record { read = empty_context; write = empty_context; fd = fd; events = 0 }

abbrev pub get_context : Event → FdContext → EventContext
get_context read_event c = c.read
get_context write_event c = c.write

abbrev pub put_context : Event → EventContext → FdContext → FdContext
put_context read_event x c = record c { read = x }
put_context write_event x c = record c { write = x }

abbrev pub reset_context : EventContext → EventContext
reset_context x = empty_context

-- The context and the tasks that scheduling out of it leaves: schedule swaps the callback, or else
-- the fiber, out of the context, and queues nothing where both are null.
pub hand_over : ℕ → EventContext → EventContext × List Task
hand_over s x = elim x.cb [
  | some k ↦ (record x { scheduler = none; cb = none }, run_cb k ∷ [])
  | none ↦ (
    record x { scheduler = none; fiber = none },
    elim x.fiber [ some f ↦ run_fiber f ∷ [] | none ↦ [] ],
  )
]

pub for_scheduler : ℕ → List Task → List (ℕ × Task)
for_scheduler s [] = []
for_scheduler s (t ∷ ts) = (s, t) ∷ for_scheduler s ts

pub trigger_event : Event → FdContext → Option (FdContext × List (ℕ × Task))
trigger_event e c =
    if bit_and c.events (event_bits e) == 0
    then none
    else ((get_context e c).scheduler >>= λ s.
        let moved = hand_over s (get_context e c) in
        some (
          put_context e moved.0 (record c { events = clear_bits c.events (event_bits e) }),
          for_scheduler s moved.1,
        ))

pub new_contexts : ℕ → ℕ → List FdContext
new_contexts fd zero = []
new_contexts fd (suc k) = new_context fd ∷ new_contexts (fd + 1) k

pub context_resize : ℕ → IoManager → IoManager
context_resize size m = record m {
  fd_contexts =
      take size m.fd_contexts ++ new_contexts (length m.fd_contexts) (size - length m.fd_contexts);
}

-- The constructor's state: contextResize(32) on no contexts.
pub new_iomanager : IoManager
new_iomanager =
    context_resize 32 (record { fd_contexts = []; pending_event_count = 0; scheduled = [] })

-- Is the context free to be filled?
pub is_empty : EventContext → Bool
is_empty x = elim x.scheduler [
  | some s ↦ false
  | none ↦ elim x.fiber [ some f ↦ false | none ↦ elim x.cb [ some k ↦ false | none ↦ true ] ]
]

-- What addEvent puts into the context: the callback, or else the running fiber, which must be EXEC.
pub waiting : Caller → Option ℕ → Option EventContext
waiting at (some k) = some (record { scheduler = at.scheduler; fiber = none; cb = some k })
waiting at none =
    if at.is_exec
    then some (record { scheduler = at.scheduler; fiber = some at.fiber; cb = none })
    else none

-- m_fdContexts.size() fits an int.
abbrev pub FitsInt : IoManager → Type 0
FitsInt m = length m.fd_contexts < 2 ^ 31

abbrev pub Ctl : Type 0
Ctl = CtlOp → ℕ → ℕ → Bool

-- The contexts with room for `fd`.
pub grown_for : ℕ → IoManager → IoManager
grown_for fd m = if int_le (length m.fd_contexts) fd then context_resize (fd * 3 / 2) m else m

-- addEvent on the context of `fd`; the Boolean is true for 0 and false for -1.
pub add_to : Ctl → Caller → ℕ → FdContext → Event → Option ℕ → Option (Bool × FdContext)
add_to ctl at fd c e cb =
    let op = if c.events == 0 then ctl_add else ctl_mod in
    let filled = record c { events = bit_or c.events (event_bits e) } in
    if bit_and c.events (event_bits e) == 0
    then (if ctl op fd (bit_or (bit_or epollet c.events) (event_bits e))
        then (if is_empty (get_context e filled)
            then (waiting at cb >>= λ x. some (true, put_context e x filled))
            else none)
        else some (false, c))
    else none

pub add_event : Ctl → Caller → IoManager → ℕ → Event → Option ℕ → Option (Bool × IoManager)
add_event ctl at m fd e cb =
    let g = grown_for fd m in
    get_elem? g.fd_contexts fd >>= λ c. add_to ctl at fd c e cb >>= λ r. some (
      r.0,
      if r.0
          then record g {
            fd_contexts = set g.fd_contexts fd r.1;
            pending_event_count = up g.pending_event_count;
          }
          else g,
    )

-- epoll_ctl when `left` of the events stay: EPOLL_CTL_MOD, or EPOLL_CTL_DEL where none does.
abbrev pub leave : Ctl → ℕ → ℕ → Bool
leave ctl fd left = ctl (if left == 0 then ctl_del else ctl_mod) fd (bit_or epollet left)

pub del_event : Ctl → IoManager → ℕ → Event → Option (Bool × IoManager)
del_event ctl m fd e =
    let found = get_elem? m.fd_contexts fd >>= λ c.
    let left = clear_bits c.events (event_bits e) in
    if bit_and c.events (event_bits e) == 0
    then some (false, m)
    else (if leave ctl fd left
        then some (
          true,
          record m {
            fd_contexts =
                set m.fd_contexts fd
                  (put_context e (reset_context (get_context e c)) (record c { events = left }));
            pending_event_count = down m.pending_event_count;
          },
        )
        else some (false, m)) in
    if int_le (length m.fd_contexts) fd then some (false, m) else found

-- The context `c` at `fd` is replaced by what triggering left, and its tasks are queued.
abbrev pub triggered : IoManager → ℕ → FdContext × List (ℕ × Task) → IoManager
triggered m fd r = record m {
  fd_contexts = set m.fd_contexts fd r.0;
  pending_event_count = down m.pending_event_count;
  scheduled = m.scheduled ++ r.1;
}

pub cancel_event : Ctl → IoManager → ℕ → Event → Option (Bool × IoManager)
cancel_event ctl m fd e =
    let found = get_elem? m.fd_contexts fd >>= λ c.
    if bit_and c.events (event_bits e) == 0
    then some (false, m)
    else (if leave ctl fd (clear_bits c.events (event_bits e))
        then (trigger_event e c >>= λ r. some (true, triggered m fd r))
        else some (false, m)) in
    if int_le (length m.fd_contexts) fd then some (false, m) else found

-- `if(mask & event) { triggerEvent(event); --m_pendingEventCount; }` on the context of `fd`.
pub trigger_if : ℕ → Event → ℕ → IoManager → Option IoManager
trigger_if mask e fd m =
    if bit_and mask (event_bits e) == 0
    then some m
    else (get_elem? m.fd_contexts fd >>= λ c. trigger_event e c >>= λ r. some (triggered m fd r))

pub events_at : IoManager → ℕ → Option ℕ
events_at m fd = get_elem? m.fd_contexts fd >>= λ c. some c.events

pub cancel_all : Ctl → IoManager → ℕ → Option (Bool × IoManager)
cancel_all ctl m fd =
    let found = events_at m fd >>= λ events.
    if events == 0
    then some (false, m)
    else (if ctl ctl_del fd 0
        then (trigger_if events read_event fd m >>= λ m1. events_at m1 fd >>= λ events1.
            trigger_if events1 write_event fd m1 >>= λ m2.
            events_at m2 fd >>= λ events2. if events2 == 0 then some (true, m2) else none)
        else some (false, m)) in
    if int_le (length m.fd_contexts) fd then some (false, m) else found

-- EPOLLERR | EPOLLHUP in the reported mask stands for both events, as far as they are registered.
pub widen : ℕ → ℕ → ℕ
widen reported events =
    if bit_and reported 24 == 0 then reported else bit_or reported (bit_and 5 events)

pub real_events : ℕ → ℕ → ℕ
real_events reported events =
    let seen = widen reported events in
    let readable = if bit_and seen 1 == 0 then 0 else 1 in
    if bit_and seen 4 == 0 then readable else bit_or readable 4

-- The body of idle's loop over the events of epoll_wait, for a descriptor that is not the pipe.
pub handle_event : Ctl → IoManager → ℕ → ℕ → Option IoManager
handle_event ctl m fd reported = events_at m fd >>= λ events.
    let real = real_events reported events in
    if bit_and events real == 0
    then some m
    else (if leave ctl fd (clear_bits events real)
        then (trigger_if real read_event fd m >>= λ m1. trigger_if real write_event fd m1)
        else some m)
