-- ===== src/IoManager/Refinement.antt =====
-- Every call on the contexts is the move that the board promises.
use exhy.Common.{
  Bool, ◌≢◌, ap, int_le, ℕ, bit_and, subst, ◌==◌, false, ◌≤◌, ◌<◌, ◌^◌, true, ◌≡◌, refl, ◌∙◌, ◌⊎◌,
  inl, inr, [], Option, some, ◌>>=◌, Bool-cases, length, get_elem?,
}
use exhy.IoManager.{
  FitsInt, Ctl, ctl_del, read_event, write_event, clear_bits, leave, Caller, Event, FdContext,
  IoManager, context_resize, grown_for, add_event, del_event, cancel_event, cancel_all,
  handle_event,
}
use exhy.IoManager.Slots.{mask, Registered, has, Shape}
use exhy.IoManager.Invariant.{IsValid, Shape-at}
use exhy.IoManager.Adding.{task_of, Asks, add_event_lem}
use exhy.IoManager.Events.{Unregistered, Answers, del_event_lem, cancel_event_lem}
use exhy.IoManager.Drain.{Within}
use exhy.IoManager.Dispatch.{cancel_all_lem, handle_event_lem, ready}
use exhy.IoManager.Board.{Board, waiting_in, board, Stays, Registers, Drops, Fires, only}
use exhy.IoManager.Waiting.{
  waiting-beyond, waiting-Unregistered, waiting_in-grown_for, waiting-has, waiting-free,
}
use exhy.IoManager.Moves.{Added-Registers, Gone-Drops, Triggered-Fires, Drained-Fires, all-Fires}

-- The calls, and idle's handling of one event of epoll_wait.
pub data Call : Type 0 where
  adding : Caller → ℕ → Event → Option ℕ → Call
  deleting : ℕ → Event → Call
  cancelling : ℕ → Event → Call
  cancelling_all : ℕ → Call
  handling : ℕ → ℕ → Call

pub run : Ctl → Call → IoManager → Option IoManager
run ctl (adding at fd e cb) m = add_event ctl at m fd e cb >>= λ r. some r.1
run ctl (deleting fd e) m = del_event ctl m fd e >>= λ r. some r.1
run ctl (cancelling fd e) m = cancel_event ctl m fd e >>= λ r. some r.1
run ctl (cancelling_all fd) m = cancel_all ctl m fd >>= λ r. some r.1
run ctl (handling fd reported) m = handle_event ctl m fd reported

grown_for-scheduled : (fd : ℕ) (m : IoManager) → (grown_for fd m).scheduled ≡ m.scheduled
unfolding grown_for context_resize
grown_for-scheduled fd m = elim (Bool-cases (int_le (length m.fd_contexts) fd)) [
  | inl k ↦ rw (grown_for, k) refl
  | inr k ↦ rw (grown_for, k) refl
]

-- What a call relies on: addEvent is called in a scheduler's fiber for an event that nothing waits for, and idle
-- handles events that are registered.
abbrev pub Allowed : Call → IoManager → Type 0
Allowed (adding at fd e cb) m =
    (32 ≤ length m.fd_contexts)
    × (fd < 2 ^ 31)
    × ((s : ℕ) × (at.scheduler ≡ some s))
    × (at.is_exec ≡ true)
    × ((board m).waiting fd e ≡ [])
Allowed (handling fd reported) m =
    (c : FdContext) × (g : Registered) × (get_elem? m.fd_contexts fd ≡ some c)
    × Shape g c
    × Within (ready reported c.events) g
Allowed c m = Unit

-- What idle does where it triggers: the tasks that wait for the events that epoll reports ready go to the queue, and
-- there is such an event.
abbrev pub Handles : ℕ → ℕ → IoManager → Board → Board → Type 0
Handles fd reported m a b =
    (c : FdContext) × (get_elem? m.fd_contexts fd ≡ some c)
    × (ready reported c.events ≢ (false, false))
    × Fires fd (ready reported c.events) a b

-- The move of each call from the state m.
abbrev pub Move : Call → IoManager → Board → Board → Type 0
Move (adding at fd e cb) m a b =
    (s : ℕ) × (at.scheduler ≡ some s) × Registers fd e (s, task_of at cb) a b
Move (deleting fd e) m a b = Drops fd e a b
Move (cancelling fd e) m a b = Fires fd (only e) a b
Move (cancelling_all fd) m a b = Fires fd (true, true) a b
Move (handling fd reported) m a b = Handles fd reported m a b

-- There is nothing to move: no task waits where the call would take one, or idle is told of no event that counts.
abbrev pub Idle : Call → IoManager → Type 0
Idle (adding at fd e cb) m = ⊥
Idle (deleting fd e) m = (board m).waiting fd e ≡ []
Idle (cancelling fd e) m = (board m).waiting fd e ≡ []
Idle (cancelling_all fd) m = (d : Event) → (board m).waiting fd d ≡ []
Idle (handling fd reported) m =
    (c : FdContext) × (get_elem? m.fd_contexts fd ≡ some c)
    × (ready reported c.events ≡ (false, false))

-- What epoll_ctl answers to the one question that the call asks it: to add the event of addEvent, or to keep those
-- that the call leaves of the descriptor.
abbrev pub Answer : Ctl → Call → IoManager → Bool → Type 0
Answer ctl (adding at fd e cb) m ok =
    (c : FdContext) × (get_elem? (grown_for fd m).fd_contexts fd ≡ some c) × Asks ctl fd c e ok
Answer ctl (deleting fd e) m ok = Answers ctl m fd e ok
Answer ctl (cancelling fd e) m ok = Answers ctl m fd e ok
Answer ctl (cancelling_all fd) m ok = ctl ctl_del fd 0 ≡ ok
Answer ctl (handling fd reported) m ok =
    (c : FdContext) × (get_elem? m.fd_contexts fd ≡ some c)
    × (leave ctl fd (clear_bits c.events (mask (ready reported c.events))) ≡ ok)

nothing_ready :
    (g q : Registered) → Within q g → (bit_and (mask g) (mask q) == 0) ≡ true → q ≡ (false, false)
nothing_ready g (false, false) z h = refl
nothing_ready (true, false) (true, false) z h = cc
nothing_ready (true, false) (true, true) z h = cc (z.1 refl)
nothing_ready (true, true) (true, false) z h = cc
nothing_ready (true, true) (true, true) z h = cc
nothing_ready (false, x) (true, y) z h = cc (z.0 refl)
nothing_ready (true, true) (false, true) z h = cc
nothing_ready (false, true) (false, true) z h = cc
nothing_ready (x, false) (false, true) z h = cc (z.1 refl)

some_ready : (g q : Registered) → (bit_and (mask g) (mask q) == 0) ≡ false → q ≢ (false, false)
some_ready g q h e =
    let none_ready : (bit_and (mask g) (mask q) == 0) ≡ true = rw e (nothing_common g) in
    cc (none_ready, h)
  where
    nothing_common : (g : Registered) → (bit_and (mask g) 0 == 0) ≡ true
    nothing_common (false, false) = refl
    nothing_common (false, true) = refl
    nothing_common (true, false) = refl
    nothing_common (true, true) = refl

mask-zero : (g : Registered) (d : Event) → (mask g == 0) ≡ true → has d g ≡ false
mask-zero (false, false) read_event h = refl
mask-zero (false, false) write_event h = refl
mask-zero (true, false) d h = cc
mask-zero (false, true) d h = cc
mask-zero (true, true) d h = cc

gone_why :
    (ctl : Ctl) (m : IoManager) (fd : ℕ) (e : Event)
    → IsValid m
    → Unregistered m fd e ⊎ Answers ctl m fd e false
    → Idle (deleting fd e) m ⊎ Answer ctl (deleting fd e) m false
gone_why ctl m fd e v (inl h) = inl (waiting-Unregistered m fd e v h)
gone_why ctl m fd e v (inr (c, at, k)) = inr (c, at, k)

all_why :
    (ctl : Ctl) (m : IoManager) (fd : ℕ)
    → IsValid m
    → (length m.fd_contexts ≤ fd)
      ⊎ ((c : FdContext) × (get_elem? m.fd_contexts fd ≡ some c)
          × (((c.events == 0) ≡ true) ⊎ (ctl ctl_del fd 0 ≡ false)))
    → Idle (cancelling_all fd) m ⊎ Answer ctl (cancelling_all fd) m false
all_why ctl m fd v (inl h) = inl (λ d. waiting-beyond m.fd_contexts fd d h)
all_why ctl m fd v (inr (c, at, inr k)) = inr k
all_why ctl m fd v (inr (c, at, inl k)) =
    let ((g, w), same) = Shape-at 0 m.fd_contexts fd c v.shaped at in
    let none_left : (mask g == 0) ≡ true = subst (λ n. (n == 0) ≡ true) w.events_is k in
    inl (λ d. waiting-free m fd d g c at w (mask-zero g d none_left))

-- In a well-formed state of fewer than 2 ^ 31 contexts that allows the call, each call on the contexts, and idle's
-- handling of one event, returns with a well-formed state. Either epoll_ctl agrees to what the call asks of it and the
-- tasks move as the board promises of the call: addEvent makes the task of the call wait for its event, delEvent drops
-- the task that waits for the event, cancelEvent and cancelAll send the waiting tasks of the event or the descriptor to
-- the queue, the reader's first, and idle those of the events that are reported ready, of which there is one, and no
-- other task moves. Or nothing moves, and then nothing waits where the call would take a task, or idle is told of no
-- event that counts, or epoll_ctl refuses what the call asks of it.
pub run-Move :
    (ctl : Ctl) (call : Call) (m : IoManager)
    → IsValid m
    → FitsInt m
    → Allowed call m
    → (n : IoManager) × (run ctl call m ≡ some n)
      × IsValid n
      × ((Stays (board m) (board n) × (Idle call m ⊎ Answer ctl call m false))
          ⊎ (Answer ctl call m true × Move call m (board m) (board n)))
unfolding run
run-Move ctl (adding at fd e cb) m v b (long, low, (s, sch), ex, free) =
    let (c, g, q, w, r) = add_event_lem ctl at s m fd e cb v long b low sch ex in
    elim r [
      | inl (k, z) ↦ absurd (taken c g q w k)
      | inr (inl (k, z, d, u)) ↦ (
        grown_for fd m,
        rw d refl,
        u,
        inl ((waiting_in-grown_for fd m b, grown_for-scheduled fd m), inr (c, q, z)),
      )
      | inr (inr (k, z, (n, d, u))) ↦ (
        n,
        rw d refl,
        u.valid,
        inr ((c, q, z), (s, sch, Added-Registers at s m fd e cb g c n b q w k u)),
      )
    ]
  where
    taken :
        (c : FdContext) (g : Registered)
        → get_elem? (grown_for fd m).fd_contexts fd ≡ some c
        → Shape g c
        → has e g ≡ true
        → ⊥
    taken c g q w k =
        let (x, d) = waiting-has (grown_for fd m) fd e g c q w k in
        let f : waiting_in (grown_for fd m).fd_contexts fd e ≡ [] =
          waiting_in-grown_for fd m b fd e ∙ free in
        cc
run-Move ctl (deleting fd e) m v b h = elim (del_event_lem ctl m fd e v b) [
  | inl (q, r) ↦ (m, rw q refl, v, inl (((λ j d. refl), refl), gone_why ctl m fd e v r))
  | inr (n, q, r, (c, gone)) ↦ (n, rw q refl, gone.valid, inr (r, Gone-Drops m fd e c n gone))
]
run-Move ctl (cancelling fd e) m v b h = elim (cancel_event_lem ctl m fd e v b) [
  | inl (q, r) ↦ (m, rw q refl, v, inl (((λ j d. refl), refl), gone_why ctl m fd e v r))
  | inr (n, q, r, t) ↦ (n, rw q refl, t.gone.valid, inr (r, Triggered-Fires m fd e n t))
]
run-Move ctl (cancelling_all fd) m v b h = elim (cancel_all_lem ctl m fd v b) [
  | inl (q, r) ↦ (m, rw q refl, v, inl (((λ j d. refl), refl), all_why ctl m fd v r))
  | inr (n, c, g, q, at, w, k, d) ↦ (
    n,
    rw q refl,
    d.valid,
    inr (
      k,
      all-Fires fd g (board m) (board n) (λ e i. waiting-free m fd e g c at w i)
          (Drained-Fires m fd c g g n at d),
    ),
  )
]
run-Move ctl (handling fd reported) m v b (c, g, at, w, z) =
    let asked =
      ap (λ k. leave ctl fd (clear_bits k (mask (ready reported c.events)))) w.events_is in
    elim (handle_event_lem ctl m fd reported c g v at w z) [
      | inl (q, inl k) ↦ (
        m,
        q,
        v,
        inl (((λ j d. refl), refl), inl (c, at, nothing_ready g (ready reported c.events) z k)),
      )
      | inl (q, inr k) ↦ (m, q, v, inl (((λ j d. refl), refl), inr (c, at, asked ∙ k)))
      | inr (n, q, k, l, d) ↦ (
        n,
        q,
        d.valid,
        inr (
          (c, at, asked ∙ l),
          (c, at, some_ready g (ready reported c.events) k, Drained-Fires m fd c g _ n at d),
        ),
      )
    ]
