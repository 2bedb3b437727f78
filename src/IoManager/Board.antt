-- ===== src/IoManager/Board.antt =====
-- What the IO manager promises: a board on which a task may wait for an event of a descriptor, and a queue. The
-- calls on the contexts and their bits are moves on it.
use exhy.Common.{ℕ, Bool, true, false, ◌≡◌, ◌≢◌, List, [], ◌∷◌, ◌++◌, none, some, get_elem?}
use exhy.IoManager.{Event, read_event, write_event, FdContext, IoManager, Task, get_context}
use exhy.IoManager.Slots.{Registered, has}
use exhy.IoManager.Drain.{task_in}

-- The task that waits for the event of the descriptor, with its scheduler: none or one.
pub record Board : Type 0 where
  pub waiting : ℕ → Event → List (ℕ × Task)
  pub queue : List (ℕ × Task)

abbrev pub waiting_in : List FdContext → ℕ → Event → List (ℕ × Task)
waiting_in cs fd e = elim (get_elem? cs fd) [ none ↦ [] | some c ↦ task_in (get_context e c) ]

abbrev pub board : IoManager → Board
board m = record { waiting = waiting_in m.fd_contexts; queue = m.scheduled }

abbrev pub kept : Bool → List (ℕ × Task) → List (ℕ × Task)
kept false ts = ts
kept true ts = []

abbrev pub moved : Bool → List (ℕ × Task) → List (ℕ × Task)
moved false ts = []
moved true ts = ts

abbrev pub SameTasks : Board → Board → Type 0
SameTasks a b = (j : ℕ) (d : Event) → b.waiting j d ≡ a.waiting j d

-- Nothing happens.
abbrev pub Stays : Board → Board → Type 0
Stays a b = SameTasks a b × (b.queue ≡ a.queue)

abbrev pub Elsewhere : ℕ → Board → Board → Type 0
Elsewhere fd a b = (j : ℕ) (d : Event) → fd ≢ j → b.waiting j d ≡ a.waiting j d

-- A task begins to wait for an event that none waited for.
pub record Registers (fd : ℕ) (e : Event) (x : ℕ × Task) (a b : Board) : Type 0 where
  pub free : a.waiting fd e ≡ []
  pub taken : b.waiting fd e ≡ x ∷ []
  pub other : (d : Event) → e ≢ d → b.waiting fd d ≡ a.waiting fd d
  pub elsewhere : Elsewhere fd a b
  pub queued : b.queue ≡ a.queue

-- The task that waited for an event is dropped.
pub record Drops (fd : ℕ) (e : Event) (a b : Board) : Type 0 where
  pub task : (x : ℕ × Task) × (a.waiting fd e ≡ x ∷ [])
  pub free : b.waiting fd e ≡ []
  pub other : (d : Event) → e ≢ d → b.waiting fd d ≡ a.waiting fd d
  pub elsewhere : Elsewhere fd a b
  pub queued : b.queue ≡ a.queue

-- The tasks that waited for the events q of a descriptor go to the end of the queue, the reader's first.
pub record Fires (fd : ℕ) (q : Registered) (a b : Board) : Type 0 where
  pub left : (d : Event) → b.waiting fd d ≡ kept (has d q) (a.waiting fd d)
  pub elsewhere : Elsewhere fd a b
  pub queued :
      b.queue
      ≡ a.queue ++ (moved q.0 (a.waiting fd read_event) ++ moved q.1 (a.waiting fd write_event))

abbrev pub only : Event → Registered
only read_event = (true, false)
only write_event = (false, true)
