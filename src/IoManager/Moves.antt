-- ===== src/IoManager/Moves.antt =====
-- The states that the calls leave, as moves on the board.
use exhy.Common.{
  ℕ, Bool, true, false, ◌≡◌, refl, sym, ap, ◌∙◌, List, [], ◌++◌, Option, some, get_elem?,
  append-nil,
}
use exhy.IoManager.{
  Caller, Event, read_event, write_event, EventContext, FdContext, IoManager, Task, empty_context,
  FitsInt, grown_for, get_context,
}
use exhy.IoManager.Slots.{Registered, has, holding, Shape, freed, filled}
use exhy.IoManager.Adding.{task_of, Added}
use exhy.IoManager.Events.{Gone, Triggered}
use exhy.IoManager.Drain.{task_in, task_in-holding, pick, minus, Drained}
use exhy.IoManager.Board.{Board, waiting_in, board, kept, moved, Registers, Drops, Fires, only}
use exhy.IoManager.Waiting.{
  waiting_in-at, task_in-free, waiting_in-grown_for, freed-other, filled-other, elsewhere_lem,
  waiting-has, waiting-free,
}

pub Added-Registers :
    (at : Caller) (s : ℕ) (m : IoManager) (fd : ℕ) (e : Event) (cb : Option ℕ) (g : Registered)
    (c : FdContext) (n : IoManager)
    → FitsInt m
    → get_elem? (grown_for fd m).fd_contexts fd ≡ some c
    → Shape g c
    → has e g ≡ false
    → Added at s m fd e cb g c n
    → Registers fd e (s, task_of at cb) (board m) (board n)
Added-Registers at s m fd e cb g c n b q w h v =
    let x = holding s (task_of at cb) in
    record {
      free = sym (waiting_in-grown_for fd m b fd e) ∙ waiting-free (grown_for fd m) fd e g c q w h;
      taken =
          waiting_in-at n.fd_contexts fd e v.now
          ∙ task_in-holding s (task_of at cb) (filled-self e g x c);
      other = λ d p.
          waiting_in-at n.fd_contexts fd d v.now
          ∙ ap task_in (filled-other e d g x c p)
          ∙ sym (waiting_in-at (grown_for fd m).fd_contexts fd d q)
          ∙ waiting_in-grown_for fd m b fd d;
      elsewhere = λ j d p.
          elsewhere_lem (grown_for fd m) n fd v.rest j d p ∙ waiting_in-grown_for fd m b j d;
      queued = v.queued;
    }
  where
    filled-self :
        (e : Event) (g : Registered) (x : EventContext) (c : FdContext)
        → get_context e (filled e g x c) ≡ x
    filled-self read_event g x c = refl
    filled-self write_event g x c = refl

pub freed_self :
    (e : Event) (g : Registered) (c : FdContext) → get_context e (freed e g c) ≡ empty_context
freed_self read_event g c = refl
freed_self write_event g c = refl

pub Gone-Drops :
    (m : IoManager) (fd : ℕ) (e : Event) (c : FdContext) (n : IoManager)
    → Gone m fd e c [] n
    → Drops fd e (board m) (board n)
Gone-Drops m fd e c n v = record {
  task = waiting-has m fd e v.shape c v.was.0 v.was.1 v.was.2;
  free = waiting_in-at n.fd_contexts fd e v.now ∙ task_in-free _ (freed_self e v.shape c);
  other = λ d p.
      waiting_in-at n.fd_contexts fd d v.now
      ∙ ap task_in (freed-other e d v.shape c p)
      ∙ sym (waiting_in-at m.fd_contexts fd d v.was.0);
  elsewhere = elsewhere_lem m n fd v.others;
  queued = v.queued ∙ append-nil m.scheduled;
}

pub Triggered-Fires :
    (m : IoManager) (fd : ℕ) (e : Event) (n : IoManager)
    → Triggered m fd e n
    → Fires fd (only e) (board m) (board n)
Triggered-Fires m fd e n v =
    let q = task_in-holding v.scheduler v.task v.held in
    record {
      left = left e v.context v.gone;
      elsewhere = elsewhere_lem m n fd v.gone.others;
      queued =
          v.gone.queued
          ∙ ap (λ ts. m.scheduled ++ ts)
              (sym (fired e ∙ waiting_in-at m.fd_contexts fd e v.gone.was.0 ∙ q));
    }
  where
    fired :
        (e : Event)
        → moved (only e).0 (waiting_in m.fd_contexts fd read_event)
            ++ moved (only e).1 (waiting_in m.fd_contexts fd write_event)
          ≡ waiting_in m.fd_contexts fd e
    fired read_event = append-nil (waiting_in m.fd_contexts fd read_event)
    fired write_event = refl

    left :
        (e : Event) (c : FdContext) {ts : List (ℕ × Task)}
        → Gone m fd e c ts n
        → (d : Event)
        → waiting_in n.fd_contexts fd d ≡ kept (has d (only e)) (waiting_in m.fd_contexts fd d)
    left read_event c w read_event = waiting_in-at n.fd_contexts fd read_event w.now
    left read_event c w write_event =
        waiting_in-at n.fd_contexts fd write_event w.now
        ∙ sym (waiting_in-at m.fd_contexts fd write_event w.was.0)
    left write_event c w read_event =
        waiting_in-at n.fd_contexts fd read_event w.now
        ∙ sym (waiting_in-at m.fd_contexts fd read_event w.was.0)
    left write_event c w write_event = waiting_in-at n.fd_contexts fd write_event w.now

pub kept_lem :
    (g q : Registered) (x c : FdContext)
    → Shape (minus g q) x
    → (q.0 ≡ false → x.read ≡ c.read)
    → (q.1 ≡ false → x.write ≡ c.write)
    → (d : Event) → task_in (get_context d x) ≡ kept (has d q) (task_in (get_context d c))
kept_lem g (true, true) x c w r u read_event = task_in-free x.read w.reads
kept_lem g (true, false) x c w r u read_event = task_in-free x.read w.reads
kept_lem g (false, q) x c w r u read_event = ap task_in (r refl)
kept_lem g (true, true) x c w r u write_event = task_in-free x.write w.writes
kept_lem g (false, true) x c w r u write_event = task_in-free x.write w.writes
kept_lem g (q, false) x c w r u write_event = ap task_in (u refl)

pub pick-moved : (b : Bool) (x : EventContext) → pick b x ≡ moved b (task_in x)
pick-moved true x = refl
pick-moved false x = refl

pub Drained-Fires :
    (m : IoManager) (fd : ℕ) (c : FdContext) (g q : Registered) (n : IoManager)
    → get_elem? m.fd_contexts fd ≡ some c
    → Drained m fd c g q n
    → Fires fd q (board m) (board n)
Drained-Fires m fd c g q n at v =
    let there : (d : Event) → waiting_in m.fd_contexts fd d ≡ task_in (get_context d c) =
      λ d. waiting_in-at m.fd_contexts fd d at in
    record {
      left = λ d.
          waiting_in-at n.fd_contexts fd d v.now.0
          ∙ kept_lem g q v.context c v.now.1 v.reader v.writer d
          ∙ ap (kept (has d q)) (sym (there d));
      elsewhere = elsewhere_lem m n fd v.others;
      queued =
          v.queued
          ∙ rw (pick-moved q.0 c.read, pick-moved q.1 c.write, there read_event, there write_event)
              refl;
    }

pub kept_all : (b : Bool) (ts : List (ℕ × Task)) → (b ≡ false → ts ≡ []) → kept b ts ≡ []
kept_all true ts h = refl
kept_all false ts h = h refl

pub moved_all : (b : Bool) (ts : List (ℕ × Task)) → (b ≡ false → ts ≡ []) → moved b ts ≡ ts
moved_all true ts h = refl
moved_all false ts h = sym (h refl)

pub all-Fires :
    (fd : ℕ) (g : Registered) (a b : Board)
    → ((d : Event) → has d g ≡ false → a.waiting fd d ≡ [])
    → Fires fd g a b
    → Fires fd (true, true) a b
all-Fires fd g a b h v = record {
  left =
      λ d. v.left d ∙ kept_all (has d g) (a.waiting fd d) (h d) ∙ sym (nothing d (a.waiting fd d));
  elsewhere = v.elsewhere;
  queued =
      v.queued
      ∙ rw
          (
            moved_all g.0 (a.waiting fd read_event) (h read_event),
            moved_all g.1 (a.waiting fd write_event) (h write_event),
          )
          refl;
}
  where
    nothing : (d : Event) (ts : List (ℕ × Task)) → kept (has d (true, true)) ts ≡ []
    nothing read_event ts = refl
    nothing write_event ts = refl
