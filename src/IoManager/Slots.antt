-- ===== src/IoManager/Slots.antt =====
-- One FdContext: its event mask and its two EventContexts agree, and triggering keeps it so.
use exhy.Common.{
  ℕ, bit_and, bit_or, Bool, true, false, not, ◌≡◌, refl, ap, ◌∙◌, subst, [], ◌∷◌, none, some, ◌==◌,
}
use exhy.IoManager.{
  Event, read_event, write_event, event_bits, Task, run_fiber, run_cb, EventContext, FdContext,
  clear_bits, empty_context, new_context, get_context, put_context, hand_over, for_scheduler,
  trigger_event, is_empty,
}

-- Is READ registered, and is WRITE?
abbrev pub Registered : Type 0
Registered = Bool × Bool

abbrev pub mask : Registered → ℕ
mask (false, false) = 0
mask (true, false) = 1
mask (false, true) = 4
mask (true, true) = 5

abbrev pub has : Event → Registered → Bool
has read_event g = g.0
has write_event g = g.1

abbrev pub on : Event → Registered → Registered
on read_event g = (true, g.1)
on write_event g = (g.0, true)

abbrev pub off : Event → Registered → Registered
off read_event g = (false, g.1)
off write_event g = (g.0, false)

-- A context that waits for its event with a task for a scheduler.
abbrev pub holding : ℕ → Task → EventContext
holding s (run_fiber f) = record { scheduler = some s; fiber = some f; cb = none }
holding s (run_cb k) = record { scheduler = some s; fiber = none; cb = some k }

abbrev pub Slot : Bool → EventContext → Type 0
Slot false x = x ≡ empty_context
Slot true x = (s : ℕ) × (t : Task) × (x ≡ holding s t)

-- The mask is that of the registered events, and just their contexts are filled.
pub record Shape (g : Registered) (c : FdContext) : Type 0 where
  pub events_is : c.events ≡ mask g
  pub reads : Slot g.0 c.read
  pub writes : Slot g.1 c.write

pub new_context-Shape : (fd : ℕ) → Shape (false, false) (new_context fd)
new_context-Shape fd = record { events_is = refl; reads = refl; writes = refl }

pub Slot-of :
    (e : Event) (g : Registered) (c : FdContext) → Shape g c → Slot (has e g) (get_context e c)
Slot-of read_event g c v = v.reads
Slot-of write_event g c v = v.writes

-- The tests and the arithmetic of the source on such a mask.
pub has_lem : (e : Event) (g : Registered) → (bit_and (mask g) (event_bits e) == 0) ≡ not (has e g)
unfolding event_bits
has_lem read_event (false, false) = refl
has_lem read_event (false, true) = refl
has_lem read_event (true, false) = refl
has_lem read_event (true, true) = refl
has_lem write_event (false, false) = refl
has_lem write_event (false, true) = refl
has_lem write_event (true, false) = refl
has_lem write_event (true, true) = refl

pub off_lem : (e : Event) (g : Registered) → clear_bits (mask g) (event_bits e) ≡ mask (off e g)
unfolding event_bits
off_lem read_event (false, false) = refl
off_lem read_event (false, true) = refl
off_lem read_event (true, false) = refl
off_lem read_event (true, true) = refl
off_lem write_event (false, false) = refl
off_lem write_event (false, true) = refl
off_lem write_event (true, false) = refl
off_lem write_event (true, true) = refl

pub on_lem : (e : Event) (g : Registered) → bit_or (mask g) (event_bits e) ≡ mask (on e g)
unfolding event_bits
on_lem read_event (false, false) = refl
on_lem read_event (false, true) = refl
on_lem read_event (true, false) = refl
on_lem read_event (true, true) = refl
on_lem write_event (false, false) = refl
on_lem write_event (false, true) = refl
on_lem write_event (true, false) = refl
on_lem write_event (true, true) = refl

-- The context once its event is gone.
abbrev pub freed : Event → Registered → FdContext → FdContext
freed e g c = put_context e empty_context (record c { events = mask (off e g) })

pub freed-Shape :
    (e : Event) (g : Registered) (c : FdContext) → Shape g c → Shape (off e g) (freed e g c)
freed-Shape read_event g c v = record { events_is = refl; reads = refl; writes = v.writes }
freed-Shape write_event g c v = record { events_is = refl; reads = v.reads; writes = refl }

-- The context once an event is added with its task.
abbrev pub filled : Event → Registered → EventContext → FdContext → FdContext
filled e g x c = put_context e x (record c { events = mask (on e g) })

pub filled-Shape :
    (e : Event) (g : Registered) (c : FdContext) (s : ℕ) (t : Task)
    → Shape g c
    → Shape (on e g) (filled e g (holding s t) c)
filled-Shape read_event g c s t v = record {
  events_is = refl;
  reads = (s, t, refl);
  writes = v.writes;
}
filled-Shape write_event g c s t v = record {
  events_is = refl;
  reads = v.reads;
  writes = (s, t, refl);
}

pub freed-fd : (e : Event) (g : Registered) (c : FdContext) → (freed e g c).fd ≡ c.fd
freed-fd read_event g c = refl
freed-fd write_event g c = refl

pub filled-fd :
    (e : Event) (g : Registered) (x : EventContext) (c : FdContext) → (filled e g x c).fd ≡ c.fd
filled-fd read_event g x c = refl
filled-fd write_event g x c = refl

pub is_empty_lem : (x : EventContext) → x ≡ empty_context → is_empty x ≡ true
unfolding is_empty
is_empty_lem x h = rw h refl

trigger_held :
    (e : Event) (g : Registered) (c : FdContext) (s : ℕ) (t : Task)
    → c.events ≡ mask g
    → has e g ≡ true
    → get_context e c ≡ holding s t
    → trigger_event e c ≡ some (freed e g c, (s, t) ∷ [])
unfolding trigger_event event_bits hand_over for_scheduler
trigger_held read_event (true, false) c s (run_fiber f) h k q = rw (h, q) refl
trigger_held read_event (true, false) c s (run_cb f) h k q = rw (h, q) refl
trigger_held read_event (true, true) c s (run_fiber f) h k q = rw (h, q) refl
trigger_held read_event (true, true) c s (run_cb f) h k q = rw (h, q) refl
trigger_held write_event (false, true) c s (run_fiber f) h k q = rw (h, q) refl
trigger_held write_event (false, true) c s (run_cb f) h k q = rw (h, q) refl
trigger_held write_event (true, true) c s (run_fiber f) h k q = rw (h, q) refl
trigger_held write_event (true, true) c s (run_cb f) h k q = rw (h, q) refl
trigger_held read_event (false, w) c s t h k q = cc
trigger_held write_event (r, false) c s t h k q = cc

-- Triggering a registered event hands its one task to its scheduler.
pub trigger_event_lem :
    (e : Event) (g : Registered) (c : FdContext)
    → Shape g c
    → has e g ≡ true
    → (s : ℕ) × (t : Task) × (get_context e c ≡ holding s t)
      × (trigger_event e c ≡ some (freed e g c, (s, t) ∷ []))
trigger_event_lem e g c v h =
    let (s, t, q) = subst (λ b. Slot b (get_context e c)) h (Slot-of e g c v) in
    (s, t, q, trigger_held e g c s t v.events_is h q)

-- `events & event`, on a context of that shape.
pub test_lem :
    {c : FdContext} {g : Registered} {b : Bool} (e : Event)
    → Shape g c
    → has e g ≡ b
    → (bit_and c.events (event_bits e) == 0) ≡ not b
test_lem {c} {g} {b} e v h =
    ap (λ n. bit_and n (event_bits e) == 0) v.events_is ∙ has_lem e g ∙ ap not h
