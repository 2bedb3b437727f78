-- ===== src/IoManager/Drain.antt =====
-- The two tests of cancelAll and of idle that trigger the events of a mask, on well-formed states.
use exhy.Common.{
  ℕ, ◌+◌, bit_and, Bool, true, false, not, ◌≡◌, ◌≢◌, refl, sym, ap, ◌∙◌, List, [], ◌∷◌, ◌++◌,
  append-nil, append_assoc, none, some, ◌==◌, arith, get_elem?, get_elem?-set_self,
}
use exhy.IoManager.{
  Event, read_event, write_event, event_bits, FdContext, EventContext, IoManager, Task, run_fiber,
  run_cb, get_context, triggered, trigger_if, events_at,
}
use exhy.IoManager.Slots.{
  Registered, mask, has, off, holding, Shape, freed, freed-Shape, trigger_event_lem,
}
use exhy.IoManager.Invariant.{IsValid, weight, found-lt}
use exhy.IoManager.Events.{Gone, freed-Gone}

-- What a context has for its scheduler.
abbrev pub task_in : EventContext → List (ℕ × Task)
task_in x = elim x.scheduler [
  | none ↦ []
  | some s ↦ elim x.cb [
    | some k ↦ (s, run_cb k) ∷ []
    | none ↦ elim x.fiber [ some f ↦ (s, run_fiber f) ∷ [] | none ↦ [] ]
  ]
]

abbrev pub pick : Bool → EventContext → List (ℕ × Task)
pick false x = []
pick true x = task_in x

abbrev pub minus : Registered → Registered → Registered
minus g (false, false) = g
minus g (true, false) = (false, g.1)
minus g (false, true) = (g.0, false)
minus g (true, true) = (false, false)

-- In n, the events q of the context c at `fd` are gone from it, and the tasks that waited for them are
-- queued, the reader's first; all other descriptors are as they were in m.
pub record Drained (m : IoManager) (fd : ℕ) (c : FdContext) (g q : Registered) (n : IoManager)
    : Type 0 where
  pub valid : IsValid n
  pub context : FdContext
  pub now : (get_elem? n.fd_contexts fd ≡ some context) × Shape (minus g q) context
  pub reader : q.0 ≡ false → context.read ≡ c.read
  pub writer : q.1 ≡ false → context.write ≡ c.write
  pub others : (j : ℕ) → fd ≢ j → get_elem? n.fd_contexts j ≡ get_elem? m.fd_contexts j
  pub pending : n.pending_event_count + weight (mask q) ≡ m.pending_event_count
  pub queued : n.scheduled ≡ m.scheduled ++ (pick q.0 c.read ++ pick q.1 c.write)

pub task_in-holding :
    {x : EventContext} (s : ℕ) (t : Task) → x ≡ holding s t → task_in x ≡ (s, t) ∷ []
task_in-holding s (run_fiber f) h = rw h refl
task_in-holding s (run_cb k) h = rw h refl

abbrev pub Within : Registered → Registered → Type 0
Within q g = (q.0 ≡ true → g.0 ≡ true) × (q.1 ≡ true → g.1 ≡ true)

-- A mask without the event leaves the manager as it is.
skip :
    (m : IoManager) (fd : ℕ) (e : Event) (k : ℕ)
    → (bit_and k (event_bits e) == 0) ≡ true
    → trigger_if k e fd m ≡ some m
unfolding trigger_if
skip m fd e k h = rw h refl

module _ (m : IoManager) (fd : ℕ) (v : IsValid m) (g : Registered) (c : FdContext)
    (at : get_elem? m.fd_contexts fd ≡ some c) (w : Shape g c) where
  -- A mask with it queues the task of the context.
  pub fire :
      (e : Event)
      → has e g ≡ true
      → (s : ℕ) × (t : Task) × (get_context e c ≡ holding s t)
        × ((k : ℕ)
            → (bit_and k (event_bits e) == 0) ≡ false
            → trigger_if k e fd m ≡ some (triggered m fd (freed e g c, (s, t) ∷ [])))
        × Gone m fd e c ((s, t) ∷ []) (triggered m fd (freed e g c, (s, t) ∷ []))
  unfolding trigger_if
  fire e h =
      let (s, t, q, fires) = trigger_event_lem e g c w h in
      (s, t, q, λ k p. rw (p, at, fires) refl, freed-Gone m fd e v g c at w h ((s, t) ∷ []))

pub at_freed :
    (m : IoManager) (fd : ℕ) (g : Registered) (c : FdContext) (ts : List (ℕ × Task)) (e : Event)
    → get_elem? m.fd_contexts fd ≡ some c
    → get_elem? (triggered m fd (freed e g c, ts)).fd_contexts fd ≡ some (freed e g c)
at_freed m fd g c ts e at =
    get_elem?-set_self m.fd_contexts fd (freed e g c) (found-lt m.fd_contexts fd at)

pub events_of :
    (m : IoManager) (fd : ℕ) (g : Registered) (c : FdContext)
    → get_elem? m.fd_contexts fd ≡ some c
    → c.events ≡ mask g
    → events_at m fd ≡ some (mask g)
unfolding events_at
events_of m fd g c at h = rw (at, h) refl

-- Both tests of the source in a row, on the masks `a` and `b`.
pub drain :
    (m : IoManager) (fd : ℕ) (g : Registered) (c : FdContext) (q : Registered) (a b : ℕ)
    → IsValid m
    → get_elem? m.fd_contexts fd ≡ some c
    → Shape g c
    → Within q g
    → (bit_and a (event_bits read_event) == 0) ≡ not q.0
    → (bit_and b (event_bits write_event) == 0) ≡ not q.1
    → (n1 : IoManager) × (n : IoManager) × (trigger_if a read_event fd m ≡ some n1)
      × (events_at n1 fd ≡ some (mask (minus g (q.0, false))))
      × (trigger_if b write_event fd n1 ≡ some n)
      × Drained m fd c g q n
drain m fd g c (false, false) a b v at w z h k = (
  m,
  m,
  skip m fd read_event a h,
  events_of m fd g c at w.events_is,
  skip m fd write_event b k,
  record {
    valid = v;
    context = c;
    now = (at, w);
    reader = λ p. refl;
    writer = λ p. refl;
    others = λ j p. refl;
    pending = omega arith;
    queued = sym (append-nil m.scheduled);
  },
)
drain m fd g c (true, false) a b v at w z h k =
    let (s, t, held, fires, gone) = fire m fd v g c at w read_event (z.0 refl) in
    let n = triggered m fd (freed read_event g c, (s, t) ∷ []) in
    (
      n,
      n,
      fires a h,
      events_of n fd (off read_event g) (freed read_event g c)
          (at_freed m fd g c ((s, t) ∷ []) read_event at) refl,
      skip n fd write_event b k,
      record {
        valid = gone.valid;
        context = freed read_event g c;
        now = (at_freed m fd g c ((s, t) ∷ []) read_event at, freed-Shape read_event g c w);
        reader = λ p. cc;
        writer = λ p. refl;
        others = gone.others;
        pending = gone.pending;
        queued =
            ap (λ xs. m.scheduled ++ xs)
              (sym (append-nil (task_in c.read) ∙ task_in-holding s t held));
      },
    )
drain m fd g c (false, true) a b v at w z h k =
    let (s, t, held, fires, gone) = fire m fd v g c at w write_event (z.1 refl) in
    let n = triggered m fd (freed write_event g c, (s, t) ∷ []) in
    (
      m,
      n,
      skip m fd read_event a h,
      events_of m fd g c at w.events_is,
      fires b k,
      record {
        valid = gone.valid;
        context = freed write_event g c;
        now = (at_freed m fd g c ((s, t) ∷ []) write_event at, freed-Shape write_event g c w);
        reader = λ p. refl;
        writer = λ p. cc;
        others = gone.others;
        pending = gone.pending;
        queued = ap (λ xs. m.scheduled ++ xs) (sym (task_in-holding s t held));
      },
    )
drain m fd g c (true, true) a b v at w z h k =
    let (s, t, held, fires, gone) = fire m fd v g c at w read_event (z.0 refl) in
    let d = freed read_event g c in
    let n = triggered m fd (d, (s, t) ∷ []) in
    let at1 = at_freed m fd g c ((s, t) ∷ []) read_event at in
    let (s1, t1, held1, fires1, gone1) =
      fire n fd gone.valid (off read_event g) d at1 (freed-Shape read_event g c w) write_event
        (z.1 refl) in
    (
      n,
      triggered n fd (freed write_event (off read_event g) d, (s1, t1) ∷ []),
      fires a h,
      events_of n fd (off read_event g) d at1 refl,
      fires1 b k,
      record {
        valid = gone1.valid;
        context = freed write_event (off read_event g) d;
        now = (
          at_freed n fd (off read_event g) d ((s1, t1) ∷ []) write_event at1,
          freed-Shape write_event (off read_event g) d (freed-Shape read_event g c w),
        );
        reader = λ p. cc;
        writer = λ p. cc;
        others = λ j p. gone1.others j p ∙ gone.others j p;
        pending = omega (arith, gone.pending, gone1.pending);
        queued =
            append_assoc m.scheduled ((s, t) ∷ []) ((s1, t1) ∷ [])
            ∙ ap (λ xs. m.scheduled ++ xs)
                (sym (rw (task_in-holding s t held, task_in-holding s1 t1 held1) refl));
      },
    )
