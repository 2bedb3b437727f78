-- ===== src/IoManager/Events.antt =====
-- delEvent, cancelEvent and cancelAll on well-formed states.
use exhy.Common.{
  int_le_lem, int_le, ℕ, ◌+◌, ◌≤◌, bit_and, Bool, true, false, not, ◌≡◌, ◌≢◌, refl, sym, ap, ◌∙◌,
  ◌⊎◌, inl, inr, List, [], ◌∷◌, ◌++◌, some, ◌==◌, leb, leb→le, leb-false→lt, Bool-cases, length,
  get_elem?, append-nil, length-set, get_elem?-set_self, get_elem?-set_ne,
}
use exhy.IoManager.{
  FitsInt, Ctl, Event, read_event, write_event, event_bits, FdContext, IoManager, Task, clear_bits,
  get_context, put_context, empty_context, trigger_event, triggered, leave, del_event, cancel_event,
}
use exhy.IoManager.Slots.{
  Registered, mask, has, off, holding, Shape, off_lem, freed, freed-Shape, freed-fd,
  trigger_event_lem, test_lem,
}
use exhy.IoManager.Invariant.{IsValid, weight, Shape-at, found, found-lt, less}

pub weight-off :
    (e : Event) (g : Registered) → has e g ≡ true → weight (mask g) ≡ weight (mask (off e g)) + 1
weight-off read_event (true, false) h = refl
weight-off read_event (true, true) h = refl
weight-off write_event (false, true) h = refl
weight-off write_event (true, true) h = refl
weight-off read_event (false, w) h = cc
weight-off write_event (r, false) h = cc

-- The context at `fd` has no bit of the event, or there is none.
abbrev pub Unregistered : IoManager → ℕ → Event → Type 0
Unregistered m fd e =
    (length m.fd_contexts ≤ fd)
    ⊎ ((c : FdContext) × (get_elem? m.fd_contexts fd ≡ some c)
        × ((bit_and c.events (event_bits e) == 0) ≡ true))

-- What epoll_ctl answers when the event is to go and the others of the descriptor stay.
abbrev pub Answers : Ctl → IoManager → ℕ → Event → Bool → Type 0
Answers ctl m fd e ok =
    (c : FdContext) × (get_elem? m.fd_contexts fd ≡ some c)
    × (leave ctl fd (clear_bits c.events (event_bits e)) ≡ ok)

-- In n, the event that was registered in m is gone: its context is idle and its bit cleared, the
-- descriptor's other event and all other descriptors are as they were, one event less is pending, and
-- `ts` are the tasks that this queued.
pub record Gone (m : IoManager) (fd : ℕ) (e : Event) (c : FdContext) (ts : List (ℕ × Task))
    (n : IoManager) : Type 0 where
  pub valid : IsValid n
  pub shape : Registered
  pub was : (get_elem? m.fd_contexts fd ≡ some c) × Shape shape c × (has e shape ≡ true)
  pub now : get_elem? n.fd_contexts fd ≡ some (freed e shape c)
  pub others : (j : ℕ) → fd ≢ j → get_elem? n.fd_contexts j ≡ get_elem? m.fd_contexts j
  pub same_length : length n.fd_contexts ≡ length m.fd_contexts
  pub pending : n.pending_event_count + 1 ≡ m.pending_event_count
  pub queued : n.scheduled ≡ m.scheduled ++ ts

-- The task of the event, taken from its context, is queued for the scheduler that it names.
pub record Triggered (m : IoManager) (fd : ℕ) (e : Event) (n : IoManager) : Type 0 where
  pub scheduler : ℕ
  pub task : Task
  pub context : FdContext
  pub gone : Gone m fd e context ((scheduler, task) ∷ []) n
  pub held : get_context e context ≡ holding scheduler task

module _ (m : IoManager) (fd : ℕ) (e : Event) (v : IsValid m) (g : Registered) (c : FdContext)
    (at : get_elem? m.fd_contexts fd ≡ some c) (w : Shape g c) (h : has e g ≡ true) where
  pub freed-Gone : (ts : List (ℕ × Task)) → Gone m fd e c ts (triggered m fd (freed e g c, ts))
  freed-Gone ts =
      let d = freed e g c in
      let fewer =
        less m fd c d (off e g) (m.scheduled ++ ts) v at (freed-Shape e g c w) (freed-fd e g c) (
          ap weight w.events_is
          ∙ weight-off e g h
          ∙ ap (λ k. weight k + 1) (sym (freed-Shape e g c w).events_is)) in
      record {
        valid = fewer.0;
        shape = g;
        was = (at, w, h);
        now = get_elem?-set_self m.fd_contexts fd d (found-lt m.fd_contexts fd at);
        others = λ j k. get_elem?-set_ne m.fd_contexts d k;
        same_length = length-set m.fd_contexts fd d;
        pending = fewer.1;
        queued = refl;
      }

  pub trigger_Triggered :
      (s : ℕ) × (t : Task) × (trigger_event e c ≡ some (freed e g c, (s, t) ∷ []))
      × Triggered m fd e (triggered m fd (freed e g c, (s, t) ∷ []))
  trigger_Triggered =
      let (s, t, q, fires) = trigger_event_lem e g c w h in
      (
        s,
        t,
        fires,
        record { scheduler = s; task = t; context = c; gone = freed-Gone ((s, t) ∷ []); held = q },
      )

cleared :
    {c : FdContext} (e : Event) {g : Registered}
    → Shape g c
    → put_context e empty_context (record c { events = clear_bits c.events (event_bits e) })
      ≡ freed e g c
cleared {c} e {g} v =
    ap (λ k. put_context e empty_context (record c { events = k }))
      (ap (λ n. clear_bits n (event_bits e)) v.events_is ∙ off_lem e g)

-- The context at `fd` and whether the event is registered there.
record Place (m : IoManager) (fd : ℕ) (e : Event) (b : Bool) : Type 0 where
  context : FdContext
  shape : Registered
  in_range : int_le (length m.fd_contexts) fd ≡ false
  at : get_elem? m.fd_contexts fd ≡ some context
  fits : Shape shape context
  bit : has e shape ≡ b
  test : (bit_and context.events (event_bits e) == 0) ≡ not b

place :
    (m : IoManager) (fd : ℕ) (e : Event)
    → IsValid m
    → FitsInt m
    → ((int_le (length m.fd_contexts) fd ≡ true) × (length m.fd_contexts ≤ fd))
      ⊎ ((b : Bool) × Place m fd e b)
place m fd e v s = elim (Bool-cases (leb (length m.fd_contexts) fd)) [
  | inl h ↦ inl (int_le_lem (length m.fd_contexts) fd s ∙ h, leb→le _ _ h)
  | inr h ↦
      let (c, q) = found m.fd_contexts fd (leb-false→lt _ _ h) in
      let r = Shape-at 0 m.fd_contexts fd c v.shaped q in
      inr (
        has e r.0.0,
        record {
          context = c;
          shape = r.0.0;
          in_range = int_le_lem (length m.fd_contexts) fd s ∙ h;
          at = q;
          fits = r.0.1;
          bit = refl;
          test = test_lem e r.0.1 refl;
        },
      )
]

-- In a well-formed state of fewer than 2 ^ 31 contexts, delEvent returns false and changes nothing, and then the event is not
-- registered or epoll_ctl refuses; or it returns true, epoll_ctl has agreed, and the event that was
-- registered is gone and nothing queued. The state stays well formed, and the other contexts are as
-- before.
pub del_event_lem :
    (ctl : Ctl) (m : IoManager) (fd : ℕ) (e : Event)
    → IsValid m
    → FitsInt m
    → ((del_event ctl m fd e ≡ some (false, m)) × (Unregistered m fd e ⊎ Answers ctl m fd e false))
      ⊎ ((n : IoManager) × (del_event ctl m fd e ≡ some (true, n))
          × Answers ctl m fd e true
          × ((c : FdContext) × Gone m fd e c [] n))
unfolding del_event
del_event_lem ctl m fd e v s = elim (place m fd e v s) [
  | inl (h, l) ↦ inl (rw h refl, inl (inl l))
  | inr (false, p) ↦ inl (rw (p.in_range, p.at, p.test) refl, inl (inr (p.context, p.at, p.test)))
  | inr (true, p) ↦ elim (Bool-cases (leave ctl fd (clear_bits p.context.events (event_bits e)))) [
    | inl k ↦ inr (
      triggered m fd (freed e p.shape p.context, []),
      rw (p.in_range, p.at, p.test, k, cleared e p.fits, append-nil m.scheduled) refl,
      (p.context, p.at, k),
      (p.context, freed-Gone m fd e v p.shape p.context p.at p.fits p.bit []),
    )
    | inr k ↦ inl (rw (p.in_range, p.at, p.test, k) refl, inr (p.context, p.at, k))
  ]
]

-- In a well-formed state of fewer than 2 ^ 31 contexts, cancelEvent returns false and changes nothing, and then the event is not
-- registered or epoll_ctl refuses; or it returns true, epoll_ctl has agreed, and the event that was
-- registered is gone and its one task queued for its scheduler. The state stays well formed, and the
-- other contexts are as before.
pub cancel_event_lem :
    (ctl : Ctl) (m : IoManager) (fd : ℕ) (e : Event)
    → IsValid m
    → FitsInt m
    → ((cancel_event ctl m fd e ≡ some (false, m))
        × (Unregistered m fd e ⊎ Answers ctl m fd e false))
      ⊎ ((n : IoManager) × (cancel_event ctl m fd e ≡ some (true, n))
          × Answers ctl m fd e true
          × Triggered m fd e n)
unfolding cancel_event
cancel_event_lem ctl m fd e v s = elim (place m fd e v s) [
  | inl (h, l) ↦ inl (rw h refl, inl (inl l))
  | inr (false, p) ↦ inl (rw (p.in_range, p.at, p.test) refl, inl (inr (p.context, p.at, p.test)))
  | inr (true, p) ↦ elim (Bool-cases (leave ctl fd (clear_bits p.context.events (event_bits e)))) [
    | inl k ↦
        let fires = trigger_Triggered m fd e v p.shape p.context p.at p.fits p.bit in
        inr (
          triggered m fd (freed e p.shape p.context, (fires.0, fires.1) ∷ []),
          rw (p.in_range, p.at, p.test, k, fires.2) refl,
          (p.context, p.at, k),
          fires.3,
        )
    | inr k ↦ inl (rw (p.in_range, p.at, p.test, k) refl, inr (p.context, p.at, k))
  ]
]
