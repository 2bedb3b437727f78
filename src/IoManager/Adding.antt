-- ===== src/IoManager/Adding.antt =====
-- addEvent on well-formed states.
use exhy.Common.{
  leb-false→lt, leb→le, leb, int_le_lem, ℕ, ◌+◌, ◌*◌, ◌/◌, ◌^◌, ◌≤◌, ◌<◌, bit_or, Bool, true, false,
  ◌≡◌, ◌≢◌, refl, sym, ap, subst, ◌∙◌, ◌⊎◌, inl, inr, Option, none, some, if◌then◌else◌, ◌==◌,
  arith, Bool-cases, length, get_elem?, set, length-set, get_elem?-set_self, get_elem?-set_ne,
}
use exhy.IoManager.{
  FitsInt, Ctl, ctl_add, ctl_mod, epollet, Event, read_event, write_event, event_bits, FdContext,
  IoManager, Caller, Task, run_fiber, run_cb, up, get_context, put_context, empty_context, waiting,
  grown_for, context_resize, add_to, add_event,
}
use exhy.IoManager.Slots.{
  Registered, mask, has, on, holding, Shape, Slot, on_lem, filled, filled-Shape, filled-fd,
  is_empty_lem, test_lem,
}
use exhy.IoManager.Invariant.{IsValid, weight, Shape-at, found, context_resize_lem, more}

-- With room for `fd` the contexts stay; else there are fd * 3 / 2 of them afterwards, which is room
-- enough as there are always 32.
grown_for_lem :
    (m : IoManager) (fd : ℕ)
    → IsValid m
    → 32 ≤ length m.fd_contexts
    → FitsInt m
    → fd < 2 ^ 31
    → IsValid (grown_for fd m)
      × (fd < length (grown_for fd m).fd_contexts)
      × ((i : ℕ)
          → i < length m.fd_contexts
          → get_elem? (grown_for fd m).fd_contexts i ≡ get_elem? m.fd_contexts i)
      × ((grown_for fd m).pending_event_count ≡ m.pending_event_count)
      × (length m.fd_contexts ≤ length (grown_for fd m).fd_contexts)
      × ((grown_for fd m).scheduled ≡ m.scheduled)
unfolding grown_for context_resize
grown_for_lem m fd v h b k = elim (Bool-cases (leb (length m.fd_contexts) fd)) [
  | inr p ↦
      rw (int_le_lem (length m.fd_contexts) fd b, p)
        (v, leb-false→lt _ _ p, (λ i q. refl), refl, omega arith, refl)
  | inl p ↦
      let far : length m.fd_contexts ≤ fd = leb→le _ _ p in
      let (w, len, same, pend) = context_resize_lem m (fd * 3 / 2) v (omega arith) (omega arith) in
      rw (int_le_lem (length m.fd_contexts) fd b, p)
        (w, omega (arith, len), same, pend, omega (arith, len), refl)
]

abbrev pub task_of : Caller → Option ℕ → Task
task_of at (some k) = run_cb k
task_of at none = run_fiber at.fiber

-- In n, the event is registered at `fd` with the task and the scheduler of the call, one event more is
-- pending, nothing is queued, and the contexts of all other descriptors are as they were, or new.
pub record Added (at : Caller) (s : ℕ) (m : IoManager) (fd : ℕ) (e : Event) (cb : Option ℕ)
    (g : Registered) (c : FdContext) (n : IoManager) : Type 0 where
  pub valid : IsValid n
  pub now : get_elem? n.fd_contexts fd ≡ some (filled e g (holding s (task_of at cb)) c)
  pub others :
      (j : ℕ)
      → fd ≢ j
      → j < length m.fd_contexts
      → get_elem? n.fd_contexts j ≡ get_elem? m.fd_contexts j
  pub rest : (j : ℕ) → fd ≢ j → get_elem? n.fd_contexts j ≡ get_elem? (grown_for fd m).fd_contexts j
  pub pending : n.pending_event_count ≡ m.pending_event_count + 1
  pub queued : n.scheduled ≡ m.scheduled
  pub longer : length m.fd_contexts ≤ length n.fd_contexts

weight-on :
    (e : Event) (g : Registered) → has e g ≡ false → weight (mask (on e g)) ≡ weight (mask g) + 1
weight-on read_event (false, false) h = refl
weight-on read_event (false, true) h = refl
weight-on write_event (false, false) h = refl
weight-on write_event (true, false) h = refl
weight-on read_event (true, w) h = cc
weight-on write_event (r, true) h = cc

waiting_lem :
    (at : Caller) (s : ℕ) (cb : Option ℕ)
    → at.scheduler ≡ some s
    → at.is_exec ≡ true
    → waiting at cb ≡ some (holding s (task_of at cb))
unfolding waiting
waiting_lem at s (some k) h x = rw h refl
waiting_lem at s none h x = rw (h, x) refl

-- What epoll_ctl is asked to take: the operation is EPOLL_CTL_ADD for the descriptor's first event.
abbrev pub Asks : Ctl → ℕ → FdContext → Event → Bool → Type 0
Asks ctl fd c e ok =
    ctl (if c.events == 0 then ctl_add else ctl_mod) fd
      (bit_or (bit_or epollet c.events) (event_bits e))
    ≡ ok

idle_put :
    (e : Event) (g : Registered) (c : FdContext)
    → Shape g c
    → has e g ≡ false
    → get_context e (record c { events = bit_or c.events (event_bits e) }) ≡ empty_context
idle_put read_event g c v h = subst (λ b. Slot b c.read) h v.reads
idle_put write_event g c v h = subst (λ b. Slot b c.write) h v.writes

module _ (ctl : Ctl) (at : Caller) (s fd : ℕ) (c : FdContext) (g : Registered) (e : Event)
    (cb : Option ℕ) (w : Shape g c) (sch : at.scheduler ≡ some s) (ex : at.is_exec ≡ true) where
  add_to_twice : has e g ≡ true → add_to ctl at fd c e cb ≡ none
  unfolding add_to
  add_to_twice h = rw (test_lem e w h) refl

  add_to_refused :
      has e g ≡ false → Asks ctl fd c e false → add_to ctl at fd c e cb ≡ some (false, c)
  unfolding add_to
  add_to_refused h k = rw (test_lem e w h, k) refl

  add_to_done :
      has e g ≡ false
      → Asks ctl fd c e true
      → add_to ctl at fd c e cb ≡ some (true, filled e g (holding s (task_of at cb)) c)
  unfolding add_to
  add_to_done h k =
      let bits = ap (λ n. bit_or n (event_bits e)) w.events_is ∙ on_lem e g in
      rw (test_lem e w h, k, is_empty_lem _ (idle_put e g c w h), waiting_lem at s cb sch ex)
        (ap (λ n. some (true, put_context e (holding s (task_of at cb)) (record c { events = n })))
          bits)

-- In a well-formed state of at least 32 contexts and fewer than 2 ^ 31, for a descriptor below 2 ^ 31, where the caller
-- has a scheduler and its fiber is EXEC: addEvent finds or makes the descriptor's context, and where
-- the event is registered already, its assertion fails; where epoll_ctl refuses, it returns -1 and
-- at most the vector of contexts has grown; else it returns 0, the event waits with its task, one
-- event more is pending, and the state is well formed.
pub add_event_lem :
    (ctl : Ctl) (at : Caller) (s : ℕ) (m : IoManager) (fd : ℕ) (e : Event) (cb : Option ℕ)
    → IsValid m
    → 32 ≤ length m.fd_contexts
    → FitsInt m
    → fd < 2 ^ 31
    → at.scheduler ≡ some s
    → at.is_exec ≡ true
    → (c : FdContext) × (g : Registered) × (get_elem? (grown_for fd m).fd_contexts fd ≡ some c)
      × Shape g c
      × (((has e g ≡ true) × (add_event ctl at m fd e cb ≡ none))
          ⊎ ((has e g ≡ false)
              × Asks ctl fd c e false
              × (add_event ctl at m fd e cb ≡ some (false, grown_for fd m))
              × IsValid (grown_for fd m))
          ⊎ ((has e g ≡ false)
              × Asks ctl fd c e true
              × ((n : IoManager) × (add_event ctl at m fd e cb ≡ some (true, n))
                  × Added at s m fd e cb g c n)))
unfolding add_event
add_event_lem ctl at s m fd e cb v h bound k sch ex =
    let (wide, room, same, pend, longer, queue) = grown_for_lem m fd v h bound k in
    let big = grown_for fd m in
    let (c, q) = found big.fd_contexts fd room in
    let ((g, w), num) = Shape-at 0 big.fd_contexts fd c wide.shaped q in
    (
      c,
      g,
      q,
      w,
      elim (Bool-cases (has e g)) [
        | inl b ↦ inl (b, rw (q, add_to_twice ctl at s fd c g e cb w sch ex b) refl)
        | inr b ↦
            elim (Bool-cases (
              ctl (if c.events == 0 then ctl_add else ctl_mod) fd
                (bit_or (bit_or epollet c.events) (event_bits e)))) [
                  | inr z ↦ inr (
                      inl
                        (b, z, rw (q, add_to_refused ctl at s fd c g e cb w sch ex b z) refl, wide))
                  | inl z ↦
                      let t = task_of at cb in
                      let d = filled e g (holding s t) c in
                      let fit = filled-Shape e g c s t w in
                      let grew =
                        more big fd c d (on e g) big.scheduled wide q fit
                          (filled-fd e g (holding s t) c)
                          (ap weight fit.events_is
                            ∙ weight-on e g b
                            ∙ ap (λ n. weight n + 1) (sym w.events_is)) in
                      inr (
                        inr (
                          b,
                          z,
                          (
                            record big {
                              fd_contexts = set big.fd_contexts fd d;
                              pending_event_count = up big.pending_event_count;
                            },
                            rw (q, add_to_done ctl at s fd c g e cb w sch ex b z) refl,
                            record {
                              valid = grew.0;
                              now = get_elem?-set_self big.fd_contexts fd d room;
                              others = λ j p i. get_elem?-set_ne big.fd_contexts d p ∙ same j i;
                              rest = λ j p. get_elem?-set_ne big.fd_contexts d p;
                              pending = grew.1 ∙ ap (λ n. n + 1) pend;
                              queued = queue;
                              longer =
                                  subst (λ n. length m.fd_contexts ≤ n)
                                    (sym (length-set big.fd_contexts fd d)) longer;
                            },
                          ),
                        ))
                ]
      ],
    )
