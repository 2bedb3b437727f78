-- ===== src/IoManager/Dispatch.antt =====
-- cancelAll, and idle's handling of one event of epoll_wait, on well-formed states.
use exhy.Common.{
  int_le_lem, ℕ, ◌≤◌, bit_and, bit_or, Bool, true, false, not, ◌≡◌, refl, sym, ap, ◌∙◌, ◌⊎◌, inl,
  inr, some, if◌then◌else◌, ◌==◌, leb, leb→le, leb-false→lt, Bool-cases, length, get_elem?,
}
use exhy.IoManager.{
  FitsInt, Ctl, ctl_del, read_event, write_event, event_bits, FdContext, IoManager, clear_bits,
  leave, widen, real_events, cancel_all, handle_event,
}
use exhy.IoManager.Slots.{Registered, mask, Shape, has_lem}
use exhy.IoManager.Invariant.{IsValid, Shape-at, found}
use exhy.IoManager.Drain.{minus, Drained, Within, events_of, drain}

write_left :
    (g : Registered)
    → (bit_and (mask (minus g (g.0, false))) (event_bits write_event) == 0) ≡ not g.1
unfolding event_bits
write_left (false, false) = refl
write_left (false, true) = refl
write_left (true, false) = refl
write_left (true, true) = refl

minus_self : (g : Registered) → mask (minus g g) ≡ 0
minus_self (false, false) = refl
minus_self (false, true) = refl
minus_self (true, false) = refl
minus_self (true, true) = refl

-- In a well-formed state of fewer than 2 ^ 31 contexts, cancelAll returns false and changes nothing, and then the descriptor has
-- no context or no registered event, or epoll_ctl refuses; or it returns true, epoll_ctl has agreed,
-- all tasks that waited on the descriptor are queued, the reader's first, no event of it is left,
-- and m_pendingEventCount is less by their number. The state stays well formed.
pub cancel_all_lem :
    (ctl : Ctl) (m : IoManager) (fd : ℕ)
    → IsValid m
    → FitsInt m
    → ((cancel_all ctl m fd ≡ some (false, m))
        × ((length m.fd_contexts ≤ fd)
            ⊎ ((c : FdContext) × (get_elem? m.fd_contexts fd ≡ some c)
                × (((c.events == 0) ≡ true) ⊎ (ctl ctl_del fd 0 ≡ false)))))
      ⊎ ((n : IoManager) × (c : FdContext) × (g : Registered) × (cancel_all ctl m fd
            ≡ some (true, n))
          × (get_elem? m.fd_contexts fd ≡ some c)
          × Shape g c
          × (ctl ctl_del fd 0 ≡ true)
          × Drained m fd c g g n)
unfolding cancel_all
cancel_all_lem ctl m fd v s = elim (Bool-cases (leb (length m.fd_contexts) fd)) [
  | inl h ↦ inl (rw (int_le_lem (length m.fd_contexts) fd s, h) refl, inl (leb→le _ _ h))
  | inr h ↦
      let (c, at) = found m.fd_contexts fd (leb-false→lt _ _ h) in
      let ((g, w), same) = Shape-at 0 m.fd_contexts fd c v.shaped at in
      let first = events_of m fd g c at w.events_is in
      elim (Bool-cases (mask g == 0)) [
        | inl z ↦ inl (
          rw (int_le_lem (length m.fd_contexts) fd s, h, first, z) refl,
          inr (c, at, inl (rw w.events_is z)),
        )
        | inr z ↦ elim (Bool-cases (ctl ctl_del fd 0)) [
          | inl k ↦
              let (n1, n, e1, mid, e2, d) =
                drain m fd g c g (mask g) (mask (minus g (g.0, false))) v at w ((λ p. p), (λ p. p))
                  (has_lem read_event g) (write_left g) in
              inr (
                n,
                c,
                g,
                rw
                    (
                      int_le_lem (length m.fd_contexts) fd s,
                      h,
                      first,
                      z,
                      k,
                      e1,
                      mid,
                      e2,
                      events_of n fd (minus g g) d.context d.now.0 d.now.1.events_is,
                      minus_self g,
                    )
                    refl,
                at,
                w,
                k,
                d,
              )
          | inr k ↦
              inl (
                rw (int_le_lem (length m.fd_contexts) fd s, h, first, z, k) refl,
                inr (c, at, inr k),
              )
        ]
      ]
]

-- The events that a reported mask makes ready on a context: READ or WRITE where epoll reports it, and on
-- an error or a hang-up also where it is registered.
abbrev pub ready : ℕ → ℕ → Registered
ready reported events =
    (not (bit_and (widen reported events) 1 == 0), not (bit_and (widen reported events) 4 == 0))

-- Of two tests, the mask that idle collects.
both_bits :
    (a b : Bool)
    → (if b then (if a then 0 else 1) else bit_or (if a then 0 else 1) 4) ≡ mask (not a, not b)
both_bits true true = refl
both_bits true false = refl
both_bits false true = refl
both_bits false false = refl

pub real_events_lem :
    (reported events : ℕ) → real_events reported events ≡ mask (ready reported events)
unfolding real_events
real_events_lem reported events =
    both_bits (bit_and (widen reported events) 1 == 0) (bit_and (widen reported events) 4 == 0)

-- In a well-formed state, with every ready event registered in the descriptor's context c, of shape
-- g: idle does nothing, and then no event is ready or epoll_ctl refuses to keep just the events that
-- are left; or it drops the ready events from the context, queues their tasks, the reader's first,
-- and lowers m_pendingEventCount by their number. The state stays well formed.
pub handle_event_lem :
    (ctl : Ctl) (m : IoManager) (fd reported : ℕ) (c : FdContext) (g : Registered)
    → IsValid m
    → get_elem? m.fd_contexts fd ≡ some c
    → Shape g c
    → Within (ready reported c.events) g
    → let q = ready reported c.events in
      ((handle_event ctl m fd reported ≡ some m)
        × (((bit_and (mask g) (mask q) == 0) ≡ true)
            ⊎ (leave ctl fd (clear_bits (mask g) (mask q)) ≡ false)))
      ⊎ ((n : IoManager) × (handle_event ctl m fd reported ≡ some n)
          × ((bit_and (mask g) (mask q) == 0) ≡ false)
          × (leave ctl fd (clear_bits (mask g) (mask q)) ≡ true)
          × Drained m fd c g q n)
unfolding handle_event
handle_event_lem ctl m fd reported c g v at w z =
    let q = ready reported c.events in
    let real = real_events_lem reported c.events in
    let real' : real_events reported (mask g) ≡ mask q =
      ap (real_events reported) (sym w.events_is) ∙ real in
    let seen = events_of m fd g c at w.events_is in
    elim (Bool-cases (bit_and (mask g) (mask q) == 0)) [
      | inl h ↦ inl (rw (seen, real', h) refl, inl h)
      | inr h ↦ elim (Bool-cases (leave ctl fd (clear_bits (mask g) (mask q)))) [
        | inr k ↦ inl (rw (seen, real', h, k) refl, inr k)
        | inl k ↦
            let (n1, n, e1, mid, e2, d) =
              drain m fd g c q (mask q) (mask q) v at w z (has_lem read_event q)
                (has_lem write_event q) in
            inr (n, rw (seen, real', h, k, e1, e2) refl, h, k, d)
      ]
    ]
