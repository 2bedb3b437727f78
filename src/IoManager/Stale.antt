-- ===== src/IoManager/Stale.antt =====
-- An event that epoll_wait reported for a context which no longer waits for it.
use exhy.Common.{
  ℕ, bit_and, Bool, true, false, not, ◌≡◌, refl, sym, ap, ◌∙◌, [], ◌∷◌, none, some, ◌==◌, get_elem?,
}
use exhy.IoManager.{
  Ctl, Event, read_event, write_event, event_bits, FdContext, IoManager, trigger_event, triggered,
  leave, trigger_if, real_events, handle_event,
}
use exhy.IoManager.Slots.{Registered, mask, has, Shape, has_lem, freed, freed-Shape, test_lem}
use exhy.IoManager.Invariant.{IsValid}
use exhy.IoManager.Drain.{events_of, fire, at_freed}
use exhy.IoManager.Dispatch.{ready, real_events_lem}

-- triggerEvent asserts that the event is registered.
fails :
    (m : IoManager) (fd : ℕ) (c : FdContext) (g : Registered) (e : Event) (k : ℕ)
    → get_elem? m.fd_contexts fd ≡ some c
    → Shape g c
    → has e g ≡ false
    → (bit_and k (event_bits e) == 0) ≡ false
    → trigger_if k e fd m ≡ none
unfolding trigger_if trigger_event
fails m fd c g e k at w h p = rw (p, at, test_lem e w h) refl

-- In a well-formed state, where READ and WRITE are reported ready and epoll_ctl agrees, and just one
-- of them is still registered (the other was deleted or canceled after epoll_wait returned),
-- triggerEvent's assertion fails in idle.
pub handle_event_stale :
    (ctl : Ctl) (m : IoManager) (fd reported : ℕ) (c : FdContext) (r : Bool)
    → IsValid m
    → get_elem? m.fd_contexts fd ≡ some c
    → Shape (r, not r) c
    → ready reported c.events ≡ (true, true)
    → leave ctl fd 0 ≡ true
    → handle_event ctl m fd reported ≡ none
unfolding handle_event
handle_event_stale ctl m fd reported c true v at w z k =
    let real : real_events reported 1 ≡ 5 =
      ap (real_events reported) (sym w.events_is) ∙ real_events_lem reported c.events ∙ ap mask z in
    let (s, t, held, fires, gone) = fire m fd v (true, false) c at w read_event refl in
    let d = freed read_event (true, false) c in
    let ts = (s, t) ∷ [] in
    let n = triggered m fd (d, ts) in
    let late =
      fails n fd d (false, false) write_event 5 (at_freed m fd (true, false) c ts read_event at)
        (freed-Shape read_event (true, false) c w) refl (has_lem write_event (true, true)) in
    rw
      (
        events_of m fd (true, false) c at w.events_is,
        real,
        k,
        fires 5 (has_lem read_event (true, true)),
        late,
      )
      refl
handle_event_stale ctl m fd reported c false v at w z k =
    let real : real_events reported 4 ≡ 5 =
      ap (real_events reported) (sym w.events_is) ∙ real_events_lem reported c.events ∙ ap mask z in
    let early =
      fails m fd c (false, true) read_event 5 at w refl (has_lem read_event (true, true)) in
    rw (events_of m fd (false, true) c at w.events_is, real, k, early) refl
