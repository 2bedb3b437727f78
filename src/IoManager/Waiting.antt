-- ===== src/IoManager/Waiting.antt =====
-- What waits on the contexts, as the board sees it.
use exhy.Common.{
  leb→le, leb, int_le_lem, ℕ, zero, suc, ◌+◌, ◌*◌, ◌/◌, ◌≤◌, true, false, not, ◌≡◌, ◌≢◌, refl, sym,
  ap, subst, ◌∙◌, inl, inr, List, [], ◌∷◌, ◌++◌, Option, none, some, arith, Bool-cases, length,
  take_all, get_elem?,
}
use exhy.IoManager.{
  Event, read_event, write_event, EventContext, FdContext, IoManager, Task, empty_context,
  new_contexts, context_resize, FitsInt, grown_for, get_context,
}
use exhy.IoManager.Slots.{Registered, has, Slot, Slot-of, Shape, freed, filled, test_lem}
use exhy.IoManager.Invariant.{IsValid, Shape-at}
use exhy.IoManager.Events.{Unregistered}
use exhy.IoManager.Drain.{task_in, task_in-holding}
use exhy.IoManager.Board.{waiting_in, board, Elsewhere}

pub waiting_in-at :
    (cs : List FdContext) (fd : ℕ) (e : Event) {c : FdContext}
    → get_elem? cs fd ≡ some c
    → waiting_in cs fd e ≡ task_in (get_context e c)
waiting_in-at cs fd e h = rw (waiting_in, h) refl

pub task_in-Slot : (x : EventContext) → Slot true x → (y : ℕ × Task) × (task_in x ≡ y ∷ [])
task_in-Slot x (s, t, h) = ((s, t), task_in-holding s t h)

pub task_in-free : (x : EventContext) → x ≡ empty_context → task_in x ≡ []
task_in-free x h = rw h refl

pub waiting_in-new_contexts : (k n j : ℕ) (e : Event) → waiting_in (new_contexts k n) j e ≡ []
unfolding new_contexts
waiting_in-new_contexts k zero j e = refl
waiting_in-new_contexts k (suc n) zero read_event = refl
waiting_in-new_contexts k (suc n) zero write_event = refl
waiting_in-new_contexts k (suc n) (suc j) e = waiting_in-new_contexts (k + 1) n j e

pub waiting_in-append :
    (cs : List FdContext) (k n j : ℕ) (e : Event)
    → waiting_in (cs ++ new_contexts k n) j e ≡ waiting_in cs j e
waiting_in-append [] k n j e = waiting_in-new_contexts k n j e
waiting_in-append (c ∷ cs) k n zero e = refl
waiting_in-append (c ∷ cs) k n (suc j) e = waiting_in-append cs k n j e

-- New contexts are free.
pub waiting_in-grown_for :
    (fd : ℕ) (m : IoManager)
    → FitsInt m
    → (j : ℕ) (e : Event)
    → waiting_in (grown_for fd m).fd_contexts j e ≡ waiting_in m.fd_contexts j e
unfolding grown_for context_resize
waiting_in-grown_for fd m s j e = elim (Bool-cases (leb (length m.fd_contexts) fd)) [
  | inr k ↦ rw (grown_for, int_le_lem (length m.fd_contexts) fd s, k) refl
  | inl k ↦
      let h : length m.fd_contexts ≤ fd * 3 / 2 =
        omega (arith, leb→le (length m.fd_contexts) fd k) in
      rw
        (
          grown_for,
          int_le_lem (length m.fd_contexts) fd s,
          k,
          take_all (fd * 3 / 2) m.fd_contexts h,
        )
        (waiting_in-append m.fd_contexts (length m.fd_contexts) _ j e)
]

pub freed-other :
    (e d : Event) (g : Registered) (c : FdContext)
    → e ≢ d
    → get_context d (freed e g c) ≡ get_context d c
freed-other read_event read_event g c h = absurd (h refl)
freed-other read_event write_event g c h = refl
freed-other write_event read_event g c h = refl
freed-other write_event write_event g c h = absurd (h refl)

pub filled-other :
    (e d : Event) (g : Registered) (x : EventContext) (c : FdContext)
    → e ≢ d
    → get_context d (filled e g x c) ≡ get_context d c
filled-other read_event read_event g x c h = absurd (h refl)
filled-other read_event write_event g x c h = refl
filled-other write_event read_event g x c h = refl
filled-other write_event write_event g x c h = absurd (h refl)

pub elsewhere_lem :
    (m n : IoManager) (fd : ℕ)
    → ((j : ℕ) → fd ≢ j → get_elem? n.fd_contexts j ≡ get_elem? m.fd_contexts j)
    → Elsewhere fd (board m) (board n)
elsewhere_lem m n fd h j d p =
    ap (λ (o : Option FdContext). elim o [ none ↦ [] | some c ↦ task_in (get_context d c) ]) (h j p)

-- What waits for a registered event, and for one that is not.
pub waiting-has :
    (m : IoManager) (fd : ℕ) (e : Event) (g : Registered) (c : FdContext)
    → get_elem? m.fd_contexts fd ≡ some c
    → Shape g c
    → has e g ≡ true
    → (x : ℕ × Task) × (waiting_in m.fd_contexts fd e ≡ x ∷ [])
waiting-has m fd e g c at w h =
    let (x, q) =
      task_in-Slot (get_context e c) (subst (λ b. Slot b (get_context e c)) h (Slot-of e g c w)) in
    (x, waiting_in-at m.fd_contexts fd e at ∙ q)

pub waiting-free :
    (m : IoManager) (fd : ℕ) (e : Event) (g : Registered) (c : FdContext)
    → get_elem? m.fd_contexts fd ≡ some c
    → Shape g c
    → has e g ≡ false
    → waiting_in m.fd_contexts fd e ≡ []
waiting-free m fd e g c at w h =
    waiting_in-at m.fd_contexts fd e at
    ∙ task_in-free (get_context e c) (subst (λ b. Slot b (get_context e c)) h (Slot-of e g c w))

pub waiting-beyond :
    (cs : List FdContext) (fd : ℕ) (e : Event) → length cs ≤ fd → waiting_in cs fd e ≡ []
waiting-beyond [] fd e h = refl
waiting-beyond (c ∷ cs) zero e h = absurd (omega arith)
waiting-beyond (c ∷ cs) (suc fd) e h = waiting-beyond cs fd e (omega arith)

pub waiting-Unregistered :
    (m : IoManager) (fd : ℕ) (e : Event)
    → IsValid m
    → Unregistered m fd e
    → waiting_in m.fd_contexts fd e ≡ []
waiting-Unregistered m fd e v (inl h) = waiting-beyond m.fd_contexts fd e h
waiting-Unregistered m fd e v (inr (c, at, h)) =
    let ((g, w), same) = Shape-at 0 m.fd_contexts fd c v.shaped at in
    let k : not (has e g) ≡ true = sym (test_lem e w refl) ∙ h in
    let q : has e g ≡ false = ground arith in waiting-free m fd e g c at w q
