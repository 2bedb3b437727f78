-- ===== src/IoManager/Invariant.antt =====
-- The well-formed states of the IO manager: masks and contexts agree, every context knows its
-- descriptor, and m_pendingEventCount counts the registered events.
use exhy.Common.{
  get_elem?-append_left, ℕ, zero, suc, ◌+◌, ◌-◌, ◌*◌, ◌≤◌, ◌<◌, bit_and, false, ◌≡◌, refl, ap,
  subst, ◌∙◌, List, [], ◌∷◌, ◌++◌, some, if◌then◌else◌, ◌==◌, arith, length, take, get_elem?, set,
  length-append, length-set, take_all,
}
use exhy.IoManager.{
  FdContext, IoManager, Task, size_mod, up, down, new_contexts, context_resize, new_iomanager,
}
use exhy.IoManager.Slots.{Registered, Shape, new_context-Shape}

-- The events of a mask.
abbrev pub weight : ℕ → ℕ
weight n = (if bit_and n 1 == 0 then 0 else 1) + (if bit_and n 4 == 0 then 0 else 1)

abbrev pub registered : List FdContext → ℕ
registered [] = 0
registered (c ∷ cs) = weight c.events + registered cs

weight-le : (n : ℕ) → weight n ≤ 2
weight-le n = ground arith

registered-le : (cs : List FdContext) → registered cs ≤ 2 * length cs
registered-le [] = omega arith
registered-le (c ∷ cs) = omega (arith, weight-le c.events, registered-le cs)

registered-set :
    (cs : List FdContext) (i : ℕ) (c d : FdContext)
    → get_elem? cs i ≡ some c
    → registered (set cs i d) + weight c.events ≡ registered cs + weight d.events
registered-set [] i c d h = cc
registered-set (x ∷ cs) zero c d h = let e : x ≡ c = cc in rw e (omega arith)
registered-set (x ∷ cs) (suc i) c d h = omega (arith, registered-set cs i c d h)

pub found-lt :
    (cs : List FdContext) (i : ℕ) {c : FdContext} → get_elem? cs i ≡ some c → i < length cs
found-lt [] i h = cc
found-lt (x ∷ cs) zero h = omega arith
found-lt (x ∷ cs) (suc i) h = omega (arith, found-lt cs i h)

pub found :
    (cs : List FdContext) (i : ℕ) → i < length cs → (c : FdContext) × (get_elem? cs i ≡ some c)
found [] i h = elim h [ ]
found (x ∷ cs) zero h = (x, refl)
found (x ∷ cs) (suc i) h = found cs i (omega arith)

-- Each context's mask and slots agree, and it knows its index, counted from k on.
abbrev pub Shaped : ℕ → List FdContext → Type 0
Shaped k [] = Unit
Shaped k (c ∷ cs) = ((g : Registered) × Shape g c) × (c.fd ≡ k) × Shaped (suc k) cs

pub record IsValid (m : IoManager) : Type 0 where
  pub shaped : Shaped 0 m.fd_contexts
  pub counted : m.pending_event_count ≡ registered m.fd_contexts
  pub room : 2 * length m.fd_contexts < size_mod

pub Shape-at :
    (k : ℕ) (cs : List FdContext) (i : ℕ) (c : FdContext)
    → Shaped k cs
    → get_elem? cs i ≡ some c
    → ((g : Registered) × Shape g c) × (c.fd ≡ k + i)
Shape-at k [] i c v h = cc
Shape-at k (x ∷ cs) zero c v h =
    let e : x ≡ c = cc in
    (subst (λ y. (g : Registered) × Shape g y) e v.0, omega (arith, ap (λ y. y.fd) e, v.1))
Shape-at k (x ∷ cs) (suc i) c v h =
    let r = Shape-at (suc k) cs i c v.2 h in (r.0, omega (arith, r.1))

Shaped-set :
    (k : ℕ) (cs : List FdContext) (i : ℕ) (g : Registered) (d : FdContext)
    → Shaped k cs
    → Shape g d
    → d.fd ≡ k + i
    → Shaped k (set cs i d)
Shaped-set k [] i g d v w h = tt
Shaped-set k (x ∷ cs) zero g d v w h = ((g, w), omega arith, v.2)
Shaped-set k (x ∷ cs) (suc i) g d v w h =
    (v.0, v.1, Shaped-set (suc k) cs i g d v.2 w (omega arith))

Shaped-append :
    (k : ℕ) (cs ds : List FdContext) → Shaped k cs → Shaped (k + length cs) ds → Shaped k (cs ++ ds)
Shaped-append k [] ds v w = subst (λ n. Shaped n ds) (omega arith) w
Shaped-append k (x ∷ cs) ds v w =
    (v.0, v.1, Shaped-append (suc k) cs ds v.2 (subst (λ n. Shaped n ds) (omega arith) w))

Shaped-new_contexts : (k n : ℕ) → Shaped k (new_contexts k n)
unfolding new_contexts
Shaped-new_contexts k zero = tt
Shaped-new_contexts k (suc n) = (
  ((false, false), new_context-Shape k),
  refl,
  subst (λ j. Shaped j (new_contexts (k + 1) n)) (omega arith) (Shaped-new_contexts (k + 1) n),
)

registered-append : (cs ds : List FdContext) → registered (cs ++ ds) ≡ registered cs + registered ds
registered-append [] ds = omega arith
registered-append (c ∷ cs) ds = omega (arith, registered-append cs ds)

registered-new_contexts : (k n : ℕ) → registered (new_contexts k n) ≡ 0
unfolding new_contexts
registered-new_contexts k zero = refl
registered-new_contexts k (suc n) = omega (arith, registered-new_contexts (k + 1) n)

length-new_contexts : (k n : ℕ) → length (new_contexts k n) ≡ n
unfolding new_contexts
length-new_contexts k zero = refl
length-new_contexts k (suc n) = ap suc (length-new_contexts (k + 1) n)

-- In a well-formed state, contextResize to a size that is not smaller, and below 2 ^ 63, keeps every
-- context and the number of pending events, and leaves a well-formed state of that many contexts.
pub context_resize_lem :
    (m : IoManager) (size : ℕ)
    → IsValid m
    → length m.fd_contexts ≤ size
    → 2 * size < size_mod
    → IsValid (context_resize size m)
      × (length (context_resize size m).fd_contexts ≡ size)
      × ((i : ℕ)
          → i < length m.fd_contexts
          → get_elem? (context_resize size m).fd_contexts i ≡ get_elem? m.fd_contexts i)
      × ((context_resize size m).pending_event_count ≡ m.pending_event_count)
unfolding context_resize
context_resize_lem m size v h k =
    let cs = m.fd_contexts in
    let n = length cs in
    let same : take size cs ≡ cs = take_all size cs h in
    let ds = new_contexts n (size - n) in
    let long : length (cs ++ ds) ≡ size =
      omega (arith, length-append cs ds, length-new_contexts n (size - n)) in
    rw same (
      record {
        shaped =
            Shaped-append 0 cs ds v.shaped
              (subst (λ j. Shaped j ds) (omega arith) (Shaped-new_contexts n (size - n)));
        counted =
            omega (arith, v.counted, registered-append cs ds, registered-new_contexts n (size - n));
        room = omega (arith, long);
      },
      long,
      λ i q. get_elem?-append_left cs ds i q,
      refl,
    )

-- The constructor leaves a well-formed state of 32 contexts.
pub new_iomanager-IsValid : IsValid new_iomanager × (length new_iomanager.fd_contexts ≡ 32)
unfolding new_iomanager
new_iomanager-IsValid =
    let r =
      context_resize_lem (record { fd_contexts = []; pending_event_count = 0; scheduled = [] }) 32
        (record { shaped = tt; counted = refl; room = omega arith }) (omega arith) (omega arith) in
    (r.0, r.1)

up-small : (n : ℕ) → n + 1 < size_mod → up n ≡ n + 1
up-small n h = omega arith

down-pos : (n : ℕ) → 0 < n → n < size_mod → down n + 1 ≡ n
down-pos n h k = omega arith

-- One context is replaced by one with an event less, and m_pendingEventCount follows.
module _ (m : IoManager) (fd : ℕ) (c d : FdContext) (g : Registered) (q : List (ℕ × Task))
    (v : IsValid m) (at : get_elem? m.fd_contexts fd ≡ some c) (w : Shape g d)
    (same : d.fd ≡ c.fd) where
  place : Shaped 0 (set m.fd_contexts fd d)
  place =
      Shaped-set 0 m.fd_contexts fd g d v.shaped w
        (same ∙ (Shape-at 0 m.fd_contexts fd c v.shaped at).1)

  small : 2 * length (set m.fd_contexts fd d) < size_mod
  small = omega (arith, length-set m.fd_contexts fd d, v.room)

  pub less :
      weight c.events ≡ weight d.events + 1
      → IsValid (record {
        fd_contexts = set m.fd_contexts fd d;
        pending_event_count = down m.pending_event_count;
        scheduled = q;
      })
        × (down m.pending_event_count + 1 ≡ m.pending_event_count)
  less h =
      let total = registered-set m.fd_contexts fd c d at in
      let fall =
        down-pos m.pending_event_count (omega (arith, v.counted, total))
          (omega (arith, v.counted, v.room, registered-le m.fd_contexts)) in
      (
        record { shaped = place; counted = omega (arith, fall, total, v.counted); room = small },
        fall,
      )

  pub more :
      weight d.events ≡ weight c.events + 1
      → IsValid (record {
        fd_contexts = set m.fd_contexts fd d;
        pending_event_count = up m.pending_event_count;
        scheduled = q;
      })
        × (up m.pending_event_count ≡ m.pending_event_count + 1)
  more h =
      let total = registered-set m.fd_contexts fd c d at in
      let rise = up-small m.pending_event_count (
        omega (
          arith,
          v.counted,
          total,
          v.room,
          registered-le (set m.fd_contexts fd d),
          length-set m.fd_contexts fd d,
        )) in
      (
        record { shaped = place; counted = omega (arith, rise, total, v.counted); room = small },
        rise,
      )
