-- ===== src/Timers.antt =====
-- exhy/exhy_timer.h and exhy/exhy_timer.cpp: timers and the set of them that is ordered by time.
--
-- A timer is known by its address, a number; `timers` says for each what it holds. The set m_timers is the
-- list of its elements in the order of Comparator. The clock is the parameter `now`, as GetCurrentMS
-- returns it; listExpiredCb also makes a temporary timer, whose address is the parameter `temp`. The
-- result `none` is the erasure of an element that is not there.
pub mod Order
mod Runs
pub mod Expiry
pub mod Invariant
pub mod Firing
pub mod Upkeep
use exhy.Common.{
  ℕ, ◌-◌, ◌*◌, ◌%◌, ◌^◌, Bool, true, false, not, ◌&&◌, ◌||◌, List, [], ◌∷◌, ◌++◌, Option, none,
  some, ◌>>=◌, if◌then◌else◌, ltb, leb, ◌==◌, size_mod, sub_size, add_size,
}

pub record Timer : Type 0 where
  pub recurring : Bool
  pub ms : ℕ
  pub next : ℕ
  pub cb : Option ℕ

pub record TimerManager : Type 0 where
  pub timers : ℕ → Timer
  pub set_of : List ℕ
  pub tickled : Bool
  pub previouse_time : ℕ

-- TimerManager(), over what the addresses hold.
pub new_timer_manager : ℕ → (ℕ → Timer) → TimerManager
new_timer_manager now timers = record {
  timers = timers;
  set_of = [];
  tickled = false;
  previouse_time = now;
}

abbrev pub Store : Type 0
Store = ℕ → Timer

pub put : ℕ → Timer → Store → Store
put a t ts b = if b == a then t else ts b

-- Comparator, on pointers that are not null.
pub before : Store → ℕ → ℕ → Bool
before ts a b =
    if ltb (ts a).next (ts b).next
    then true
    else (if ltb (ts b).next (ts a).next then false else ltb a b)

pub insert : Store → ℕ → List ℕ → List ℕ
insert ts a [] = a ∷ []
insert ts a (b ∷ bs) =
    let rest = insert ts a bs in
    if before ts a b then a ∷ b ∷ bs else if before ts b a then b ∷ rest else b ∷ bs

-- erase(find(a)): the element that is equivalent to `a`, if there is one.
pub erase : Store → ℕ → List ℕ → Option (List ℕ)
erase ts a [] = none
erase ts a (b ∷ bs) =
    let rest = erase ts a bs >>= λ cs. some (b ∷ cs) in
    if before ts a b then rest else if before ts b a then rest else some bs

pub first_is : ℕ → List ℕ → Bool
first_is a [] = false
first_is a (b ∷ bs) = a == b

pub null_cb : Option ℕ → Bool
null_cb none = true
null_cb (some k) = false

-- addTimer(val, lock): the Boolean says whether onTimerInsertedAtFront is called.
pub insert_timer : ℕ → TimerManager → Bool × TimerManager
insert_timer a m =
    let timers = insert m.timers a m.set_of in
    let at_front = first_is a timers && not m.tickled in
    (at_front, record m { set_of = timers; tickled = at_front || m.tickled })

-- addTimer(ms, cb, recurring) at the new address `a`; `none` is an empty callback.
pub add_timer : ℕ → ℕ → ℕ → Option ℕ → Bool → TimerManager → Bool × TimerManager
add_timer now a ms cb recurring m =
    let t : Timer = record { recurring = recurring; ms = ms; next = add_size now ms; cb = cb } in
    insert_timer a (record m { timers = put a t m.timers })

pub get_next_timer : ℕ → TimerManager → ℕ × TimerManager
get_next_timer now m = (
  elim m.set_of [
    | [] ↦ size_mod - 1
    | a ∷ others ↦ let next = (m.timers a).next in if leb next now then 0 else sub_size next now
  ],
  record m { tickled = false },
)

pub cancel : ℕ → TimerManager → Option (Bool × TimerManager)
cancel a m =
    let t = m.timers a in
    if null_cb t.cb
    then some (false, m)
    else (erase m.timers a m.set_of >>= λ others.
        some (true, record m { timers = put a (record t { cb = none }) m.timers; set_of = others }))

pub refresh : ℕ → ℕ → TimerManager → Bool × TimerManager
refresh now a m =
    let t = m.timers a in
    let u = record t { next = add_size now t.ms } in
    if null_cb t.cb then (false, m) else elim (erase m.timers a m.set_of) [
      | none ↦ (false, m)
      | some others ↦
          let ts = put a u m.timers in (true, record m { timers = ts; set_of = insert ts a others })
    ]

-- The second Boolean says whether onTimerInsertedAtFront is called.
pub reset : ℕ → ℕ → ℕ → Bool → TimerManager → Bool × Bool × TimerManager
reset now a ms from_now m =
    let t = m.timers a in
    let start = if from_now then now else sub_size t.next t.ms in
    let u = record t { ms = ms; next = add_size start ms } in
    if (ms == t.ms) && not from_now
    then (true, false, m)
    else (if null_cb t.cb then (false, false, m) else elim (erase m.timers a m.set_of) [
      | none ↦ (false, false, m)
      | some others ↦
          let placed = insert_timer a (record m { timers = put a u m.timers; set_of = others }) in
          (true, placed.0, placed.1)
    ])

pub detect_clock_roll_over : ℕ → TimerManager → Bool × TimerManager
detect_clock_roll_over now m = (
  ltb now m.previouse_time && ltb now (sub_size m.previouse_time (60 * 60 * 1000)),
  record m { previouse_time = now },
)

-- upper_bound(now_timer): the elements that now_timer is not before, and the others.
pub split_at : Store → ℕ → ℕ → List ℕ → List ℕ × List ℕ
split_at ts now temp [] = ([], [])
split_at ts now temp (a ∷ others) =
    let rest = split_at ts now temp others in
    let later =
      if ltb now (ts a).next then true else (if ltb (ts a).next now then false else ltb temp a) in
    if later then ([], a ∷ others) else (a ∷ rest.0, rest.1)

-- The loop over the expired timers.
pub fire : ℕ → List ℕ → Store → List ℕ → List (Option ℕ) × Store × List ℕ
fire now [] ts set_of = ([], ts, set_of)
fire now (a ∷ others) ts set_of =
    let t = ts a in
    let again = put a (record t { next = add_size now t.ms }) ts in
    let over = put a (record t { cb = none }) ts in
    let rest =
      if t.recurring
      then fire now others again (insert again a set_of)
      else fire now others over set_of in
    (t.cb ∷ rest.0, rest.1, rest.2)

pub list_expired_cb : ℕ → ℕ → TimerManager → List (Option ℕ) × TimerManager
list_expired_cb now temp m =
    let r = detect_clock_roll_over now m in
    let parts = if r.0 then (m.set_of, []) else split_at m.timers now temp m.set_of in
    let fired = fire now parts.0 m.timers parts.1 in
    let done : List (Option ℕ) × TimerManager =
      (fired.0, record r.1 { timers = fired.1; set_of = fired.2 }) in
    elim m.set_of [
      | [] ↦ ([], m)
      | a ∷ others ↦ if not r.0 && ltb now (m.timers a).next then ([], r.1) else done
    ]

pub has_timer : TimerManager → Bool
has_timer m = elim m.set_of [ [] ↦ false | a ∷ others ↦ true ]
