-- ===== src/Timers/Upkeep.antt =====
-- Every call on the timers keeps the invariant, and none erases what is not there.
use exhy.Common.{
  append-nil, ◌⊎◌, ℕ, Bool, true, false, not, ◌&&◌, ◌≡◌, refl, sym, ap, subst, ◌∙◌, inl, inr, List,
  [], Option, none, some, ◌>>=◌, if◌then◌else◌, ltb, ◌==◌, ==_iff, Bool-cases, add_size,
}
use exhy.Timers.{
  TimerManager, put, null_cb, insert_timer, add_timer, get_next_timer, cancel, refresh, reset,
  detect_clock_roll_over, split_at, fire, list_expired_cb,
}
use exhy.Timers.Order.{elem, list_cases}
use exhy.Timers.Expiry.{split_lem}
use exhy.Timers.Invariant.{
  IsValid, Without, taken_out, put_self, removed-IsValid, placed-IsValid, and_true,
}
use exhy.Timers.Firing.{fired, Firing-start}

pub data Call : Type 0 where
  adding : ℕ → ℕ → ℕ → Option ℕ → Bool → Call
  cancelling : ℕ → Call
  refreshing : ℕ → ℕ → Call
  resetting : ℕ → ℕ → ℕ → Bool → Call
  asking : ℕ → Call
  listing : ℕ → ℕ → Call

pub timer_step : Call → TimerManager → Option TimerManager
timer_step (adding now a ms cb recurring) m = some (add_timer now a ms cb recurring m).1
timer_step (cancelling a) m = cancel a m >>= λ r. some r.1
timer_step (refreshing now a) m = some (refresh now a m).1
timer_step (resetting now a ms from_now) m = some (reset now a ms from_now m).2
timer_step (asking now) m = some (get_next_timer now m).1
timer_step (listing now temp) m = some (list_expired_cb now temp m).1

-- addTimer makes its timer at an address where none is, and its callback is not empty.
abbrev pub Allowed : Call → TimerManager → Type 0
Allowed (adding now a ms cb recurring) m = (null_cb (m.timers a).cb ≡ true) × (null_cb cb ≡ false)
Allowed c m = Unit

Without-none : (a : ℕ) (bs : List ℕ) → elem a bs ≡ false → Without a bs bs
Without-none a bs h c = elim (Bool-cases (c == a)) [
  | inl e ↦
      let gone : elem c bs ≡ false = subst (λ d. elem d bs ≡ false) (sym ((==_iff c a).0 e)) h in
      rw gone refl
  | inr e ↦ rw e (sym (and_true (elem c bs)))
]

Keeps : Option TimerManager → Type 0
Keeps o = (n : TimerManager) × (o ≡ some n) × IsValid n

-- The fields that the invariant does not read.
again-IsValid :
    (m : TimerManager) (tickled : Bool) (time : ℕ)
    → IsValid m
    → IsValid (record m { tickled = tickled; previouse_time = time })
again-IsValid m tickled time v = record { sorted = v.sorted; armed = v.armed }

module _ (m : TimerManager) (v : IsValid m) where
  list_expired_cb-IsValid : (now temp : ℕ) → IsValid (list_expired_cb now temp m).1
  unfolding list_expired_cb detect_clock_roll_over
  list_expired_cb-IsValid now temp = elim (list_cases m.set_of) [
    | inl e ↦ rw (list_expired_cb, e) v
    | inr (a, others, e) ↦
        let r = detect_clock_roll_over now m in
        elim (Bool-cases (not r.0 && ltb now (m.timers a).next)) [
          | inl k ↦ rw (list_expired_cb, e, k) (again-IsValid m m.tickled now v)
          | inr k ↦ rw (list_expired_cb, e, k) (done r.0)
        ]
  ]
    where
      done :
          (b : Bool)
          → let parts : List ℕ × List ℕ =
              if b then (m.set_of, []) else split_at m.timers now temp m.set_of in
            let f = fire now parts.0 m.timers parts.1 in
            IsValid (record m { timers = f.1; set_of = f.2; previouse_time = now })
      done true =
          let f =
            fired now m.set_of m.timers []
              (Firing-start m m.set_of [] v (sym (append-nil m.set_of))) in
          record { sorted = f.sorted; armed = f.armed }
      done false =
          let s = split_at m.timers now temp m.set_of in
          let f =
            fired now s.0 m.timers s.1
              (Firing-start m s.0 s.1 v (split_lem m.timers now temp m.set_of v.sorted).2) in
          record { sorted = f.sorted; armed = f.armed }

  cancel-Keeps : (a : ℕ) → Keeps (timer_step (cancelling a) m)
  unfolding timer_step cancel Keeps null_cb
  cancel-Keeps a = elim (Bool-cases (null_cb (m.timers a).cb)) [
    | inl k ↦ (m, rw k refl, v)
    | inr k ↦
        let (cs, e, so, w) = taken_out m a v k in
        (_, rw (k, e) refl, removed-IsValid m a cs (record (m.timers a) { cb = none }) v so w refl)
  ]

  refresh-IsValid : (now a : ℕ) → IsValid (refresh now a m).1
  unfolding refresh
  refresh-IsValid now a = elim (Bool-cases (null_cb (m.timers a).cb)) [
    | inl k ↦ rw k v
    | inr k ↦
        let (cs, e, so, w) = taken_out m a v k in
        rw (k, e)
          (placed-IsValid m a cs (record (m.timers a) { next = add_size now (m.timers a).ms })
            m.tickled v so w k)
  ]

  reset-IsValid : (now a ms : ℕ) (from_now : Bool) → IsValid (reset now a ms from_now m).2
  unfolding reset insert_timer
  reset-IsValid now a ms from_now = elim (Bool-cases ((ms == (m.timers a).ms) && not from_now)) [
    | inl j ↦ rw j v
    | inr j ↦ elim (Bool-cases (null_cb (m.timers a).cb)) [
      | inl k ↦ rw (j, k) v
      | inr k ↦
          let (cs, e, so, w) = taken_out m a v k in
          rw (j, k, e) (placed-IsValid m a cs _ _ v so w k)
    ]
  ]

  add_timer-IsValid :
      (now a ms : ℕ) (cb : Option ℕ) (recurring : Bool)
      → null_cb (m.timers a).cb ≡ true
      → null_cb cb ≡ false
      → IsValid (add_timer now a ms cb recurring m).1
  unfolding add_timer insert_timer
  add_timer-IsValid now a ms cb recurring h k =
      placed-IsValid m a m.set_of _ _ v v.sorted (Without-none a m.set_of (v.armed a ∙ ap not h)) k

-- Where the set is in order and holds just the timers with a callback, addTimer of a callback that is not empty, at an address where no
-- timer is,
-- cancel, refresh, reset, getNextTimer and listExpiredCb each return, none of them erases what is not in the set, and
-- they leave such a set.
pub timer_step-IsValid :
    (call : Call) (m : TimerManager)
    → IsValid m
    → Allowed call m
    → (n : TimerManager) × (timer_step call m ≡ some n) × IsValid n
unfolding timer_step get_next_timer Keeps
timer_step-IsValid (adding now a ms cb recurring) m v (h, k) =
    (_, refl, add_timer-IsValid m v now a ms cb recurring h k)
timer_step-IsValid (cancelling a) m v h = cancel-Keeps m v a
timer_step-IsValid (refreshing now a) m v h = (_, refl, refresh-IsValid m v now a)
timer_step-IsValid (resetting now a ms from_now) m v h =
    (_, refl, reset-IsValid m v now a ms from_now)
timer_step-IsValid (asking now) m v h = (_, refl, again-IsValid m false m.previouse_time v)
timer_step-IsValid (listing now temp) m v h = (_, refl, list_expired_cb-IsValid m v now temp)

-- In such a state, cancel returns false and changes nothing where the timer has no callback, and else true; then the
-- timer is out of the set, no other timer entered or left it, and a second cancel returns false.
pub cancel-cancel :
    (m : TimerManager) (a : ℕ)
    → IsValid m
    → (cancel a m ≡ some (false, m))
      ⊎ ((n : TimerManager) × (cancel a m ≡ some (true, n))
          × Without a m.set_of n.set_of
          × (cancel a n ≡ some (false, n)))
unfolding cancel null_cb
cancel-cancel m a v = elim (Bool-cases (null_cb (m.timers a).cb)) [
  | inl k ↦ inl (rw k refl)
  | inr k ↦
      let (cs, e, so, w) = taken_out m a v k in
      let u = record (m.timers a) { cb = none } in
      inr (
        record m { timers = put a u m.timers; set_of = cs },
        rw (k, e) refl,
        w,
        rw (put_self a u m.timers) refl,
      )
]
