-- ===== src/Timers/Runs.antt =====
-- Runs of the timers' theorems on concrete sets.
use exhy.Common.{
  Bool, not, none, ℕ, ◌-◌, ◌≤◌, true, false, ◌≡◌, ◌⊎◌, refl, [], ◌∷◌, some, arith, leb, ◌==◌, All,
  if◌then◌else◌,
}
use exhy.Timers.{Timer, TimerManager, null_cb, before, get_next_timer}
use exhy.Timers.Order.{Sorted, elem, get_next_timer_lem}
use exhy.Timers.Invariant.{IsValid}
use exhy.Timers.Upkeep.{listing, timer_step, timer_step-IsValid}

-- Timer 7 is due at 100, timer 3 at 200.
abbrev stored : ℕ → Timer
stored a = record { recurring = false; ms = 50; next = if leb a 5 then 200 else 100; cb = some (a) }

abbrev manager : TimerManager
manager = record { timers = stored; set_of = 7 ∷ 3 ∷ []; tickled = false; previouse_time = 90 }

manager-Sorted : Sorted manager.timers manager.set_of
unfolding before
manager-Sorted = ((refl, tt), (tt, tt))

get_next_timer_lem_example :
    ((manager.set_of ≡ []) × ((get_next_timer 60 manager).0 ≡ 18446744073709551615))
    ⊎ ((a : ℕ) × (elem a manager.set_of ≡ true)
        × All (λ b. (manager.timers a).next ≤ (manager.timers b).next) manager.set_of
        × ((get_next_timer 60 manager).0 ≡ (manager.timers a).next - 60))
get_next_timer_lem_example =
    get_next_timer_lem 60 manager manager-Sorted (omega arith, (omega arith, tt))

-- Of all addresses, 7 and 3 hold timers.
abbrev armed : ℕ → Timer
armed a = record {
  recurring = a == 7;
  ms = 50;
  next = if leb a 5 then 200 else 100;
  cb = if elem a (7 ∷ 3 ∷ []) then some a else none;
}

abbrev two : TimerManager
two = record { timers = armed; set_of = 7 ∷ 3 ∷ []; tickled = false; previouse_time = 90 }

two-IsValid : IsValid two
unfolding before null_cb
two-IsValid = record { sorted = ((refl, tt), (tt, tt)); armed = λ a. holds a (elem a (7 ∷ 3 ∷ [])) }
  where
    holds : (a : ℕ) (b : Bool) → b ≡ not (null_cb (if b then some a else none))
    holds a true = refl
    holds a false = refl

timer_step-IsValid_example :
    (n : TimerManager) × (timer_step (listing 150 8) two ≡ some n) × IsValid n
timer_step-IsValid_example = timer_step-IsValid (listing 150 8) two two-IsValid tt
