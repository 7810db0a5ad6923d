-- ===== src/Net/Timer/Arming.antt =====
-- net/timer.cc, resetArriveTime: the time for which the descriptor is armed.
use tiny_rpc.Prelude.{
  ℕ, ◌+◌, ◌-◌, ◌*◌, ◌/◌, ◌%◌, ◌≤◌, ◌<◌, ◌≡◌, arith, List, [], ◌∷◌, some, Bool, true,
}
use tiny_rpc.Net.Timer.{
  Timer, reset_arrive_time, add_timer_event, comes_first, emplace, timer_event,
}

module _ {Task : Type 0} where
  -- If the first pending event is not past, `resetArriveTime` arms the descriptor for exactly the
  -- milliseconds that are left, as whole seconds and nanoseconds below one second.
  pub reset_arrive_time_lem :
      (now first id : ℕ) (m : List (ℕ × ℕ)) (t : Timer Task)
      → t.pending ≡ (first, id) ∷ m
      → now ≤ first
      → (sec nsec : ℕ) × ((reset_arrive_time now t).armed ≡ some (sec, nsec))
        × (now * 1000000 + sec * 1000000000 + nsec ≡ first * 1000000)
        × (nsec < 1000000000)
  unfolding reset_arrive_time
  reset_arrive_time_lem now first id m t e h =
      ((first - now) / 1000, (first - now) % 1000 * 1000000, ground arith, omega arith, omega arith)

  -- A new event with interval 0, added in the millisecond of its creation to a timer with nothing
  -- pending, is pending from then on, and the descriptor is armed with zero, which disarms it.
  pub add_timer_event_at_once :
      (now id : ℕ) (is_repeated : Bool) (task : Task) (t : Timer Task)
      → t.pending ≡ []
      → t.events id ≡ timer_event now 0 is_repeated task
      → ((add_timer_event now id true t).pending ≡ (now, id) ∷ [])
        × ((add_timer_event now id true t).armed ≡ some (0, 0))
  unfolding add_timer_event comes_first emplace reset_arrive_time timer_event
  add_timer_event_at_once now id is_repeated task t e f =
      let due : (t.events id).arrive_time ≡ now = ground arith in (ground arith, ground arith)

  -- Once the first event's time has passed the descriptor is left as it was.
  pub reset_arrive_time_late :
      (now first id : ℕ) (m : List (ℕ × ℕ)) (t : Timer Task)
      → t.pending ≡ (first, id) ∷ m
      → first < now
      → reset_arrive_time now t ≡ t
  unfolding reset_arrive_time
  reset_arrive_time_late now first id m t e h = ground arith
