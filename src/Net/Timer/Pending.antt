-- ===== src/Net/Timer/Pending.antt =====
-- net/timer.cc: the order of the pending events.
use tiny_rpc.Prelude.{
  ℕ, ◌≤◌, ◌≡◌, arith, List, [], ◌∷◌, Bool, false, ltb, if◌then◌else◌, Bool-cases, inl, inr, leb,
  on_branches, not, ◌&&◌,
}
use tiny_rpc.Net.Timer.{
  Timer, TimerEvent, emplace, add_timer_event, reset_arrive_time, take_due, add_again, reset_time,
  on_timer, update,
}

-- No key is below an earlier one, and none is below the bound.
abbrev pub IsSortedFrom : ℕ → List (ℕ × ℕ) → Type 0
IsSortedFrom k [] = Unit {0}
IsSortedFrom k ((j, e) ∷ m) = (k ≤ j) × IsSortedFrom j m

abbrev pub IsSorted : List (ℕ × ℕ) → Type 0
IsSorted m = IsSortedFrom 0 m

IsSortedFrom-mono : {k l : ℕ} (m : List (ℕ × ℕ)) → l ≤ k → IsSortedFrom k m → IsSortedFrom l m
IsSortedFrom-mono [] h s = tt
IsSortedFrom-mono ((j, e) ∷ m) h s = (omega arith, s.1)

emplace-IsSortedFrom :
    (b k e : ℕ) (m : List (ℕ × ℕ)) → b ≤ k → IsSortedFrom b m → IsSortedFrom b (emplace k e m)
unfolding emplace
emplace-IsSortedFrom b k e [] h s = (h, tt)
emplace-IsSortedFrom b k e ((j, f) ∷ m) h s = elim (Bool-cases (ltb k j)) [
  | inl first ↦ rw first (h, (ground arith, s.1))
  | inr later ↦ rw later (s.0, emplace-IsSortedFrom j k e m (ground arith) s.1)
]

module _ {Task : Type 0} where
  pub pending-reset_arrive_time :
      (now : ℕ) (t : Timer Task) → (reset_arrive_time now t).pending ≡ t.pending
  unfolding reset_arrive_time
  pending-reset_arrive_time now t = ground arith

  pub events-reset_arrive_time :
      (now : ℕ) (t : Timer Task) → (reset_arrive_time now t).events ≡ t.events
  unfolding reset_arrive_time
  events-reset_arrive_time now t = ground arith

  pub pending-add_timer_event :
      (now id : ℕ) (need_reset : Bool) (t : Timer Task)
      → (add_timer_event now id need_reset t).pending
        ≡ emplace (t.events id).arrive_time id t.pending
  unfolding add_timer_event
  pending-add_timer_event now id need_reset t = ground (
    arith,
    pending-reset_arrive_time now
        (record t { pending = emplace (t.events id).arrive_time id t.pending }),
  )

  -- `addTimerEvent` keeps pending entries that are in the order of their times so.
  pub add_timer_event-IsSorted :
      (now id : ℕ) (need_reset : Bool) (t : Timer Task)
      → IsSorted t.pending
      → IsSorted (add_timer_event now id need_reset t).pending
  add_timer_event-IsSorted now id need_reset t s =
      rw (pending-add_timer_event now id need_reset t)
        (emplace-IsSortedFrom 0 (t.events id).arrive_time id t.pending (omega arith) s)

  take_due-IsSorted :
      (now b : ℕ) (events : ℕ → TimerEvent Task) (m : List (ℕ × ℕ))
      → IsSortedFrom b m
      → IsSortedFrom b (take_due now events m).1
  unfolding take_due
  take_due-IsSorted now b events [] s = tt
  take_due-IsSorted now b events ((j, e) ∷ m) s =
      elim (Bool-cases (leb j now && not (events e).is_cancled)) [
        | inl due ↦ rw due (
            IsSortedFrom-mono {k = j} {l = b} (take_due now events m).1 s.0
              (take_due-IsSorted now j events m s.1))
        | inr wait ↦ rw wait s
      ]

  abbrev again : (ℕ → ℕ) → ℕ → Timer Task → Timer Task
  again clock id t = record t { events = update t.events id (reset_time (clock id) (t.events id)) }

  add_again-IsSorted :
      (clock : ℕ → ℕ) (tmps : List ℕ) (t : Timer Task)
      → IsSorted t.pending
      → IsSorted (add_again clock tmps t).pending
  unfolding add_again
  add_again-IsSorted clock [] t s = s
  add_again-IsSorted clock (id ∷ tmps) t s =
      add_again-IsSorted clock tmps
        (if (t.events id).is_repeated
          then add_timer_event (clock id) id false (again clock id t)
          else t)
        (on_branches (λ (u : Timer Task). IsSorted u.pending) (t.events id).is_repeated
          ((add_timer_event-IsSorted (clock id) id false (again clock id t) s), s))

  -- `onTimer` keeps pending entries that are in the order of their times so, at every clock.
  pub on_timer-IsSorted :
      (now : ℕ) (clock : ℕ → ℕ) (end : ℕ) (t : Timer Task)
      → IsSorted t.pending
      → IsSorted (on_timer now clock end t).1.pending
  unfolding on_timer
  on_timer-IsSorted now clock end t s =
      rw
        (pending-reset_arrive_time end (
          add_again clock (take_due now t.events t.pending).0
            (record t { pending = (take_due now t.events t.pending).1 })))
        (add_again-IsSorted clock _ _ (take_due-IsSorted now 0 t.events t.pending s))
