-- ===== src/Net/Timer/Firing.antt =====
-- net/timer.cc, onTimer: which events fire, and what holds the others back.
use tiny_rpc.Prelude.{
  ℕ, ◌≤◌, ◌<◌, ◌≡◌, refl, ap, sym, ◌∙◌, arith, List, [], ◌∷◌, ◌++◌, true, false, not, ◌&&◌, leb,
  Bool-cases, inl, inr, ◌⊎◌, All,
}
use tiny_rpc.Net.Timer.{
  Timer, TimerEvent, reset_arrive_time, take_due, add_again, on_timer, tasks_of,
}
use tiny_rpc.Net.Timer.Arming.{reset_arrive_time_late}

abbrev pub ids : List (ℕ × ℕ) → List ℕ
ids [] = []
ids ((k, id) ∷ m) = id ∷ ids m

module _ {Task : Type 0} where
  -- An entry that may fire at `now`, and one that may not.
  abbrev pub IsDue : ℕ → (ℕ → TimerEvent Task) → ℕ × ℕ → Type 0
  IsDue now events (k, id) = (k ≤ now) × ((events id).is_cancled ≡ false)

  -- The entries that stay begin with one that is later than `now` or cancelled.
  abbrev pub IsHeldBack : ℕ → (ℕ → TimerEvent Task) → List (ℕ × ℕ) → Type 0
  IsHeldBack now events [] = Unit {0}
  IsHeldBack now events ((k, id) ∷ m) = (now < k) ⊎ ((events id).is_cancled ≡ true)

  -- The pending entries split into a front that fires, all due, and a rest that begins with an
  -- entry that is held back.
  take_due_lem :
      (now : ℕ) (events : ℕ → TimerEvent Task) (m : List (ℕ × ℕ))
      → (front : List (ℕ × ℕ)) × (m ≡ front ++ (take_due now events m).1)
        × ((take_due now events m).0 ≡ ids front)
        × All (IsDue now events) front
        × IsHeldBack now events (take_due now events m).1
  unfolding take_due
  take_due_lem now events [] = ([], refl, refl, tt, tt)
  take_due_lem now events ((k, id) ∷ m) =
      let (front, e, i, due, held) = take_due_lem now events m in
      elim (Bool-cases (leb k now && not (events id).is_cancled)) [
        | inl go ↦ (
          (k, id) ∷ front,
          rw go (ap (λ t. (k, id) ∷ t) e),
          rw go (ap (λ t. id ∷ t) i),
          (ground arith, due),
          rw go held,
        )
        | inr stop ↦ ([], rw stop, rw stop, tt, rw stop (ground arith))
      ]

  -- The tasks that `onTimer` gives to the reactor are those of a front of the pending entries, in
  -- order: the time of each has come and none is cancelled, and the next entry, if there is one, is
  -- later than `now` or cancelled.
  pub on_timer_fires :
      (now : ℕ) (clock : ℕ → ℕ) (end : ℕ) (t : Timer Task)
      → (front rest : List (ℕ × ℕ)) × (t.pending ≡ front ++ rest)
        × ((on_timer now clock end t).0 ≡ tasks_of t.events (ids front))
        × All (IsDue now t.events) front
        × IsHeldBack now t.events rest
  unfolding on_timer
  on_timer_fires now clock end t =
      let (front, e, i, due, held) = take_due_lem now t.events t.pending in
      (front, (take_due now t.events t.pending).1, e, ap (tasks_of t.events) i, due, held)

  take_due_cancled :
      (now k id : ℕ) (events : ℕ → TimerEvent Task) (m : List (ℕ × ℕ))
      → (events id).is_cancled ≡ true
      → take_due now events ((k, id) ∷ m) ≡ ([], (k, id) ∷ m)
  unfolding take_due
  take_due_cancled now k id events m c = ground arith

  -- If the first pending event is cancelled and its time has passed when `onTimer` ends, no task
  -- runs and the timer stays as it was: its pending entries, and what the descriptor is armed
  -- for.
  pub on_timer_blocked :
      (now : ℕ) (clock : ℕ → ℕ) (end k id : ℕ) (m : List (ℕ × ℕ)) (t : Timer Task)
      → t.pending ≡ (k, id) ∷ m
      → (t.events id).is_cancled ≡ true
      → k < end
      → on_timer now clock end t ≡ ([], t)
  unfolding on_timer add_again
  on_timer_blocked now clock end k id m t e c h =
      ap
        (λ d. (
          tasks_of t.events d.0,
          reset_arrive_time end (add_again clock d.0 (record t { pending = d.1 })),
        ))
        nothing
      ∙ ap (λ u. ([], u)) (reset_arrive_time_late end k id m t e h)
    where
      nothing : take_due now t.events t.pending ≡ ([], t.pending)
      nothing =
          ap (take_due now t.events) e
          ∙ take_due_cancled now k id t.events m c
          ∙ ap (λ p. ([], p)) (sym e)
