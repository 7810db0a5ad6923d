-- ===== src/Net/Timer.antt =====
-- net/timer.h and net/timer.cc: timer events, the multimap of pending ones, and the timer
-- descriptor. An event is shared by pointer, so events live in a store under a number, and the
-- multimap holds the key of the insertion with that number. Each call of `getNowMs` is an
-- argument. `armed` is what the last `timerfd_settime` asked for, in seconds and nanoseconds; (0,
-- 0) disarms the descriptor.
pub mod Pending
pub mod Firing
pub mod Arming
use tiny_rpc.Prelude.{
  ℕ, suc, ◌+◌, ◌-◌, ◌*◌, ◌/◌, ◌%◌, Bool, true, false, not, ◌&&◌, List, [], ◌∷◌, Option, none, some,
  ltb, leb, ◌==◌, if◌then◌else◌,
}

-- `gettimeofday` gives seconds and microseconds.
unfoldable pub get_now_ms : ℕ → ℕ → ℕ
get_now_ms sec usec = sec * 1000 + usec / 1000

pub record TimerEvent (Task : Type 0) : Type 0 where
  pub arrive_time : ℕ
  pub interval : ℕ
  pub is_repeated : Bool
  pub is_cancled : Bool
  pub task : Task

pub record Timer (Task : Type 0) : Type 0 where
  pub events : ℕ → TimerEvent Task
  pub pending : List (ℕ × ℕ)
  pub armed : Option (ℕ × ℕ)

-- `multimap::emplace`: behind the entries of the same key.
unfoldable pub emplace : ℕ → ℕ → List (ℕ × ℕ) → List (ℕ × ℕ)
emplace k e [] = (k, e) ∷ []
emplace k e ((j, f) ∷ m) = if ltb k j then (k, e) ∷ (j, f) ∷ m else (j, f) ∷ emplace k e m

module _ {Task : Type 0} where
  unfoldable pub timer_event : ℕ → ℕ → Bool → Task → TimerEvent Task
  timer_event now interval is_repeated task = record {
    arrive_time = now + interval;
    interval = interval;
    is_repeated = is_repeated;
    is_cancled = false;
    task = task;
  }

  unfoldable pub reset_time : ℕ → TimerEvent Task → TimerEvent Task
  reset_time now e = record e { arrive_time = now + e.interval }

  abbrev pub update : (ℕ → TimerEvent Task) → ℕ → TimerEvent Task → ℕ → TimerEvent Task
  update events id e j = if id == j then e else events j

  unfoldable pub reset_arrive_time : ℕ → Timer Task → Timer Task
  reset_arrive_time now t = elim t.pending [
    | [] ↦ t
    | (first, id) ∷ m ↦
        let interval = first - now in
        if ltb first now
        then t
        else record t { armed = some (interval / 1000, interval % 1000 * 1000000) }
  ]

  -- Whether the new event comes before the first pending one; that one's own time is compared.
  unfoldable pub comes_first : Timer Task → ℕ → Bool
  comes_first t id = elim t.pending [
    | [] ↦ true
    | (first, id') ∷ m ↦ ltb (t.events id).arrive_time (t.events id').arrive_time
  ]

  unfoldable pub add_timer_event : ℕ → ℕ → Bool → Timer Task → Timer Task
  add_timer_event now id need_reset t =
      let is_reset = comes_first t id in
      let t' : Timer Task = record t { pending = emplace (t.events id).arrive_time id t.pending } in
      if is_reset && need_reset then reset_arrive_time now t' else t'

  unfoldable pub del_timer_event : ℕ → Timer Task → Timer Task
  del_timer_event id t = record t {
    events = update t.events id (record (t.events id) { is_cancled = true });
  }

  -- The first loop of `onTimer`: the events that are taken, and the entries from `it` on.
  unfoldable pub take_due : ℕ → (ℕ → TimerEvent Task) → List (ℕ × ℕ) → List ℕ × List (ℕ × ℕ)
  take_due now events [] = ([], [])
  take_due now events ((first, id) ∷ m) =
      let taken = take_due now events m in
      if leb first now && not (events id).is_cancled
      then (id ∷ taken.0, taken.1)
      else ([], (first, id) ∷ m)

  -- The second loop. `clock` gives the reading for each event that is repeated.
  unfoldable pub add_again : (ℕ → ℕ) → List ℕ → Timer Task → Timer Task
  add_again clock [] t = t
  add_again clock (id ∷ tmps) t =
      let now = clock id in
      let t' : Timer Task = record t {
        events = update t.events id (reset_time now (t.events id));
      } in
      add_again clock tmps
        (if (t.events id).is_repeated then add_timer_event now id false t' else t)

  abbrev pub tasks_of : (ℕ → TimerEvent Task) → List ℕ → List Task
  tasks_of events [] = []
  tasks_of events (id ∷ ids) = (events id).task ∷ tasks_of events ids

  -- `onTimer`: the tasks that go to the reactor, and the timer after it. The descriptor has been
  -- read empty before.
  unfoldable pub on_timer : ℕ → (ℕ → ℕ) → ℕ → Timer Task → List Task × Timer Task
  on_timer now clock end t =
      let due = take_due now t.events t.pending in
      let t' : Timer Task = record t { pending = due.1 } in
      (tasks_of t.events due.0, reset_arrive_time end (add_again clock due.0 t'))
