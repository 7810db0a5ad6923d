-- ===== src/Net/CoroutineHook/Timed/Sleeping.antt =====
-- net/coroutine_hook.cc, sleep_hook, with net/timer.cc, onTimer: a coroutine that sleeps is woken.
use tiny_rpc.Prelude.{
  ℕ, ◌+◌, ◌-◌, ◌*◌, ◌/◌, ◌%◌, ◌^◌, ◌≤◌, ◌<◌, Bool, true, false, [], ◌∷◌, Option, none, some, ltb,
  leb, ◌==◌, if◌then◌else◌, ◌≡◌, refl, arith, ap, ◌∙◌,
}
use tiny_rpc.Prelude.Maybe.{◌>>=◌}
use tiny_rpc.Common.Coroutine.{Thread, get_current_coroutine, is_main_coroutine}
use tiny_rpc.Common.Coroutine.Switching.{yield-inside}
use tiny_rpc.Net.Timer.{
  TimerEvent, del_timer_event, timer_event, add_timer_event, update, comes_first, emplace,
  reset_arrive_time, on_timer, take_due,
}
use tiny_rpc.Net.CoroutineHook.{Calls}
use tiny_rpc.Net.CoroutineHook.Timed.{
  TimedThread, TimedCalls, new_timer, get_timer, add_once, sleep_hook, connect_again, yield_timed,
}

same_id : (id : ℕ) → (id == id) ≡ true
same_id id = ground arith

module _ {Task : Type 0} where
  with_event : ℕ → ℕ → ℕ → Task → (ℕ → TimerEvent Task) → ℕ → TimerEvent Task
  with_event created interval id task events =
      update events id (timer_event created interval false task)

  -- A timer to which one event has been added.
  added_once :
      (created now interval id : ℕ) (task : Task) (events : ℕ → TimerEvent Task)
      → add_timer_event now id true (record {
        events = with_event created interval id task events;
        pending = [];
        armed = none;
      })
        ≡ record {
          events = with_event created interval id task events;
          pending = (created + interval, id) ∷ [];
          armed =
              if ltb (created + interval) now
              then none
              else some
                  ((created + interval - now) / 1000, (created + interval - now) % 1000 * 1000000);
        }
  unfolding add_timer_event comes_first emplace reset_arrive_time timer_event with_event
  added_once created now interval id task events = rw (same_id id) (ground arith)

  fires_once :
      (created interval id later end : ℕ) (clock : ℕ → ℕ) (task : Task)
      (events : ℕ → TimerEvent Task) (armed : Option (ℕ × ℕ))
      → created + interval ≤ later
      → (on_timer later clock end (record {
        events = with_event created interval id task events;
        pending = (created + interval, id) ∷ [];
        armed = armed;
      })).0
        ≡ task ∷ []
  unfolding on_timer take_due with_event timer_event
  fires_once created interval id later end clock task events armed due =
      let come : leb (created + interval) later ≡ true = ground arith in
      rw (come, same_id id, same_id id) refl

zero_left :
    (created interval now : ℕ)
    → now ≡ created + interval
    → ◌≡◌ {A = Option (ℕ × ℕ)}
        (if ltb (created + interval) now
          then none
          else some
              ((created + interval - now) / 1000, (created + interval - now) % 1000 * 1000000))
        (some (0, 0))
zero_left created interval now e =
    let in_time : ltb (created + interval) now ≡ false = ground arith in
    let nothing : created + interval - now ≡ 0 = omega arith in rw (in_time, nothing) refl

module _ {World Task : Type 0} (calls : Calls World) (timed : TimedCalls World) (caller : ℕ)
    (event_of timer_address : ℕ → ℕ) (resume_task on_timer_task : ℕ → Task)
    (others : TimedThread World Task → Option (Bool × TimedThread World Task)) where
  -- The new timer of a thread, with one event.
  waiting_timer :
      (created now interval id : ℕ) (task : Task) (z : TimedThread World Task)
      → let made =
          new_timer calls timed caller event_of timer_address resume_task on_timer_task others z in
        (add_once calls timed caller event_of timer_address resume_task on_timer_task others created
            now interval id task made.timer made).timers
          made.timer
        ≡ record {
          events = with_event created interval id task (z.timers z.next_timer).events;
          pending = (created + interval, id) ∷ [];
          armed =
              if ltb (created + interval) now
              then none
              else some
                  ((created + interval - now) / 1000, (created + interval - now) % 1000 * 1000000);
        }
  unfolding add_once new_timer with_event
  waiting_timer created now interval id task z =
      rw (same_id z.next_timer)
        (added_once created now interval id task (z.timers z.next_timer).events)

  get_current-here :
      (cur : ℕ) (t : Thread (Unit {0}) Task)
      → t.cur_coroutine ≡ some cur
      → ((get_current_coroutine t).0 ≡ cur) × ((get_current_coroutine t).1 ≡ t)
  unfolding get_current_coroutine
  get_current-here cur t here = rw here (refl, refl)

  yield_timed_lem :
      (cur : ℕ) (s : TimedThread World Task)
      → s.net.cors.cur_coroutine ≡ some cur
      → is_main_coroutine s.net.cors ≡ false
      → yield_timed calls timed caller event_of timer_address resume_task on_timer_task others s
        ≡ others (record s {
          net = record s.net {
            cors = record s.net.cors { cur_coroutine = s.net.cors.main_coroutine };
          };
        })
  unfolding yield_timed
  yield_timed_lem cur s here inside = rw (yield-inside cur s.net.cors here inside, inside) refl

  get_timer-unset :
      (s : TimedThread World Task)
      → s.init_timer ≡ false
      → let made =
          new_timer calls timed caller event_of timer_address resume_task on_timer_task others s in
        get_timer calls timed caller event_of timer_address resume_task on_timer_task others s
        ≡ (made.timer, made)
  unfolding get_timer
  get_timer-unset s unset = rw unset refl

  -- Up to its `Yield`, on a reactor whose flag for its timer is not set.
  sleep_hook-yield_timed :
      (created now id seconds : ℕ) (s : TimedThread World Task)
      → is_main_coroutine s.net.cors ≡ false
      → s.init_timer ≡ false
      → let got = get_current_coroutine s.net.cors in
        let z : TimedThread World Task = record s { net = record s.net { cors = got.1 } } in
        let made =
          new_timer calls timed caller event_of timer_address resume_task on_timer_task others z in
        sleep_hook calls timed caller event_of timer_address resume_task on_timer_task others
          created now id seconds s
        ≡ (do
          back ←
              yield_timed calls timed caller event_of timer_address resume_task on_timer_task others
                (add_once calls timed caller event_of timer_address resume_task on_timer_task others
                  created now
                  (1000 * seconds % 2 ^ 32)
                  id
                  (resume_task got.0)
                  made.timer
                  made)
          some (0, back.1))
  unfolding sleep_hook
  sleep_hook-yield_timed created now id seconds s inside unset =
      let got = get_current_coroutine s.net.cors in
      let z : TimedThread World Task = record s { net = record s.net { cors = got.1 } } in
      rw (inside, get_timer-unset z unset) refl

  -- In a coroutine that is current and not the main one, on a reactor whose flag for its timer is
  -- not set, as it never is, `sleep_hook` makes a new timer, goes back to the main coroutine,
  -- which is current while this one waits, and returns 0 once it is resumed. Where time is left
  -- the timer is armed for it, and where the event is due at that very millisecond the timer gets
  -- the time zero, which disarms it. An `onTimer` of it at the event's time or later gives exactly
  -- the task that resumes this coroutine.
  pub sleep_hook_wakes :
      (created now id seconds cur : ℕ) (s : TimedThread World Task)
      → s.net.cors.cur_coroutine ≡ some cur
      → is_main_coroutine s.net.cors ≡ false
      → s.init_timer ≡ false
      → (waiting : TimedThread World Task) × (sleep_hook calls timed caller event_of timer_address
            resume_task on_timer_task others created now id seconds s
          ≡ (do back ← others waiting; some (0, back.1)))
        × (waiting.net.cors ≡ record s.net.cors { cur_coroutine = s.net.cors.main_coroutine })
        × (now < created + 1000 * seconds % 2 ^ 32
            → (waiting.timers waiting.timer).armed
              ≡ some (
                (created + 1000 * seconds % 2 ^ 32 - now) / 1000,
                (created + 1000 * seconds % 2 ^ 32 - now) % 1000 * 1000000,
              ))
        × (now ≡ created + 1000 * seconds % 2 ^ 32
            → (waiting.timers waiting.timer).armed ≡ some (0, 0))
        × ((later end : ℕ) (clock : ℕ → ℕ)
            → created + 1000 * seconds % 2 ^ 32 ≤ later
            → (on_timer later clock end (waiting.timers waiting.timer)).0 ≡ resume_task cur ∷ [])
  unfolding add_once new_timer
  sleep_hook_wakes created now id seconds cur s here inside unset =
      let got = get_current_coroutine s.net.cors in
      let (is_cur, same) = get_current-here cur s.net.cors here in
      let z : TimedThread World Task = record s { net = record s.net { cors = got.1 } } in
      let made =
        new_timer calls timed caller event_of timer_address resume_task on_timer_task others z in
      let interval = 1000 * seconds % 2 ^ 32 in
      let there = waiting_timer created now interval id (resume_task got.0) z in
      let added =
        add_once calls timed caller event_of timer_address resume_task on_timer_task others created
          now interval id (resume_task got.0) made.timer made in
      let back =
        yield_timed_lem cur added (ap (λ t. t.cur_coroutine) same ∙ here)
          (ap is_main_coroutine same ∙ inside) in
      (
        record added {
          net = record added.net {
            cors = record added.net.cors { cur_coroutine = added.net.cors.main_coroutine };
          };
        },
        sleep_hook-yield_timed created now id seconds s inside unset
            ∙ ap (λ o. do r ← o; some (0, r.1)) back,
        ap {A = Thread (Unit {0}) Task} (λ t. record t { cur_coroutine = t.main_coroutine }) same,
        λ ahead.
            ap (λ t. t.armed) there
            ∙ (let in_time : ltb (created + interval) now ≡ false = ground arith in
                rw in_time refl),
        λ at_once. ap (λ t. t.armed) there ∙ zero_left created interval now at_once,
        λ later end clock due.
            ap (λ t. (on_timer later clock end t).0) there
            ∙ fires_once created interval id later end clock (resume_task got.0)
                (z.timers z.next_timer).events _ due
            ∙ ap (λ c. resume_task c ∷ []) is_cur,
      )

  -- After the wait `connect_hook` has cancelled its event, in either case.
  pub connect_again_cancels :
      (sockfd k id : ℕ) (is_timeout : Bool) (s : TimedThread World Task)
      → (((connect_again calls timed caller event_of timer_address resume_task on_timer_task others
              sockfd k id
              (is_timeout, s)).1.timers
            k).events
          id).is_cancled
        ≡ true
  unfolding connect_again del_timer_event
  connect_again_cancels sockfd k id is_timeout s = ground (arith, same_id k, same_id id)
