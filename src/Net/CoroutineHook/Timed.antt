-- ===== src/Net/CoroutineHook/Timed.antt =====
-- net/coroutine_hook.cc, connect_hook and sleep_hook, with the timer that a reactor creates for
-- them (net/reactor.cc, getTimer, and the constructor in net/timer.cc). `others` is what happens
-- from the switch to the main coroutine until the coroutine is resumed, and whether the callback
-- of the timeout ran. Each reading of the clock is an argument.
pub mod Sleeping
use tiny_rpc.Prelude.{
  ℕ, zero, suc, ◌+◌, ◌*◌, ◌%◌, ◌^◌, Bool, true, false, not, ◌&&◌, ◌||◌, List, [], Option, none,
  some, ◌==◌, if◌then◌else◌,
}
use tiny_rpc.Prelude.Int.{ℤ, pos, negsuc}
use tiny_rpc.Prelude.Maybe.{◌>>=◌}
use tiny_rpc.Common.Coroutine.{get_current_coroutine, is_main_coroutine, yield_coroutine}
use tiny_rpc.Net.FdEvent.{FdEvent, read_event, write_event}
use tiny_rpc.Net.Reactor.{Reactor}
use tiny_rpc.Net.Reactor.Listening.{set_fd_event, add_listen_events, del_listen_events}
use tiny_rpc.Net.Timer.{Timer, TimerEvent, timer_event, add_timer_event, del_timer_event, update}
use tiny_rpc.Net.CoroutineHook.{NetThread, Calls, in_world, system_call, set_non_block, to_epoll}

-- A thread with the timers of its reactor, in a store; `timer` is the reactor's, if `init_timer`
-- is set.
pub record TimedThread (World Task : Type 0) : Type 0 where
  pub net : NetThread World Task
  pub init_timer : Bool
  pub timer : ℕ
  pub timers : ℕ → Timer Task
  pub next_timer : ℕ

pub record TimedCalls (World : Type 0) : Type 0 where
  pub timerfd_create : World → ℕ × World
  pub sys_connect : ℕ → World → ℤ × World
  pub sys_sleep : ℕ → World → ℕ × World
  pub errno : World → ℕ
  pub set_errno : ℕ → World → World

abbrev pub einprogress : ℕ
einprogress = 115

abbrev pub eisconn : ℕ
eisconn = 106

abbrev pub etimedout : ℕ
etimedout = 110

-- `g_max_timeout`.
abbrev pub max_timeout : ℕ
max_timeout = 75000

abbrev pub is_zero : ℤ → Bool
is_zero (pos n) = n == 0
is_zero (negsuc n) = false

abbrev pub is_below_zero : ℤ → Bool
is_below_zero (pos n) = false
is_below_zero (negsuc n) = true

module _ {World Task : Type 0} where
  abbrev pub set_timer : ℕ → Timer Task → TimedThread World Task → TimedThread World Task
  set_timer k t s = record s { timers = λ j. if k == j then t else s.timers j }

  abbrev pub on_net :
      {A : Type 0} → A × NetThread World Task → TimedThread World Task → A × TimedThread World Task
  on_net done s = (done.0, record s { net = done.1 })

  module _ (calls : Calls World) (timed : TimedCalls World) (caller : ℕ)
      (event_of timer_address : ℕ → ℕ) (resume_task on_timer_task : ℕ → Task)
      (others : TimedThread World Task → Option (Bool × TimedThread World Task)) where
    -- `Timer(Reactor* reactor)`: the event of the timer's descriptor, and a timer with nothing
    -- pending.
    unfoldable pub new_timer : TimedThread World Task → TimedThread World Task
    new_timer s =
        let made = system_call timed.timerfd_create s.net in
        let k = s.next_timer in
        let f : FdEvent Task = record {
          fd = made.0;
          read_cb = some (on_timer_task k);
          write_cb = none;
          listen_events = 0;
        } in
        let r =
          add_listen_events calls.epoll_ctl caller (timer_address k) read_event
            (set_fd_event (timer_address k) f made.1.reactor) in
        let t : Timer Task = record (s.timers k) { pending = []; armed = none } in
        record (set_timer k t s) {
          net = record made.1 { reactor = r };
          timer = k;
          next_timer = suc k;
        }

    -- `getTimer`.
    unfoldable pub get_timer : TimedThread World Task → ℕ × TimedThread World Task
    get_timer s =
        let made = new_timer s in if s.init_timer then (s.timer, s) else (made.timer, made)

    -- A new event, not repeated, with the number `id`, that is made at the time `created` and
    -- added to the timer `k` at the time `now`.
    unfoldable pub add_once :
        ℕ → ℕ → ℕ → ℕ → Task → ℕ → TimedThread World Task → TimedThread World Task
    add_once created now interval id task k s =
        let t = s.timers k in
        let t' : Timer Task = record t {
          events = update t.events id (timer_event created interval false task);
        } in
        set_timer k (add_timer_event now id true t') s

    -- `Yield`: the switch to the main coroutine and all that comes before the switch back; without
    -- a main coroutine, or in it, it returns at once.
    unfoldable pub yield_timed : TimedThread World Task → Option (Bool × TimedThread World Task)
    yield_timed s = do
      cors ← yield_coroutine (λ co main w. w) s.net.cors
      let switched : TimedThread World Task = record s { net = record s.net { cors = cors } }
      if is_main_coroutine s.net.cors then some (false, s) else others switched

    unfoldable pub sleep_hook :
        ℕ → ℕ → ℕ → ℕ → TimedThread World Task → Option (ℕ × TimedThread World Task)
    sleep_hook created now id seconds s =
        let cur = get_current_coroutine s.net.cors in
        let s' : TimedThread World Task = record s { net = record s.net { cors = cur.1 } } in
        let got = get_timer s' in
        let slept = do
          (is_timeout, s'') ←
              yield_timed
                (add_once created now (1000 * seconds % 2 ^ 32) id (resume_task cur.0) got.0 got.1)
          some (0, s'')
        in if is_main_coroutine s.net.cors
          then some (on_net (system_call (timed.sys_sleep seconds) s.net) s)
          else slept

    -- `connect_hook` from the `Yield` on.
    unfoldable pub connect_again :
        ℕ → ℕ → ℕ → Bool × TimedThread World Task → ℤ × TimedThread World Task
    connect_again sockfd k id (is_timeout, s) =
        let r =
          del_listen_events calls.epoll_ctl caller (event_of sockfd) write_event s.net.reactor in
        let deleted =
          set_timer k (del_timer_event id (s.timers k))
            (record s { net = record s.net { reactor = r } }) in
        let again = on_net (system_call (timed.sys_connect sockfd) deleted.net) deleted in
        let w = again.1.net.reactor.world in
        let late = record again.1 { net = in_world (timed.set_errno etimedout) again.1.net } in
        if is_below_zero again.0 && (timed.errno w == eisconn) || is_zero again.0
        then (pos 0, again.1)
        else (negsuc 0, if is_timeout then late else again.1)

    unfoldable pub connect_hook :
        ℕ → ℕ → ℕ → ℕ → TimedThread World Task → Option (ℤ × TimedThread World Task)
    connect_hook created now id sockfd s =
        let call = timed.sys_connect sockfd in
        let p = event_of sockfd in
        let cur = get_current_coroutine s.net.cors in
        let ready =
          in_world
            (set_non_block calls caller event_of resume_task (λ z. none)
              (s.net.reactor.fd_events p).fd)
            (record s.net { cors = cur.1 }) in
        let first = system_call call ready in
        let waiting =
          to_epoll calls caller event_of resume_task (λ z. none) p write_event first.1 in
        let got = get_timer (record s { net = waiting }) in
        let waited = do
          back ← yield_timed (add_once created now max_timeout id (resume_task cur.0) got.0 got.1)
          some (connect_again sockfd got.0 id back)
        in if is_main_coroutine s.net.cors
          then some (on_net (system_call call s.net) s)
          else if is_zero first.0 || not (timed.errno first.1.reactor.world == einprogress)
          then some (on_net first s)
          else waited
