-- ===== src/Net/CoroutineHook/Tests.antt =====
-- Runs of the hooks in a thread with one waiting descriptor, and their theorem at concrete inputs.
use tiny_rpc.Prelude.{
  ℕ, Bool, ◌+◌, ◌-◌, ◌*◌, ◌/◌, ◌%◌, ◌^◌, ◌≤◌, ◌<◌, ◌≡◌, refl, true, false, List, [], ◌∷◌, ◌++◌,
  Option, none, some, replicate,
}
use tiny_rpc.Prelude.Int.{pos, negsuc}
use tiny_rpc.Prelude.Maybe.{◌>>=◌}
use tiny_rpc.Common.Coroutine.{Thread, get_current_coroutine, is_main_coroutine, same_pointer}
use tiny_rpc.Net.FdEvent.{set_callback}
use tiny_rpc.Net.Reactor.{
  Reactor, EpollEvent, handle_one, add_event, wakeup, add_event_in_loop_thread,
}
use tiny_rpc.Net.Reactor.Listening.{add_listen_events, update_to_reactor}
use tiny_rpc.Net.CoroutineHook.{
  NetThread, Calls, Received, received, failed, system_call, read_hook, registered, set_non_block,
  to_epoll, listen,
}
use tiny_rpc.Net.CoroutineHook.Waking.{IsReadable, read_hook_waits}
use tiny_rpc.Net.Timer.{timer_event, on_timer}
use tiny_rpc.Net.CoroutineHook.Timed.{TimedThread, TimedCalls, einprogress, sleep_hook}
use tiny_rpc.Net.CoroutineHook.Timed.Sleeping.{sleep_hook_wakes}

-- What is outside: the chunks that reads give; a read without a chunk fails.
abbrev Chunks : Type 0
Chunks = List (List ℕ)

abbrev read_chunk : ℕ → ℕ → Chunks → Received × Chunks
read_chunk fd n [] = (failed, [])
read_chunk fd n (chunk ∷ chunks) = (received chunk, chunks)

abbrev calls : Calls Chunks
calls = record {
  epoll_ctl = λ op fd event w. (true, w);
  get_flags = λ fd w. 0;
  set_flags = λ fd flags w. w;
  sys_read = read_chunk;
  sys_write = λ fd bytes w. (pos 1, w);
  sys_accept = λ fd w. (negsuc 0, w);
}

-- The event of a descriptor stands at a hundred and the descriptor.
abbrev event_of : ℕ → ℕ
event_of fd = 100 + fd

abbrev resume_task : ℕ → ℕ
resume_task cor = 1000 + cor

abbrev reactor : Reactor Chunks ℕ
reactor = record {
  wake_fd = 3;
  tid = 1;
  stop_flag = false;
  looping = true;
  fds = 3 ∷ [];
  pending_add_fds = [];
  pending_del_fds = [];
  pending_tasks = [];
  wakeups = 0;
  fd_events = λ p. record { fd = 5; read_cb = none; write_cb = none; listen_events = 0 };
  world = [];
}

-- The coroutine 2 runs; 1 is the main one.
abbrev in_coroutine : Thread (Unit {0}) ℕ
in_coroutine = record {
  main_coroutine = some 1;
  cur_coroutine = some 2;
  coroutine_count = 2;
  cur_coroutine_id = 2;
  coroutines = λ q. record {
    cor_id = q;
    coctx = replicate 14 0;
    stack_size = 0;
    stack_sp = none;
    is_in_cofunc = false;
    call_back = none;
  };
  next_address = 3;
  world = tt;
}

abbrev thread : NetThread Chunks ℕ
thread = record { reactor = reactor; cors = in_coroutine }

-- Meanwhile two bytes arrive.
abbrev bytes_arrive : NetThread Chunks ℕ → Option (NetThread Chunks ℕ)
bytes_arrive s = some (record s { reactor = record s.reactor { world = (8 ∷ 9 ∷ []) ∷ [] } })

inside : is_main_coroutine thread.cors ≡ false
unfolding is_main_coroutine same_pointer
inside = refl

read_hook_waits_example :
    (waiting : NetThread Chunks ℕ) × (read_hook calls 1 event_of resume_task bytes_arrive 5 16
        thread
      ≡ (do s' ← bytes_arrive waiting; some (system_call (read_chunk 5 16) s')))
    × (waiting.cors ≡ record in_coroutine { cur_coroutine = some 1 })
    × ((e : EpollEvent)
        → IsReadable 105 reactor e
        → handle_one calls.epoll_ctl e waiting.reactor
          ≡ some (record waiting.reactor {
            pending_tasks = waiting.reactor.pending_tasks ++ some 1002 ∷ [];
          }))
unfolding registered to_epoll listen set_non_block add_listen_events update_to_reactor add_event
    wakeup add_event_in_loop_thread set_callback get_current_coroutine
read_hook_waits_example =
    read_hook_waits calls 1 event_of resume_task bytes_arrive 5 16 2 thread refl inside refl

abbrev timed : TimedCalls Chunks
timed = record {
  timerfd_create = λ w. (11, w);
  sys_connect = λ fd w. (negsuc 0, w);
  sys_sleep = λ seconds w. (0, w);
  errno = λ w. einprogress;
  set_errno = λ e w. w;
}

abbrev awake : TimedThread Chunks ℕ
awake = record {
  net = thread;
  init_timer = false;
  timer = 0;
  timers = λ k. record { events = λ id. timer_event 0 0 false 0; pending = []; armed = none };
  next_timer = 1;
}

abbrev wake_up : TimedThread Chunks ℕ → Option (Bool × TimedThread Chunks ℕ)
wake_up s = some (false, s)

sleep_hook_wakes_example :
    (waiting : TimedThread Chunks ℕ) × (sleep_hook calls timed 1 event_of
        (λ k. 200 + k)
        resume_task
        (λ k. 4000 + k)
        wake_up
        70
        71
        1
        2
        awake
      ≡ (do back ← wake_up waiting; some (0, back.1)))
    × (waiting.net.cors ≡ record in_coroutine { cur_coroutine = some 1 })
    × (71 < 70 + 1000 * 2 % 2 ^ 32
        → (waiting.timers waiting.timer).armed
          ≡ some (
            (70 + 1000 * 2 % 2 ^ 32 - 71) / 1000,
            (70 + 1000 * 2 % 2 ^ 32 - 71) % 1000 * 1000000,
          ))
    × (71 ≡ 70 + 1000 * 2 % 2 ^ 32 → (waiting.timers waiting.timer).armed ≡ some (0, 0))
    × ((later end : ℕ) (clock : ℕ → ℕ)
        → 70 + 1000 * 2 % 2 ^ 32 ≤ later
        → (on_timer later clock end (waiting.timers waiting.timer)).0 ≡ 1002 ∷ [])
sleep_hook_wakes_example =
    sleep_hook_wakes calls timed 1 event_of (λ k. 200 + k) resume_task (λ k. 4000 + k) wake_up 70 71
      1 2 2 awake refl inside refl
