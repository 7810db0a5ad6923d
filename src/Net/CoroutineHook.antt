-- ===== src/Net/CoroutineHook.antt =====
-- net/coroutine_hook.h and coroutine_hook.cc: reading, writing and accepting inside a coroutine,
-- which waits for the descriptor by going back to the main coroutine. The system calls are
-- parameters on what is outside, and `others` is what the thread does from the switch of a
-- `Yield`, with the main coroutine current, to the `Resume` that returns from it; `none` where no
-- `Resume` comes or a fault does.
-- `event_of` is the address of the event that the container holds for a descriptor, and
-- `resume_task` the callback that resumes the coroutine at an address. The event belongs to the
-- reactor of the thread already.
pub mod Waking
pub mod Timed
mod Tests
use tiny_rpc.Prelude.{
  ℕ, ◌^◌, Bool, true, false, not, List, [], ◌∷◌, Option, none, some, ◌==◌, if◌then◌else◌, bit_and,
  bit_or, length,
}
use tiny_rpc.Prelude.Int.{ℤ, pos, negsuc}
use tiny_rpc.Prelude.Maybe.{◌>>=◌}
use tiny_rpc.Common.Coroutine.{Thread, get_current_coroutine, is_main_coroutine, yield_coroutine}
use tiny_rpc.Net.FdEvent.{FdEvent, read_event, write_event, set_callback}
use tiny_rpc.Net.Reactor.{Reactor, EpollEvent, Operation, invalid_fd}
use tiny_rpc.Net.Reactor.Listening.{set_fd_event, add_listen_events}

-- The result of `read`: the bytes that it has put at the front of its buffer, or -1.
pub data Received : Type 0 where
  received : List ℕ → Received
  failed : Received

abbrev pub amount : Received → ℤ
amount (received bytes) = pos (length bytes)
amount failed = negsuc 0

abbrev pub is_positive : ℤ → Bool
is_positive (pos n) = not (n == 0)
is_positive (negsuc n) = false

-- A thread: its reactor with what is outside, and its coroutines.
pub record NetThread (World Task : Type 0) : Type 0 where
  pub reactor : Reactor World Task
  pub cors : Thread (Unit {0}) Task

abbrev pub o_nonblock : ℕ
o_nonblock = 2048

-- The system calls.
pub record Calls (World : Type 0) : Type 0 where
  pub epoll_ctl : Operation → ℕ → Option EpollEvent → World → Bool × World
  pub get_flags : ℕ → World → ℕ
  pub set_flags : ℕ → ℕ → World → World
  pub sys_read : ℕ → ℕ → World → Received × World
  pub sys_write : ℕ → List ℕ → World → ℤ × World
  pub sys_accept : ℕ → World → ℤ × World

module _ {World Task : Type 0} where
  abbrev pub in_world : (World → World) → NetThread World Task → NetThread World Task
  in_world f s = record s { reactor = record s.reactor { world = f s.reactor.world } }

  abbrev pub system_call :
      {A : Type 0} → (World → A × World) → NetThread World Task → A × NetThread World Task
  system_call call s = let done = call s.reactor.world in (done.0, in_world (λ w. done.1) s)

  module _ (calls : Calls World) (caller : ℕ) (event_of : ℕ → ℕ) (resume_task : ℕ → Task)
      (others : NetThread World Task → Option (NetThread World Task)) where
    -- `setNonBlock`.
    unfoldable pub set_non_block : ℕ → World → World
    set_non_block fd w =
        let flag = calls.get_flags fd w in
        if fd == invalid_fd
        then w
        else if bit_and flag o_nonblock == 0
        then calls.set_flags fd (bit_or flag o_nonblock) w
        else w

    -- One half of `toEpoll`.
    unfoldable pub listen : ℕ → ℕ → ℕ → NetThread World Task → NetThread World Task
    listen p flag cur s = record s {
      reactor = add_listen_events calls.epoll_ctl caller p flag (
          set_fd_event p (set_callback flag (some (resume_task cur)) (s.reactor.fd_events p))
            s.reactor);
    }

    unfoldable pub to_epoll : ℕ → ℕ → NetThread World Task → NetThread World Task
    to_epoll p events s =
        let cur = get_current_coroutine s.cors in
        let s' : NetThread World Task = record s { cors = cur.1 } in
        let s'' = if bit_and events read_event == 0 then s' else listen p read_event cur.0 s' in
        if bit_and events write_event == 0 then s'' else listen p write_event cur.0 s''

    -- `Yield`: the switch to the main coroutine and all that comes before the switch back; without
    -- a main coroutine, or in it, it returns at once.
    unfoldable pub yield_back : NetThread World Task → Option (NetThread World Task)
    yield_back s = do
      cors ← yield_coroutine (λ co main w. w) s.cors
      let switched : NetThread World Task = record s { cors = cors }
      if is_main_coroutine s.cors then some s else others switched

    -- The call again, once `Yield` returns.
    unfoldable pub call_after_yield :
        {A : Type 0}
        → (World → A × World)
        → NetThread World Task
        → Option (A × NetThread World Task)
    call_after_yield call s = do s' ← yield_back s; some (system_call call s')

    -- The statements before the first call of `read` and `write`.
    unfoldable pub registered : ℕ → ℕ → NetThread World Task → NetThread World Task
    registered fd flag s =
        let p = event_of fd in
        to_epoll p flag (in_world (set_non_block (s.reactor.fd_events p).fd) s)

    unfoldable pub read_hook :
        ℕ → ℕ → NetThread World Task → Option (Received × NetThread World Task)
    read_hook fd count s =
        let call = calls.sys_read fd count in
        let first = system_call call (registered fd read_event s) in
        if is_main_coroutine s.cors
        then some (system_call call s)
        else if is_positive (amount first.0)
        then some first
        else call_after_yield call first.1

    unfoldable pub accept_hook : ℕ → NetThread World Task → Option (ℤ × NetThread World Task)
    accept_hook sockfd s =
        let call = calls.sys_accept sockfd in
        let p = event_of sockfd in
        let first = system_call call (in_world (set_non_block (s.reactor.fd_events p).fd) s) in
        if is_main_coroutine s.cors
        then some (system_call call s)
        else if is_positive first.0
        then some first
        else call_after_yield call (to_epoll p read_event first.1)

    unfoldable pub write_hook :
        ℕ → List ℕ → NetThread World Task → Option (ℤ × NetThread World Task)
    write_hook fd bytes s =
        let call = calls.sys_write fd bytes in
        let first = system_call call (registered fd write_event s) in
        if is_main_coroutine s.cors
        then some (system_call call s)
        else if is_positive first.0
        then some first
        else call_after_yield call first.1
