-- ===== src/Net/FdEvent.antt =====
-- net/fd_event.h and net/fd_event.cc: a descriptor with its callbacks and the events it listens to.
-- An `int` is its 32-bit pattern. A callback is `none` where the std::function is empty.
pub mod Container
mod Tests
use tiny_rpc.Prelude.{ℕ, ◌^◌, Option, none, ◌==◌, if◌then◌else◌}

-- The values of `IOEvent`, those of EPOLLIN, EPOLLOUT and EPOLLET.
abbrev pub read_event : ℕ
read_event = 1

abbrev pub write_event : ℕ
write_event = 4

abbrev pub et_model : ℕ
et_model = 2 ^ 31

pub record FdEvent (Task : Type 0) : Type 0 where
  pub fd : ℕ
  pub read_cb : Option Task
  pub write_cb : Option Task
  pub listen_events : ℕ

module _ {Task : Type 0} where
  unfoldable pub fd_event : ℕ → FdEvent Task
  fd_event fd = record { fd = fd; read_cb = none; write_cb = none; listen_events = 0 }

  unfoldable pub set_callback : ℕ → Option Task → FdEvent Task → FdEvent Task
  set_callback flag cb e =
      if flag == read_event
      then record e { read_cb = cb }
      else if flag == write_event
      then record e { write_cb = cb }
      else e

  unfoldable pub get_callback : ℕ → FdEvent Task → Option Task
  get_callback flag e =
      if flag == read_event then e.read_cb else if flag == write_event then e.write_cb else none

  -- `handleEvent`: the callback that is called; a call of an empty one throws.
  unfoldable pub handle_event : ℕ → FdEvent Task → Option Task
  unfolding get_callback
  handle_event flag e = get_callback flag e
