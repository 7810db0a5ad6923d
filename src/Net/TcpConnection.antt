-- ===== src/Net/TcpConnection.antt =====
-- net/tcp_connection.h and tcp_connection.cc: a connection, its two buffers and its states. What
-- a connection uses is a `Transport` on some state: the calls that wait in `read_hook` and
-- `write_hook`, the event of its descriptor, the system calls, and the time wheel. `none` is a
-- fault there or in a buffer, or a loop that has used up its fuel.
pub mod Closing
pub mod Input
pub mod Output
pub mod Hooked
mod Tests
use tiny_rpc.Prelude.{
  ℕ, zero, suc, ◌+◌, ◌-◌, ◌*◌, Bool, true, false, not, ◌&&◌, ◌||◌, List, Option, none, some, length,
  ltb, leb, ◌==◌, if◌then◌else◌,
}
use tiny_rpc.Prelude.Int.{ℤ, pos, negsuc}
use tiny_rpc.Prelude.Maybe.{◌>>=◌}
use tiny_rpc.Net.TcpBuffer.{
  TcpBuffer, tcp_buffer, read_able, write_able, get_size, resize_buffer, recycle_read,
  recycle_write,
}
use tiny_rpc.Net.TcpBuffer.Memory.{copy_in, copy_out}
use tiny_rpc.Net.CoroutineHook.{Received, received, failed, amount, is_positive}

pub data TcpConnectionState : Type 0 where
  not_connected connected half_closing closed : TcpConnectionState

pub data ConnectionType : Type 0 where
  server_connection client_connection : ConnectionType

pub record TcpConnection : Type 0 where
  pub fd : ℕ
  pub state : TcpConnectionState
  pub conn_type : ConnectionType
  pub read_buffer : TcpBuffer
  pub write_buffer : TcpBuffer
  pub stop_flag : Bool
  pub weak_slot : Option ℕ

pub record Transport (S : Type 0) : Type 0 where
  -- `read_hook` and `write_hook`.
  pub read : ℕ → ℕ → S → Option (Received × S)
  pub write : ℕ → List ℕ → S → Option (ℤ × S)
  -- `delListenEvents(IOEvent::WRITE)` and `unregisterFromReactor`.
  pub stop_writing : ℕ → S → S
  pub unregister : ℕ → S → Option S
  pub close_fd : ℕ → S → S
  pub shutdown_fd : ℕ → S → S
  -- Whether a pointer to the slot is left, and the time wheel's `fresh`.
  pub lock : ℕ → S → Bool
  pub fresh : ℕ → S → Option S

abbrev pub is_closed : TcpConnectionState → Bool
is_closed closed = true
is_closed _ = false

abbrev pub is_connected : TcpConnectionState → Bool
is_connected connected = true
is_connected _ = false

-- `state_ == Closed || state_ == NotConnected`.
abbrev pub is_idle : TcpConnectionState → Bool
is_idle closed = true
is_idle not_connected = true
is_idle _ = false

abbrev pub is_below : ℤ → ℕ → Bool
is_below (pos k) n = ltb k n
is_below (negsuc k) n = true

unfoldable pub server_side : ℕ → ℕ → TcpConnection
server_side fd buff_size = record {
  fd = fd;
  state = connected;
  conn_type = server_connection;
  read_buffer = tcp_buffer buff_size;
  write_buffer = tcp_buffer buff_size;
  stop_flag = false;
  weak_slot = none;
}

unfoldable pub client_side : ℕ → ℕ → TcpConnection
client_side fd buff_size = record {
  fd = fd;
  state = not_connected;
  conn_type = client_connection;
  read_buffer = tcp_buffer buff_size;
  write_buffer = tcp_buffer buff_size;
  stop_flag = false;
  weak_slot = none;
}

unfoldable pub set_up_client : TcpConnection → TcpConnection
set_up_client c = record c { state = connected }

-- The test at the head of the loop of `input`: a full buffer is doubled.
unfoldable pub ensure_room : TcpBuffer → Option TcpBuffer
ensure_room b = if write_able b == 0 then resize_buffer b (2 * get_size b) else some b

-- What `read` puts at the write index.
unfoldable pub store : Received → TcpBuffer → Option TcpBuffer
store (received bytes) b = do
  buffer ← copy_in b.buffer b.write_index bytes
  some (record b { buffer = buffer })
store failed b = some b

module _ {S : Type 0} (t : Transport S) where
  unfoldable pub register_to_time_wheel : ℕ → TcpConnection → S → Option (TcpConnection × S)
  register_to_time_wheel slot c s = do
    s' ← t.fresh slot s
    some (record c { weak_slot = some slot }, s')

  unfoldable pub clear_client : TcpConnection → S → Option (TcpConnection × S)
  clear_client c s =
      let cleared = do
        s' ← t.unregister c.fd s
        some (record c { stop_flag = true; state = closed }, t.close_fd c.fd s')
      in if is_closed c.state then some (c, s) else cleared

  unfoldable pub shutdown_connection : TcpConnection → S → TcpConnection × S
  shutdown_connection c s =
      if is_idle c.state then (c, s) else (record c { state = half_closing }, t.shutdown_fd c.fd s)

  -- The loop of `input`; the flag says that the connection was cleared.
  unfoldable pub read_all : ℕ → TcpConnection → S → Option (Bool × (TcpConnection × S))
  read_all zero c s = none
  read_all (suc fuel) c s = do
    b ← ensure_room c.read_buffer
    let read_count = write_able b
    (rt, s') ← t.read c.fd read_count s
    stored ← store rt b
    b' ← recycle_write stored (amount rt)
    let c' : TcpConnection = record c { read_buffer = b' }
    let cleared = (do done ← clear_client c' s'; some (true, done))
    let rest = read_all fuel c' s'
    if not (is_positive (amount rt))
        then cleared
        else if is_below (amount rt) read_count
        then some (false, (c', s'))
        else rest

  -- The end of `input`.
  unfoldable pub freshen : TcpConnection → S → Option (TcpConnection × S)
  freshen c s = elim c.conn_type [
    | client_connection ↦ some (c, s)
    | server_connection ↦ elim c.weak_slot [
      | none ↦ some (c, s)
      | some slot ↦
          let refreshed = (do s' ← t.fresh slot s; some (c, s')) in
          if t.lock slot s then refreshed else some (c, s)
    ]
  ]

  unfoldable pub input : ℕ → TcpConnection → S → Option (TcpConnection × S)
  input fuel c s =
      let received_all = do
        (close_flag, (c', s')) ← read_all fuel c s
        if close_flag then some (c', s') else freshen c' s'
      in if is_idle c.state then some (c, s) else received_all

  unfoldable pub output : ℕ → TcpConnection → S → Option (TcpConnection × S)
  output zero c s = none
  output (suc fuel) c s =
      let sent = do
        bytes ← copy_out c.write_buffer.buffer c.write_buffer.read_index (read_able c.write_buffer)
        (rt, s') ← t.write c.fd bytes s
        b ← recycle_read c.write_buffer rt
        let c' : TcpConnection = record c { write_buffer = b }
        let rest = output fuel c' s'
        if read_able b == 0 then some (c', t.stop_writing c.fd s') else rest
      in if not (is_connected c.state)
        then some (c, s)
        else if read_able c.write_buffer == 0
        then some (c, s)
        else sent

  -- `MainServerLoopCorFunc`: `rcb` and `wcb` are the calls of the two callbacks.
  unfoldable pub main_server_loop :
      (TcpConnection → S → Option (TcpConnection × S))
      → (TcpConnection → S → Option (TcpConnection × S))
      → ℕ
      → ℕ
      → TcpConnection
      → S
      → Option (TcpConnection × S)
  main_server_loop rcb wcb fuel zero c s = none
  main_server_loop rcb wcb fuel (suc rounds) c s =
      let round = do
        (c1, s1) ← input fuel c s
        (c2, s2) ← rcb c1 s1
        (c3, s3) ← wcb c2 s2
        (c4, s4) ← output fuel c3 s3
        main_server_loop rcb wcb fuel rounds c4 s4
      in if c.stop_flag then some (c, s) else round
