-- ===== src/Net/TcpClient.antt =====
-- net/tcp_client.h and tcp_client.cc: a request over a connection and its reply.
-- `connect` is the call of `connect_hook`, and `none` a fault in a part that is used.
pub mod Requests
use tiny_rpc.Prelude.{ℕ, zero, suc, Bool, true, false, not, Option, none, some, ◌==◌, if◌then◌else◌}
use tiny_rpc.Prelude.Int.{ℤ, pos, negsuc}
use tiny_rpc.Prelude.Maybe.{◌>>=◌}
use tiny_rpc.Net.TcpConnection.{
  TcpConnection, Transport, is_connected, set_up_client, client_side, input, output,
}

pub data NetError : Type 0 where
  net_noerror net_conn_failed : NetError

pub record TcpClient : Type 0 where
  pub fd : ℕ
  pub max_retry : ℕ
  pub stop_flag : Bool
  pub connection : TcpConnection

-- `TcpClient(addr)`, for the descriptor that `socket` gives.
unfoldable pub tcp_client : ℕ → TcpClient
tcp_client fd = record {
  fd = fd;
  max_retry = 3;
  stop_flag = false;
  connection = client_side fd 128;
}

abbrev pub is_zero : ℤ → Bool
is_zero (pos n) = n == 0
is_zero (negsuc n) = false

module _ {S : Type 0} (t : Transport S) (connect : ℕ → S → Option (ℤ × S)) where
  unfoldable pub try_connect : ℕ → TcpClient → S → Option (TcpClient × S)
  try_connect zero c s = some (c, s)
  try_connect (suc n) c s = do
    (rt, s') ← connect c.fd s
    let rest = try_connect n c s'
    if is_zero rt then some (record c { connection = set_up_client c.connection }, s') else rest

  unfoldable pub exchange_messages : ℕ → TcpClient → S → Option (NetError × (TcpClient × S))
  exchange_messages fuel c s = do
    (c1, s1) ← output t fuel (set_up_client c.connection) s
    (c2, s2) ← input t fuel c1 s1
    some (net_noerror, (record c { connection = c2 }, s2))

  unfoldable pub send_and_recv : ℕ → TcpClient → S → Option (NetError × (TcpClient × S))
  send_and_recv fuel c s = do
    (c', s') ← if is_connected c.connection.state then some (c, s) else try_connect c.max_retry c s
    let exchanged = exchange_messages fuel c' s'
    if is_connected c'.connection.state then exchanged else some (net_conn_failed, (c', s'))
