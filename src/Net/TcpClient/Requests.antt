-- ===== src/Net/TcpClient/Requests.antt =====
-- net/tcp_client.cc, sendAndRecv: a request that is answered, and a connection that fails.
use tiny_rpc.Prelude.{ℕ, zero, suc, ◌+◌, false, Option, some, ◌≡◌, refl, arith}
use tiny_rpc.Prelude.Int.{ℤ}
use tiny_rpc.Net.TcpConnection.{TcpConnection, Transport, is_connected}
use tiny_rpc.Net.TcpClient.{TcpClient, net_conn_failed, is_zero, try_connect, send_and_recv}

module _ {S : Type 0} (t : Transport S) (connect : ℕ → S → Option (ℤ × S)) where
  -- Every attempt fails, and `attempts` counts it.
  abbrev pub Refuses : (S → ℕ) → Type 0
  Refuses attempts =
      (fd : ℕ) (s : S)
      → (rt : ℤ) × (s' : S) × (connect fd s ≡ some (rt, s'))
        × (is_zero rt ≡ false)
        × (attempts s' ≡ suc (attempts s))

  try_connect_refused :
      (attempts : S → ℕ)
      → Refuses attempts
      → (n : ℕ) (c : TcpClient) (s : S)
      → (s' : S) × (try_connect t connect n c s ≡ some (c, s')) × (attempts s' ≡ attempts s + n)
  unfolding try_connect
  try_connect_refused attempts refuses zero c s = (s, refl, omega arith)
  try_connect_refused attempts refuses (suc n) c s =
      let (rt, s1, tried, failed, counted) = refuses c.fd s in
      let (s2, rest, total) = try_connect_refused attempts refuses n c s1 in
      (s2, rw (tried, failed) rest, omega (arith, counted, total))

  -- A client that is not connected, of a peer that refuses every connection: `sendAndRecv` makes
  -- as many attempts as it may, and then returns NET_CONN_FAILED with the client unchanged.
  pub send_and_recv_refused :
      (attempts : S → ℕ)
      → Refuses attempts
      → (fuel : ℕ) (c : TcpClient) (s : S) → is_connected c.connection.state ≡ false
      → (s' : S) × (send_and_recv t connect fuel c s ≡ some (net_conn_failed, (c, s')))
        × (attempts s' ≡ attempts s + c.max_retry)
  unfolding send_and_recv
  send_and_recv_refused attempts refuses fuel c s off =
      let (s', tried, total) = try_connect_refused attempts refuses c.max_retry c s in
      (s', rw (off, tried, off) refl, total)
