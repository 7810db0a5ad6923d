-- ===== src/Net/TcpConnection/Closing.antt =====
-- net/tcp_connection.cc, clearClient and shutdownConnection: how a connection ends.
use tiny_rpc.Prelude.{
  ℕ, suc, ◌≤◌, ◌<◌, true, false, [], Option, some, ◌≡◌, refl, ◌∙◌, arith, append-nil,
}
use tiny_rpc.Net.TcpBuffer.{TcpBuffer, write_able}
use tiny_rpc.Net.TcpBuffer.Safety.{IsValid, readable}
use tiny_rpc.Net.TcpBuffer.Limits.{recycle_write-Yields}
use tiny_rpc.Net.CoroutineHook.{received}
use tiny_rpc.Net.TcpConnection.{
  TcpConnection, Transport, TcpConnectionState, read_all, input, output, clear_client,
  shutdown_connection, main_server_loop, is_idle, is_closed, closed,
}
use tiny_rpc.Net.TcpConnection.Input.{
  with_stored, with_stored-IsValid, store_lem, size-with_stored, ensure_room_idle,
  readable-with_stored,
}

module _ {S : Type 0} (t : Transport S) where
  -- On a closed connection `input`, `output`, `clearClient` and `shutdownConnection` all change
  -- nothing, in the connection or outside: its descriptor is not used, shut down or closed again.
  pub closed_final :
      (fuel : ℕ) (c : TcpConnection) (s : S)
      → c.state ≡ closed
      → (input t fuel c s ≡ some (c, s))
        × (output t (suc fuel) c s ≡ some (c, s))
        × (clear_client t c s ≡ some (c, s))
        × (shutdown_connection t c s ≡ (c, s))
  unfolding input output clear_client shutdown_connection
  closed_final fuel c s is_closed =
      (rw is_closed refl, rw is_closed refl, rw is_closed refl, rw is_closed refl)

  clear_client_lem :
      (c : TcpConnection) (s s' : S)
      → is_closed c.state ≡ false
      → t.unregister c.fd s ≡ some s'
      → clear_client t c s
        ≡ some (record c { stop_flag = true; state = closed }, t.close_fd c.fd s')
  unfolding clear_client
  clear_client_lem c s s' busy unregistered = rw (busy, unregistered) refl

  not_closed : (state : TcpConnectionState) → is_idle state ≡ false → is_closed state ≡ false
  not_closed state busy = ground arith

  -- Where the peer has closed, so that a read gives no bytes, `input` of a connection that is
  -- neither closed nor unconnected, with a valid buffer that has room, takes the descriptor from
  -- the reactor, closes it, and leaves the connection closed and stopped; what was readable stays
  -- readable.
  pub input_at_end :
      (fuel : ℕ) (c : TcpConnection) (s s' s'' : S)
      → is_idle c.state ≡ false
      → IsValid c.read_buffer
      → 0 < write_able c.read_buffer
      → t.read c.fd (write_able c.read_buffer) s ≡ some (received [], s')
      → t.unregister c.fd s' ≡ some s''
      → (b : TcpBuffer) × (input t (suc fuel) c s
          ≡ some
              (record c { read_buffer = b; stop_flag = true; state = closed }, t.close_fd c.fd s''))
        × IsValid b
        × (readable b ≡ readable c.read_buffer)
  unfolding input read_all
  input_at_end fuel c s s' s'' busy v room got unregistered =
      let b = c.read_buffer in
      let fits : 0 ≤ write_able b = omega arith in
      let (b', moved, v', same) =
        recycle_write-Yields (with_stored b []) 0 (with_stored-IsValid b [] v fits)
          (omega (arith, size-with_stored b [] v fits)) in
      (
        b',
        rw
            (
              busy,
              ensure_room_idle b room,
              got,
              store_lem b [] v fits,
              moved,
              clear_client_lem (record c { read_buffer = b' }) s' s'' (not_closed c.state busy)
                  unregistered,
            )
            refl,
        v',
        same ∙ append-nil (readable (with_stored b [])) ∙ readable-with_stored b [] v fits,
      )

  -- Once the peer has closed, so that a read gives no bytes, the loop of a connection that is
  -- neither stopped, closed nor unconnected, with a valid read buffer that has room, ends with
  -- the round that finds it: with two rounds of fuel or more, callbacks that leave a closed
  -- connection as it is, and a reactor that takes the descriptor back, `MainServerLoopCorFunc`
  -- returns, with the descriptor closed and the connection closed and stopped.
  pub main_server_loop_ends :
      (rcb wcb : TcpConnection → S → Option (TcpConnection × S)) (fuel rounds : ℕ)
      (c : TcpConnection) (s s' s'' : S)
      → ((c' : TcpConnection) (z : S) → c'.state ≡ closed → rcb c' z ≡ some (c', z))
      → ((c' : TcpConnection) (z : S) → c'.state ≡ closed → wcb c' z ≡ some (c', z))
      → c.stop_flag ≡ false
      → is_idle c.state ≡ false
      → IsValid c.read_buffer
      → 0 < write_able c.read_buffer
      → t.read c.fd (write_able c.read_buffer) s ≡ some (received [], s')
      → t.unregister c.fd s' ≡ some s''
      → (b : TcpBuffer) × (main_server_loop t rcb wcb (suc fuel) (suc (suc rounds)) c s
          ≡ some
              (record c { read_buffer = b; stop_flag = true; state = closed }, t.close_fd c.fd s''))
  unfolding main_server_loop
  main_server_loop_ends rcb wcb fuel rounds c s s' s'' on_read on_write running busy v room got
        unregistered =
      let (b, ended, v', same) = input_at_end fuel c s s' s'' busy v room got unregistered in
      let c' : TcpConnection = record c { read_buffer = b; stop_flag = true; state = closed } in
      let z = t.close_fd c.fd s'' in
      (
        b,
        rw (ended, on_read c' z refl, on_write c' z refl, (closed_final fuel c' z refl).1, running)
            refl,
      )
