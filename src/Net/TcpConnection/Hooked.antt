-- ===== src/Net/TcpConnection/Hooked.antt =====
-- net/tcp_connection.cc with net/coroutine_hook.cc, net/fd_event.cc, net/reactor.cc and
-- net/tcp_conn_timer.cc: what a connection uses, put together from those parts.
use tiny_rpc.Prelude.{ℕ, suc, ◌<◌, true, false, List, Option, some, length, ◌≡◌, refl, ◌∙◌, arith}
use tiny_rpc.Prelude.Maybe.{◌>>=◌}
use tiny_rpc.Net.TcpBuffer.{write_able}
use tiny_rpc.Net.TcpBuffer.Safety.{IsValid}
use tiny_rpc.Net.FdEvent.{write_event}
use tiny_rpc.Net.Reactor.Listening.{del_listen_events, unregister_from_reactor}
use tiny_rpc.Net.TimeWheel.{Wheel, holds, fresh}
use tiny_rpc.Net.TimeWheel.Expiry.{ticks, fresh_lives}
use tiny_rpc.Net.CoroutineHook.{NetThread, Calls, received, in_world, read_hook, write_hook}
use tiny_rpc.Net.TcpConnection.{
  TcpConnection, Transport, input, freshen, is_idle, server_connection,
}
use tiny_rpc.Net.TcpConnection.Input.{last, input_lem}

freshen_lem :
    {S : Type 0} (t : Transport S) (c : TcpConnection) (slot : ℕ) (s s' : S)
    → c.conn_type ≡ server_connection
    → c.weak_slot ≡ some slot
    → t.lock slot s ≡ true
    → t.fresh slot s ≡ some s'
    → freshen t c s ≡ some (c, s')
unfolding freshen
freshen_lem t c slot s s' server has_slot alive put = ground arith

-- What is outside a thread that serves connections, with the thread's time wheel, which the other
-- tasks of the thread move.
pub record Served (World : Type 0) : Type 0 where
  pub outside : World
  pub wheel : Wheel

module _ {World Task : Type 0} (calls : Calls (Served World)) (caller : ℕ) (event_of : ℕ → ℕ)
    (resume_task : ℕ → Task)
    (others : NetThread (Served World) Task → Option (NetThread (Served World) Task))
    (sys_close sys_shutdown : ℕ → Served World → Served World) where
  abbrev pub wheel_of : NetThread (Served World) Task → Wheel
  wheel_of s = s.reactor.world.wheel

  -- `unregisterFromReactor` of the descriptor's event.
  abbrev pub unregister_event :
      ℕ → NetThread (Served World) Task → Option (NetThread (Served World) Task)
  unregister_event fd s = do
    reactor ← unregister_from_reactor calls.epoll_ctl caller (event_of fd) s.reactor
    some (record s { reactor = reactor })

  abbrev pub fresh_slot : ℕ → NetThread (Served World) Task → Option (NetThread (Served World) Task)
  fresh_slot slot s = do
    wheel ← fresh slot (wheel_of s)
    some (in_world (λ w. record w { wheel = wheel }) s)

  unfoldable pub hooked : Transport (NetThread (Served World) Task)
  hooked = record {
    read = λ fd count s. read_hook calls caller event_of resume_task others fd count s;
    write = λ fd bytes s. write_hook calls caller event_of resume_task others fd bytes s;
    stop_writing = λ fd s. record s {
      reactor = del_listen_events calls.epoll_ctl caller (event_of fd) write_event s.reactor;
    };
    unregister = unregister_event;
    close_fd = λ fd s. in_world (sys_close (s.reactor.fd_events (event_of fd)).fd) s;
    shutdown_fd = λ fd s. in_world (sys_shutdown (s.reactor.fd_events (event_of fd)).fd) s;
    lock = λ slot s. holds (wheel_of s) slot;
    fresh = fresh_slot;
  }

  refreshed :
      (slot : ℕ) (c : TcpConnection) (z : NetThread (Served World) Task) (w' : Wheel)
      → c.conn_type ≡ server_connection
      → c.weak_slot ≡ some slot
      → holds (wheel_of z) slot ≡ true
      → fresh slot (wheel_of z) ≡ some w'
      → freshen hooked c z ≡ some (c, in_world (λ w. record w { wheel = w' }) z)
  unfolding hooked
  refreshed slot c z w' server has_slot held put =
      freshen_lem hooked c slot z (in_world (λ w. record w { wheel = w' }) z) server has_slot held
        (rw put refl)

  -- A server's connection with a valid buffer, neither closed nor unconnected: after `input` has
  -- received some bytes, fewer than its room, and the wheel then still holds its slot, the wheel
  -- holds the slot through any number of ticks below the number of its buckets, so that these do
  -- not shut the connection down.
  pub input-ticks :
      (n fuel slot : ℕ) (c : TcpConnection) (s s' : NetThread (Served World) Task) (bytes : List ℕ)
      → is_idle c.state ≡ false
      → IsValid c.read_buffer
      → c.conn_type ≡ server_connection
      → c.weak_slot ≡ some slot
      → 0 < length bytes
      → length bytes < write_able c.read_buffer
      → hooked.read c.fd (write_able c.read_buffer) s ≡ some (received bytes, s')
      → holds (wheel_of s') slot ≡ true
      → n < length (wheel_of s')
      → (c' : TcpConnection) × (s'' : NetThread (Served World) Task) × (gone : List ℕ) × (w : Wheel)
        × (input hooked (suc fuel) c s ≡ some (c', s''))
        × (ticks n (wheel_of s'') ≡ some (gone, w))
        × (holds w slot ≡ true)
  input-ticks n fuel slot c s s' bytes busy v server has_slot some_bytes short got held few =
      let (b', done, v', same) =
        input_lem hooked 0 (suc fuel) c s s s' bytes busy v (omega arith) (last s) some_bytes short
          got in
      let (w', w'', gone, all, put, ticked, holding, later) =
        fresh_lives n slot (wheel_of s') few in
      let c' : TcpConnection = record c { read_buffer = b' } in
      (
        c',
        in_world (λ w. record w { wheel = w' }) s',
        gone,
        w'',
        done ∙ refreshed slot c' s' w' server has_slot held put,
        ticked,
        holding,
      )
