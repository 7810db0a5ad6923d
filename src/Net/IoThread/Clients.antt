-- ===== src/Net/IoThread/Clients.antt =====
-- net/io_thread.cc, addClient and MainLoopTimerFunc: which connections a thread keeps.
use tiny_rpc.Prelude.{
  ℕ, true, false, [], ◌∷◌, Option, some, ◌==◌, ◌≡◌, refl, subst, arith, inl, inr, Bool-cases,
  Option-cases,
}
use tiny_rpc.Common.Coroutine.{Coctx}
use tiny_rpc.Net.CoroutineHook.{NetThread}
use tiny_rpc.Net.TcpConnection.{
  TcpConnection, Transport, is_closed, server_side, register_to_time_wheel,
}
use tiny_rpc.Net.IoThread.{
  IoThread, Clients, find_client, put_client, is_alive, reset, new_connection, add_new, add_client,
}

same_key : (fd : ℕ) → (fd == fd) ≡ true
same_key fd = ground arith

find_client-put_client :
    (fd : ℕ) (conn : Option ℕ) (m : Clients) → find_client fd (put_client fd conn m) ≡ some conn
unfolding find_client put_client
find_client-put_client fd conn [] = rw (same_key fd) refl
find_client-put_client fd conn ((f, old) ∷ m) = ground (arith, find_client-put_client fd conn m)

just : {A : Type 0} {x y : A} → some x ≡ some y → x ≡ y
just eq = cc

module _ {World Task : Type 0} where
  module _ (t : Transport (NetThread World Task)) (malloc : ℕ → Unit {0} → Option ℕ × Unit {0})
      (registers : Coctx) (entry : ℕ) (loop_task resume_task : ℕ → Task) where
    new_connection-open :
        (fd conn : ℕ) (s s' : IoThread World Task)
        → new_connection t malloc registers entry loop_task resume_task fd s ≡ some (conn, s')
        → is_closed (s'.conns conn).state ≡ false
    unfolding new_connection server_side
    new_connection-open fd conn s s' made = ground (arith, same_key conn, same_key s.next_conn)

    register_keeps :
        (slot : ℕ) (c c' : TcpConnection) (z z' : NetThread World Task)
        → register_to_time_wheel t slot c z ≡ some (c', z')
        → c'.state ≡ c.state
    unfolding register_to_time_wheel
    register_keeps slot c c' z z' done = ground arith

    -- What `addClient` leaves in the map: a connection that is not closed.
    abbrev IsServed : ℕ → IoThread World Task → Type 0
    IsServed fd s =
        (conn : ℕ) × (find_client fd s.clients ≡ some (some conn))
        × (is_alive s.conns (some conn) ≡ true)

    add_new_lem :
        (fd : ℕ) (s s' : IoThread World Task)
        → add_new t malloc registers entry loop_task resume_task fd s ≡ some s'
        → IsServed fd s'
    unfolding add_new is_alive
    add_new_lem fd s s' added =
        elim (Option-cases (new_connection t malloc registers entry loop_task resume_task fd s)) [
          | inl fault ↦ ground (arith, fault)
          | inr ((conn, s1), made) ↦
              elim (Option-cases (register_to_time_wheel t s1.next_slot (s1.conns conn) s1.net)) [
                | inl fault ↦ ground (arith, made, fault)
                | inr ((c, net), registered) ↦
                    let kept =
                      register_keeps s1.next_slot (s1.conns conn) c s1.net net registered in
                    let opened = new_connection-open fd conn s s1 made in
                    let whole = rw (made, registered) at added in
                    subst (IsServed fd) (just whole) (
                      conn,
                      find_client-put_client fd (some conn) s1.clients,
                      rw (same_key conn, kept, opened) refl,
                    )
              ]
        ]

    served_again :
        (fd : ℕ) (s : IoThread World Task)
        → IsServed fd s
        → add_client t malloc registers entry loop_task resume_task fd s ≡ some (false, s)
    unfolding add_client
    served_again fd s (conn, found, alive) = rw (add_client, found, alive) refl

    added :
        (fd : ℕ) (s s' : IoThread World Task)
        → add_client t malloc registers entry loop_task resume_task fd s ≡ some (true, s')
        → IsServed fd s'
    unfolding add_client
    added fd s s' done = elim (Option-cases (find_client fd s.clients)) [
      | inl missing ↦
          let whole = rw (add_client, missing) at done in
          add_new_lem fd s s' (ground (arith, whole))
      | inr (old, found) ↦ elim (Bool-cases (is_alive s.conns old)) [
        | inl alive ↦ ground (arith, rw (add_client, found, alive) at done)
        | inr dead ↦
            let whole = rw (add_client, found, dead) at done in
            elim (Option-cases (reset old s)) [
              | inl fault ↦ ground (arith, whole, fault)
              | inr (freed, is_freed) ↦ add_new_lem fd freed s' (ground (arith, whole, is_freed))
            ]
      ]
    ]

    -- Once `addClient` has taken a descriptor, the map holds a connection for it that is not
    -- closed, and a second call for the same descriptor is refused and changes nothing.
    pub add_client_twice :
        (fd : ℕ) (s s' : IoThread World Task)
        → add_client t malloc registers entry loop_task resume_task fd s ≡ some (true, s')
        → ((conn : ℕ) × (find_client fd s'.clients ≡ some (some conn))
            × (is_closed (s'.conns conn).state ≡ false))
          × (add_client t malloc registers entry loop_task resume_task fd s' ≡ some (false, s'))
    unfolding is_alive
    add_client_twice fd s s' done =
        let (conn, found, alive) = added fd s s' done in
        ((conn, found, ground (arith, alive)), served_again fd s' (conn, found, alive))
