-- ===== src/Net/Reactor/Listening.antt =====
-- net/fd_event.cc: the events that a descriptor listens to, kept in a mask and passed on to the
-- reactor. A mask is a 32-bit pattern. The event is named by its address in the reactor's store.
use tiny_rpc.Prelude.{
  ℕ, zero, suc, ◌-◌, ◌/◌, ◌^◌, ◌≡◌, refl, arith, Bool, true, false, Option, none, some, ◌==◌,
  if◌then◌else◌, bit_and, bit_or,
}
use tiny_rpc.Prelude.Maybe.{◌>>=◌}
use tiny_rpc.Prelude.Bits.{bit_and_step, bit_or_step, bit_and-zero}
use native.Mathlib.Nat.{le_refl, pow-suc, one-le-pow}
use tiny_rpc.Net.FdEvent.{FdEvent}
use tiny_rpc.Net.Reactor.{
  Reactor, EpollEvent, Operation, add_event, del_event, wakeup, add_event_in_loop_thread,
}

module _ {World Task : Type 0} where
  abbrev pub set_fd_event : ℕ → FdEvent Task → Reactor World Task → Reactor World Task
  set_fd_event p f r = record r { fd_events = λ q. if p == q then f else r.fd_events q }

  module _ (epoll_ctl : Operation → ℕ → Option EpollEvent → World → Bool × World) (caller : ℕ) where
    unfoldable pub update_to_reactor : ℕ → Reactor World Task → Reactor World Task
    update_to_reactor p r =
        let f = r.fd_events p in
        let event : EpollEvent = record { events = f.listen_events; user_data = p } in
        add_event epoll_ctl caller f.fd event true r

    unfoldable pub add_listen_events : ℕ → ℕ → Reactor World Task → Reactor World Task
    add_listen_events p event r =
        let f = r.fd_events p in
        let f' : FdEvent Task = record f { listen_events = bit_or f.listen_events event } in
        if bit_and f.listen_events event == 0 then update_to_reactor p (set_fd_event p f' r) else r

    unfoldable pub del_listen_events : ℕ → ℕ → Reactor World Task → Reactor World Task
    del_listen_events p event r =
        let f = r.fd_events p in
        let rest = bit_and f.listen_events (2 ^ 32 - 1 - event) in
        let f' : FdEvent Task = record f { listen_events = rest } in
        if bit_and f.listen_events event == 0 then r else update_to_reactor p (set_fd_event p f' r)

    unfoldable pub unregister_from_reactor : ℕ → Reactor World Task → Option (Reactor World Task)
    unregister_from_reactor p r = do
      let f = r.fd_events p
      let f' : FdEvent Task = record f { listen_events = 0; read_cb = none; write_cb = none }
      r' ← del_event epoll_ctl caller f.fd true r
      some (set_fd_event p f' r')

-- A bit that is put into a mask is in it.
bit_of : (k m : ℕ) → bit_and (bit_or m (2 ^ k)) (2 ^ k) ≡ 2 ^ k
bit_of zero m = ground (
  arith,
  bit_or_step m 1,
  bit_and_step (bit_or m 1) 1,
  bit_and-zero (bit_or m 1 / 2) (bit_or m 1 / 2) (le_refl _),
)
bit_of (suc k) m = ground (
  arith,
  pow-suc 2 k,
  bit_or_step m (2 ^ suc k),
  bit_and_step (bit_or m (2 ^ suc k)) (2 ^ suc k),
  bit_of k (m / 2),
)

module _ {World Task : Type 0}
    (epoll_ctl : Operation → ℕ → Option EpollEvent → World → Bool × World) (caller : ℕ) where
  events-update_to_reactor :
      (p : ℕ) (r : Reactor World Task)
      → (update_to_reactor epoll_ctl caller p r).fd_events ≡ r.fd_events
  unfolding update_to_reactor add_event wakeup add_event_in_loop_thread
  events-update_to_reactor p r = ground arith

  -- After `addListenEvents` of READ, WRITE or any other single bit that the event does not listen
  -- to yet, the mask in the event has the bit, and a second call with it changes nothing.
  pub add_listen_events_twice :
      (p k : ℕ) (r : Reactor World Task)
      → bit_and (r.fd_events p).listen_events (2 ^ k) ≡ 0
      → (bit_and
            ((add_listen_events epoll_ctl caller p (2 ^ k) r).fd_events p).listen_events
            (2 ^ k)
          ≡ 2 ^ k)
        × (add_listen_events epoll_ctl caller p
              (2 ^ k)
              (add_listen_events epoll_ctl caller p (2 ^ k) r)
            ≡ add_listen_events epoll_ctl caller p (2 ^ k) r)
  unfolding add_listen_events
  add_listen_events_twice p k r new =
      let f = r.fd_events p in
      let f' : FdEvent Task = record f { listen_events = bit_or f.listen_events (2 ^ k) } in
      let first : add_listen_events epoll_ctl caller p (2 ^ k) r
          ≡ update_to_reactor epoll_ctl caller p (set_fd_event p f' r) =
        rw new refl in
      let mask : ((add_listen_events epoll_ctl caller p (2 ^ k) r).fd_events p).listen_events
          ≡ bit_or f.listen_events (2 ^ k) =
        rw (first, events-update_to_reactor p (set_fd_event p f' r)) (ground arith) in
      (
        rw mask (bit_of k f.listen_events),
        second (add_listen_events epoll_ctl caller p (2 ^ k) r)
            (rw mask (bit_of k f.listen_events)),
      )
    where
      second :
          (s : Reactor World Task)
          → bit_and (s.fd_events p).listen_events (2 ^ k) ≡ 2 ^ k
          → add_listen_events epoll_ctl caller p (2 ^ k) s ≡ s
      second s e =
          let set : (bit_and (s.fd_events p).listen_events (2 ^ k) == 0) ≡ false =
            ground (arith, one-le-pow k 2) in
          rw set refl
