-- ===== src/Net/Reactor/Changes.antt =====
-- net/reactor.cc: the changes that other threads leave for the loop, and how it takes them up.
use tiny_rpc.Prelude.{
  ℕ, ◌≡◌, refl, sym, ◌∙◌, arith, Bool, true, false, not, ◌&&◌, List, [], ◌∷◌, Option, some, ◌==◌,
  All,
}
use tiny_rpc.Prelude.Maybe.{◌>>=◌}
use tiny_rpc.Net.Reactor.{
  Reactor, EpollEvent, Operation, contains, add_event_in_loop_thread, add_all, del_all,
  take_changes, add_event, del_event, insert_event, wakeup,
}
use tiny_rpc.Net.Reactor.Watching.{
  EpollLaws, IsMirror, IsDistinct, add_event_in_loop_thread-IsMirror,
  del_event_in_loop_thread-IsMirror, contains-append,
}

module _ {World Task : Type 0}
    (epoll_ctl : Operation → ℕ → Option EpollEvent → World → Bool × World) where
  contains-add_event :
      (fd x : ℕ) (event : EpollEvent) (r : Reactor World Task)
      → contains r.fds x ≡ true
      → contains (add_event_in_loop_thread epoll_ctl fd event r).fds x ≡ true
  unfolding add_event_in_loop_thread
  contains-add_event fd x event r e = ground (arith, contains-append r.fds (fd ∷ []) x)

  contains-add_all :
      (m : List (ℕ × EpollEvent)) (x : ℕ) (r : Reactor World Task)
      → contains r.fds x ≡ true
      → contains (add_all epoll_ctl m r).fds x ≡ true
  unfolding add_all
  contains-add_all [] x r e = e
  contains-add_all ((fd, event) ∷ m) x r e =
      contains-add_all m x (add_event_in_loop_thread epoll_ctl fd event r)
        (contains-add_event fd x event r e)

  pending-add_all :
      (m : List (ℕ × EpollEvent)) (r : Reactor World Task)
      → ((add_all epoll_ctl m r).pending_add_fds ≡ r.pending_add_fds)
        × ((add_all epoll_ctl m r).pending_del_fds ≡ r.pending_del_fds)
  unfolding add_all add_event_in_loop_thread
  pending-add_all [] r = (refl, refl)
  pending-add_all ((fd, event) ∷ m) r =
      pending-add_all m (add_event_in_loop_thread epoll_ctl fd event r)

  module _ (watched : World → ℕ → Bool) (laws : EpollLaws epoll_ctl watched) where
    add_all-IsMirror :
        (m : List (ℕ × EpollEvent)) (r : Reactor World Task)
        → IsMirror epoll_ctl watched r
        → IsMirror epoll_ctl watched (add_all epoll_ctl m r)
    unfolding add_all
    add_all-IsMirror [] r v = v
    add_all-IsMirror ((fd, event) ∷ m) r v =
        add_all-IsMirror m (add_event_in_loop_thread epoll_ctl fd event r)
          (add_event_in_loop_thread-IsMirror epoll_ctl watched laws fd event r v)

    still_there :
        (fds : List ℕ) (fd : ℕ) (r r' : Reactor World Task)
        → contains fds fd ≡ false
        → All (λ x. contains r.fds x ≡ true) fds
        → ((x : ℕ) → contains r'.fds x ≡ (not (fd == x) && contains r.fds x))
        → All (λ x. contains r'.fds x ≡ true) fds
    still_there [] fd r r' e a gone = tt
    still_there (x ∷ fds) fd r r' e a gone =
        (ground (arith, gone x, a.0), still_there fds fd r r' (ground arith) a.1 gone)

    del_all-IsMirror :
        (fds : List ℕ) (r : Reactor World Task)
        → IsMirror epoll_ctl watched r
        → IsDistinct fds
        → All (λ fd. contains r.fds fd ≡ true) fds
        → (r' : Reactor World Task) × (del_all epoll_ctl fds r ≡ some r')
          × IsMirror epoll_ctl watched r'
          × ((x : ℕ) → contains r'.fds x ≡ (not (contains fds x) && contains r.fds x))
    unfolding del_all
    del_all-IsMirror [] r v d a = (r, refl, v, λ x. refl)
    del_all-IsMirror (fd ∷ fds) r v d a =
        let (r1, e, v1, gone) =
          del_event_in_loop_thread-IsMirror epoll_ctl watched laws fd r v a.0 in
        let (r2, e2, v2, rest) =
          del_all-IsMirror fds r1 v1 d.1 (still_there fds fd r r1 d.0 a.1 gone) in
        (r2, rw e e2, v2, λ x. ground (arith, rest x, gone x))

    everything :
        (fds : List ℕ) (m : List (ℕ × EpollEvent)) (r : Reactor World Task)
        → All (λ fd. contains r.fds fd ≡ true) fds
        → All (λ fd. contains (add_all epoll_ctl m r).fds fd ≡ true) fds
    everything [] m r a = tt
    everything (fd ∷ fds) m r a = (contains-add_all m fd r a.0, everything fds m r a.1)

    -- If `epoll_ctl` does as its manual says, `fds_` has exactly the watched descriptors, each
    -- once, and the pending removals are distinct and of descriptors in `fds_`, the loop takes up
    -- all pending changes without a fault; then `fds_` has exactly the watched descriptors, each
    -- once, and the kernel watches no descriptor that was to be removed.
    pub take_changes-IsMirror :
        (r : Reactor World Task)
        → IsMirror epoll_ctl watched r
        → IsDistinct r.pending_del_fds
        → All (λ fd. contains r.fds fd ≡ true) r.pending_del_fds
        → (r' : Reactor World Task) × (take_changes epoll_ctl r ≡ some r')
          × IsMirror epoll_ctl watched r'
          × ((fd : ℕ) → contains r.pending_del_fds fd ≡ true → watched r'.world fd ≡ false)
    unfolding take_changes
    take_changes-IsMirror r v d a =
        let r0 : Reactor World Task = record r { pending_add_fds = []; pending_del_fds = [] } in
        let v0 : IsMirror epoll_ctl watched r0 = record { same = v.same; once = v.once } in
        let (r', e, v', rest) =
          del_all-IsMirror r.pending_del_fds (add_all epoll_ctl r.pending_add_fds r0)
            (add_all-IsMirror r.pending_add_fds r0 v0) d
            (everything r.pending_del_fds r.pending_add_fds r0 a) in
        (r', e, v', λ fd h. sym (v'.same fd) ∙ rest fd ∙ rw h refl)

  -- From a thread that is not the loop's, a removal and an addition leave the same reactor in
  -- either order, so that the loop cannot tell which came first.
  pub del_event-add_event :
      (caller fd fd' : ℕ) (event : EpollEvent) (is_wakeup : Bool) (r : Reactor World Task)
      → (r.tid == caller) ≡ false
      → (del_event epoll_ctl caller fd is_wakeup r >>= λ r'.
          some (add_event epoll_ctl caller fd' event is_wakeup r'))
        ≡ del_event epoll_ctl caller fd is_wakeup (add_event epoll_ctl caller fd' event is_wakeup r)
  unfolding del_event add_event wakeup
  del_event-add_event caller fd fd' event is_wakeup r e = ground arith

insert_event_twice :
    (fd : ℕ) (event event' : EpollEvent) (m : List (ℕ × EpollEvent))
    → insert_event fd event' (insert_event fd event m) ≡ insert_event fd event m
unfolding insert_event
insert_event_twice fd event event' [] = ground arith
insert_event_twice fd event event' ((f, e) ∷ m) =
    ground (arith, insert_event_twice fd event event' m)

-- From a thread that is not the loop's, a second `addEvent` of a descriptor, before the loop has
-- taken up the first, changes nothing, if it does not wake the loop: the mask that it asks
-- for is lost.
pub add_event_twice :
    {World Task : Type 0} (epoll_ctl : Operation → ℕ → Option EpollEvent → World → Bool × World)
    (caller fd : ℕ) (event event' : EpollEvent) (r : Reactor World Task)
    → (r.tid == caller) ≡ false
    → add_event epoll_ctl caller fd event' false (add_event epoll_ctl caller fd event true r)
      ≡ add_event epoll_ctl caller fd event true r
unfolding add_event wakeup
add_event_twice epoll_ctl caller fd event event' r e =
    ground (arith, insert_event_twice fd event event' r.pending_add_fds)
