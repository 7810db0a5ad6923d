-- ===== src/Net/CoroutineHook/Waking.antt =====
-- net/coroutine_hook.cc with net/reactor.cc: a coroutine that waits for a descriptor goes back to
-- the main coroutine and is resumed by the event of that descriptor.
use tiny_rpc.Prelude.{
  ℕ, ◌^◌, ◌%◌, true, false, [], ◌∷◌, ◌++◌, Option, some, ◌==◌, bit_and, bit_or, ◌≡◌, refl, arith,
  append-nil, Bool-cases, inl, inr, sym, ap, ◌∙◌, subst,
}
use tiny_rpc.Prelude.Maybe.{◌>>=◌}
use tiny_rpc.Common.Coroutine.{Thread, get_current_coroutine, is_main_coroutine}
use tiny_rpc.Common.Coroutine.Switching.{yield-inside}
use tiny_rpc.Net.FdEvent.{FdEvent, read_event, write_event, set_callback, get_callback}
use tiny_rpc.Net.Reactor.{
  Reactor, EpollEvent, handle_one, push_callbacks, add_event, wakeup, add_event_in_loop_thread,
}
use tiny_rpc.Net.Reactor.Listening.{set_fd_event, add_listen_events, update_to_reactor}
use tiny_rpc.Net.CoroutineHook.{
  NetThread, Calls, amount, is_positive, in_world, system_call, set_non_block, listen, to_epoll,
  registered, call_after_yield, yield_back, read_hook,
}

same_address : (p : ℕ) → (p == p) ≡ true
same_address p = ground arith

-- An event that reports input, for the descriptor whose FdEvent is at `p`.
pub record IsReadable {World Task : Type 0} (p : ℕ) (r : Reactor World Task) (e : EpollEvent)
    : Type 0 where
  pub at_event : e.user_data ≡ p
  pub not_null : (p == 0) ≡ false
  pub not_wakeup : (p % 2 ^ 32 == r.wake_fd) ≡ false
  pub input : (bit_and e.events read_event == 0) ≡ false
  pub no_output : (bit_and e.events write_event == 0) ≡ true

module _ {World Task : Type 0} (calls : Calls World) (caller : ℕ) (event_of : ℕ → ℕ)
    (resume_task : ℕ → Task) (others : NetThread World Task → Option (NetThread World Task)) where
  events-update :
      (p : ℕ) (r : Reactor World Task)
      → (update_to_reactor calls.epoll_ctl caller p r).fd_events ≡ r.fd_events
  unfolding update_to_reactor add_event wakeup add_event_in_loop_thread
  events-update p r = ground arith

  tasks-update :
      (p : ℕ) (r : Reactor World Task)
      → (update_to_reactor calls.epoll_ctl caller p r).pending_tasks ≡ r.pending_tasks
  unfolding update_to_reactor add_event wakeup add_event_in_loop_thread
  tasks-update p r = ground arith

  wake_fd-update :
      (p : ℕ) (r : Reactor World Task)
      → (update_to_reactor calls.epoll_ctl caller p r).wake_fd ≡ r.wake_fd
  unfolding update_to_reactor add_event wakeup add_event_in_loop_thread
  wake_fd-update p r = ground arith

  -- What `addListenEvents` keeps of the reactor and of its event.
  add_listen_events_keeps :
      (p event : ℕ) (r : Reactor World Task)
      → (((add_listen_events calls.epoll_ctl caller p event r).fd_events p).read_cb
          ≡ (r.fd_events p).read_cb)
        × (((add_listen_events calls.epoll_ctl caller p event r).fd_events p).write_cb
            ≡ (r.fd_events p).write_cb)
        × ((add_listen_events calls.epoll_ctl caller p event r).wake_fd ≡ r.wake_fd)
  unfolding add_listen_events
  add_listen_events_keeps p event r =
      elim (Bool-cases (bit_and (r.fd_events p).listen_events event == 0)) [
        | inl new ↦ (
          rw (new, events-update p (changed p event r), same_address p) refl,
          rw (new, events-update p (changed p event r), same_address p) refl,
          rw (new, wake_fd-update p (changed p event r)) refl,
        )
        | inr old ↦ (rw old refl, rw old refl, rw old refl)
      ]
    where
      changed : ℕ → ℕ → Reactor World Task → Reactor World Task
      changed p event r =
          set_fd_event p
            (record (r.fd_events p) { listen_events = bit_or (r.fd_events p).listen_events event })
            r

  listen_lem :
      (p cur : ℕ) (s : NetThread World Task)
      → (((listen calls caller event_of resume_task others p read_event cur s).reactor.fd_events
            p).read_cb
          ≡ some (resume_task cur))
        × ((listen calls caller event_of resume_task others p read_event cur s).reactor.wake_fd
            ≡ s.reactor.wake_fd)
  unfolding listen set_callback
  listen_lem p cur s =
      let f : FdEvent Task = record (s.reactor.fd_events p) { read_cb = some (resume_task cur) } in
      let keeps = add_listen_events_keeps p read_event (set_fd_event p f s.reactor) in
      (keeps.0 ∙ rw (same_address p) refl, keeps.2)

  to_epoll_lem :
      (p : ℕ) (s : NetThread World Task)
      → (((to_epoll calls caller event_of resume_task others p read_event s).reactor.fd_events
            p).read_cb
          ≡ some (resume_task (get_current_coroutine s.cors).0))
        × ((to_epoll calls caller event_of resume_task others p read_event s).reactor.wake_fd
            ≡ s.reactor.wake_fd)
  unfolding to_epoll
  to_epoll_lem p s =
      listen_lem p (get_current_coroutine s.cors).0
        (record s { cors = (get_current_coroutine s.cors).1 })

  registered_lem :
      (fd : ℕ) (s : NetThread World Task)
      → (((registered calls caller event_of resume_task others fd read_event s).reactor.fd_events
            (event_of fd)).read_cb
          ≡ some (resume_task (get_current_coroutine s.cors).0))
        × ((registered calls caller event_of resume_task others fd read_event s).reactor.wake_fd
            ≡ s.reactor.wake_fd)
  unfolding registered
  registered_lem fd s = to_epoll_lem (event_of fd) (
      in_world
        (set_non_block calls caller event_of resume_task others
          (s.reactor.fd_events (event_of fd)).fd)
        s)

  handle_one_lem :
      (p : ℕ) (r : Reactor World Task) (e : EpollEvent) (task : Task)
      → (r.fd_events p).read_cb ≡ some task
      → IsReadable p r e
      → handle_one calls.epoll_ctl e r
        ≡ some (record r { pending_tasks = r.pending_tasks ++ some task ∷ [] })
  unfolding handle_one push_callbacks get_callback
  handle_one_lem p r e task registered readable =
      rw
        (
          readable.at_event,
          readable.not_wakeup,
          readable.not_null,
          readable.input,
          readable.no_output,
          registered,
          append-nil (r.pending_tasks ++ some task ∷ []),
        )
        refl

  registered-cors :
      (fd cur : ℕ) (s : NetThread World Task)
      → s.cors.cur_coroutine ≡ some cur
      → ((registered calls caller event_of resume_task others fd read_event s).cors ≡ s.cors)
        × ((get_current_coroutine s.cors).0 ≡ cur)
  unfolding registered to_epoll listen get_current_coroutine
  registered-cors fd cur s here = rw here (refl, refl)

  yield_back_lem :
      (cur : ℕ) (s : NetThread World Task)
      → s.cors.cur_coroutine ≡ some cur
      → is_main_coroutine s.cors ≡ false
      → yield_back calls caller event_of resume_task others s
        ≡ others (record s { cors = record s.cors { cur_coroutine = s.cors.main_coroutine } })
  unfolding yield_back
  yield_back_lem cur s here inside = rw (yield-inside cur s.cors here inside, inside) refl

  -- In a coroutine that is current and not the main one, where the first `read` gives nothing or
  -- fails, `read_hook` goes back to the main coroutine, which is current while this one waits, and
  -- once `Yield` returns its result is that of a second `read`, whatever that is. While it waits,
  -- an event of epoll that reports input and no output for the descriptor, and is not taken for a
  -- null pointer or a wake-up, makes the loop queue the callback that resumes this coroutine.
  pub read_hook_waits :
      (fd count cur : ℕ) (s : NetThread World Task)
      → s.cors.cur_coroutine ≡ some cur
      → is_main_coroutine s.cors ≡ false
      → is_positive (
          amount
            (system_call
              (calls.sys_read fd count)
              (registered calls caller event_of resume_task others fd read_event s)).0)
        ≡ false
      → (waiting : NetThread World Task) × (read_hook calls caller event_of resume_task others fd
            count s
          ≡ (do s' ← others waiting; some (system_call (calls.sys_read fd count) s')))
        × (waiting.cors ≡ record s.cors { cur_coroutine = s.cors.main_coroutine })
        × ((e : EpollEvent)
            → IsReadable (event_of fd) s.reactor e
            → handle_one calls.epoll_ctl e waiting.reactor
              ≡ some (record waiting.reactor {
                pending_tasks = waiting.reactor.pending_tasks ++ some (resume_task cur) ∷ [];
              }))
  unfolding read_hook call_after_yield
  read_hook_waits fd count cur s here inside empty =
      let ready = registered calls caller event_of resume_task others fd read_event s in
      let first = system_call (calls.sys_read fd count) ready in
      let (same, is_cur) = registered-cors fd cur s here in
      let back =
        yield_back_lem cur first.1 (ap (λ t. t.cur_coroutine) same ∙ here)
          (ap is_main_coroutine same ∙ inside) in
      (
        record first.1 { cors = record ready.cors { cur_coroutine = ready.cors.main_coroutine } },
        rw (inside, empty, back) refl,
        ap {A = Thread (Unit {0}) Task} (λ t. record t { cur_coroutine = t.main_coroutine }) same,
        λ e readable.
            handle_one_lem (event_of fd) first.1.reactor e (resume_task cur)
              ((registered_lem fd s).0 ∙ ap (λ c. some (resume_task c)) is_cur)
              (record {
                at_event = readable.at_event;
                not_null = readable.not_null;
                not_wakeup =
                    subst (λ k. (event_of fd % 2 ^ 32 == k) ≡ false) (sym (registered_lem fd s).1)
                      readable.not_wakeup;
                input = readable.input;
                no_output = readable.no_output;
              }),
      )
