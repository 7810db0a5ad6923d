-- ===== src/Net/TcpServer/Accepting.antt =====
-- net/tcp_server.cc, MainAcceptCorFunc, with net/io_thread.cc, getIOThread: the clients are
-- spread over the threads.
use tiny_rpc.Prelude.{
  ℕ, zero, suc, ◌+◌, ◌≤◌, ◌<◌, true, false, [], ◌∷◌, ◌++◌, Option, some, ◌==◌, if◌then◌else◌, ◌≡◌,
  refl, ap, subst, sym, ◌∙◌, arith, Bool-cases, inl, inr, ◌⊎◌,
}
use tiny_rpc.Prelude.Int.{ℤ, pos, negsuc}
use tiny_rpc.Net.Reactor.{Reactor, add_task, wakeup}
use tiny_rpc.Net.IoThread.{IoThreadPool, get_io_thread}
use tiny_rpc.Net.IoThread.Dealing.{next_thread, first_thread}
use tiny_rpc.Net.TcpServer.{
  TcpServer, is_known, accepted, to_accept, dispatch, accept_round, accept_rounds,
}

-- Each `accept` gives a new client.
abbrev pub Arrives : {S Address : Type 0} → (ℕ → S → Option ((ℤ × Address) × S)) → ℕ → Type 0
Arrives {S} {Address} accept listen_fd =
    (s : S)
    → (fd : ℕ) × (addr : Address) × (s' : S) × (accept listen_fd s ≡ some ((pos fd, addr), s'))

module _ {S World Task Address : Type 0} (accept : ℕ → S → Option ((ℤ × Address) × S))
    (sys_close : ℤ → S → S) (yield_to_main : S → Option S) (client_task : ℕ → ℤ → Task) where
  -- One more task for a client in the queue of a reactor.
  abbrev pub HasOneMore : ℕ → Reactor World Task → Reactor World Task → Type 0
  HasOneMore i r r' =
      (fd : ℤ) × (r'.pending_tasks ≡ r.pending_tasks ++ some (client_task i fd) ∷ [])

  tasks-add :
      (task : Option Task) (r : Reactor World Task)
      → (add_task task true r).pending_tasks ≡ r.pending_tasks ++ task ∷ []
  unfolding add_task wakeup
  tasks-add task r = ground arith

  -- A round that gives the client to the thread `i`.
  accept_one :
      (i : ℕ) (pool' : IoThreadPool) (v : TcpServer World Task Address) (s : S)
      → Arrives accept v.listen_fd
      → is_known v.family ≡ true
      → get_io_thread v.io_pool ≡ some (i, pool')
      → (v' : TcpServer World Task Address) × (s' : S) × (accept_round accept sys_close
            yield_to_main client_task v s
          ≡ some (v', s'))
        × (v'.listen_fd ≡ v.listen_fd)
        × (v'.family ≡ v.family)
        × (v'.io_pool ≡ pool')
        × (v'.tcp_counts ≡ suc v.tcp_counts)
        × HasOneMore i (v.reactors i) (v'.reactors i)
        × ((j : ℕ) → (i == j) ≡ false → v'.reactors j ≡ v.reactors j)
  unfolding accept_round to_accept accepted dispatch
  accept_one i pool' v s arrives known thread =
      let (fd, addr, s', got) = arrives s in
      let same : (i == i) ≡ true = ground arith in
      (
        record v {
          peer_addr = some addr;
          io_pool = pool';
          reactors = λ j.
              if i == j
              then add_task (some (client_task i (pos fd))) true (v.reactors j)
              else v.reactors j;
          tcp_counts = suc v.tcp_counts;
        },
        s',
        rw (got, known, thread) refl,
        refl,
        refl,
        refl,
        refl,
        (pos fd, rw same (tasks-add (some (client_task i (pos fd))) (v.reactors i))),
        λ j other. rw other refl,
      )

  -- What `k` rounds from the thread `i` on do, the last of `n` being the last to get a client.
  abbrev Spreads : ℕ → ℕ → ℕ → TcpServer World Task Address → S → Type 0
  Spreads n k i v s =
      (v' : TcpServer World Task Address) × (s' : S) × (accept_rounds accept sys_close yield_to_main
          client_task k v s
        ≡ some (v', s'))
      × (v'.tcp_counts ≡ v.tcp_counts + k)
      × ((j : ℕ) → i ≤ j → j < n → HasOneMore j (v.reactors j) (v'.reactors j))
      × ((j : ℕ) → j < i → v'.reactors j ≡ v.reactors j)

  -- A round for the thread `i`, and those after it.
  accept_then :
      (n k i : ℕ) (pool : IoThreadPool) (v : TcpServer World Task Address) (s : S)
      → Arrives accept v.listen_fd
      → is_known v.family ≡ true
      → get_io_thread v.io_pool ≡ some (i, pool)
      → ((v1 : TcpServer World Task Address) (s1 : S)
          → Arrives accept v1.listen_fd
          → is_known v1.family ≡ true
          → v1.io_pool ≡ pool
          → Spreads n k (suc i) v1 s1)
      → Spreads n (suc k) i v s
  unfolding accept_rounds
  accept_then n k i pool v s arrives known thread rounds =
      let (v1, s1, first, lfd, fam, pool1, count1, here, others) =
        accept_one i pool v s arrives known thread in
      let (v2, s2, rest, count2, later, before) =
        rounds v1 s1 (subst (Arrives accept) (sym lfd) arrives) (ap is_known fam ∙ known) pool1 in
      (
        v2,
        s2,
        rw first rest,
        omega (arith, count1, count2),
        λ j above below. elim (Bool-cases (i == j)) [
          | inl same ↦
              let e : i ≡ j = ground arith in
              subst (λ q. HasOneMore q (v.reactors q) (v2.reactors q)) e
                (here.0, ap (λ r. r.pending_tasks) (before i (omega arith)) ∙ here.1)
          | inr other ↦
              let more = later j (ground arith) below in
              (
                more.0,
                more.1
                    ∙ ap (λ r. r.pending_tasks ++ some (client_task j more.0) ∷ [])
                        (others j other),
              )
        ],
        λ j below. before j (omega arith) ∙ others j (ground arith),
      )

  accept_rest :
      (n k i : ℕ) (v : TcpServer World Task Address) (s : S)
      → Arrives accept v.listen_fd
      → is_known v.family ≡ true
      → v.io_pool ≡ record { size = n; index = pos i }
      → i + k ≡ n
      → Spreads n k i v s
  unfolding accept_rounds
  accept_rest n zero i v s arrives known pool total =
      (v, s, refl, omega arith, λ j above below. absurd (omega arith), λ j below. refl)
  accept_rest n (suc k) i v s arrives known pool total =
      accept_then n k i (record { size = n; index = pos (suc i) }) v s arrives known
        (ap get_io_thread pool ∙ next_thread n i (omega arith))
        (λ v1 s1 arrives1 known1 pool1.
          accept_rest n k (suc i) v1 s1 arrives1 known1 pool1 (omega arith))

  -- A server of a known address family whose pool of threads is new or has just given its last
  -- thread, with a client arriving in each round: in as many rounds as there are threads
  -- `MainAcceptCorFunc` does not fault, it counts one client more in each, and the queue of each
  -- thread's reactor gets exactly one task, which adds a client.
  pub accept_rounds_spread :
      (n : ℕ) (v : TcpServer World Task Address) (s : S)
      → Arrives accept v.listen_fd
      → is_known v.family ≡ true
      → v.io_pool.size ≡ suc n
      → (v.io_pool.index ≡ negsuc 0) ⊎ (v.io_pool.index ≡ pos (suc n))
      → (v' : TcpServer World Task Address) × (s' : S) × (accept_rounds accept sys_close
            yield_to_main client_task
            (suc n)
            v
            s
          ≡ some (v', s'))
        × (v'.tcp_counts ≡ v.tcp_counts + suc n)
        × ((j : ℕ) → j < suc n → HasOneMore j (v.reactors j) (v'.reactors j))
  accept_rounds_spread n v s arrives known size turn =
      let (v', s', done, counted, all, none_before) =
        accept_then (suc n) n 0 (record { size = suc n; index = pos 1 }) v s arrives known
          (ap (λ k. get_io_thread (record { size = k; index = v.io_pool.index })) size
            ∙ first_thread (suc n) v.io_pool.index (omega arith) turn)
          (λ v1 s1 arrives1 known1 pool1.
            accept_rest (suc n) n 1 v1 s1 arrives1 known1 pool1 (omega arith)) in
      (v', s', done, counted, λ j below. all j (omega arith) below)
