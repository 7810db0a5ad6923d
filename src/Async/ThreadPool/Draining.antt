-- ===== src/Async/ThreadPool/Draining.antt =====
-- A thread of the pool resumes all that is in the queue.
use tiny_rpc.Prelude.{
  ℕ, zero, suc, ◌+◌, ◌≡◌, ◌<◌, ◌≤◌, refl, sym, ap, subst, ◌∙◌, arith, Bool, true, false, Option,
  none, some, List, [], ◌∷◌, ◌++◌, length, append_assoc, append-nil, if◌then◌else◌,
}
use tiny_rpc.Async.ThreadPool.{
  size_mod, ended, asleep, Running, resume_front, drain, stopped, started, executor,
}

module _ {World : Type 0} (run : ℕ → Running World → Running World) where
  -- A resumed coroutine leaves the pool as it is.
  pub record LeavesPool : Type 0 where
    pub same_pool : (h : ℕ) (s : Running World) → (run h s).pool ≡ s.pool
    pub same_resumed : (h : ℕ) (s : Running World) → (run h s).resumed ≡ s.resumed

  -- All of `queue` is resumed, in this order.
  pub record Drained (s : Running World) (queue : List ℕ) (s' : Running World) : Type 0 where
    pub emptied : s'.pool.queue ≡ []
    pub in_turn : s'.resumed ≡ s.resumed ++ queue
    pub counted : s'.pool.size + length queue ≡ s.pool.size
    pub same_stop : s'.pool.stop_requested ≡ s.pool.stop_requested

  drain-Drained :
      (fuel : ℕ) (s : Running World) (queue : List ℕ)
      → LeavesPool
      → s.pool.queue ≡ queue
      → length queue < fuel
      → length queue ≤ s.pool.size
      → s.pool.size < size_mod
      → (s' : Running World) × (drain run fuel s queue
          ≡ (if s'.pool.stop_requested then ended s' else asleep s'))
        × Drained s queue s'
  unfolding drain
  drain-Drained zero s queue leaves here enough counted small = absurd (omega arith)
  drain-Drained (suc fuel) s [] leaves here enough counted small = (
    s,
    refl,
    record {
      emptied = here;
      in_turn = sym (append-nil s.resumed);
      counted = omega arith;
      same_stop = refl;
    },
  )
  drain-Drained (suc fuel) s (h ∷ rest) leaves here enough counted small =
      let t = resume_front run h rest s in
      let queue_kept : t.pool.queue ≡ rest = ap (λ p. p.queue) (leaves.same_pool h _) in
      let size_kept : t.pool.size + 1 ≡ s.pool.size =
        omega (arith, ap (λ p. p.size) (leaves.same_pool h _)) in
      let (s', e, d) =
        drain-Drained fuel t rest leaves queue_kept (omega arith) (omega arith) (omega arith) in
      (
        s',
        ap (λ q. drain run fuel t q) queue_kept ∙ e,
        record {
          emptied = d.emptied;
          in_turn =
              d.in_turn
              ∙ ap (λ r. r ++ rest) (leaves.same_resumed h _)
              ∙ append_assoc s.resumed (h ∷ []) rest;
          counted = omega (arith, d.counted);
          same_stop = d.same_stop ∙ ap (λ p. p.stop_requested) (leaves.same_pool h _);
        },
      )

  stopped-asleep :
      (on_stop : Option (ℕ → World → World)) (idx : ℕ) (s : Running World)
      → stopped run on_stop idx (asleep s) ≡ asleep s
  stopped-asleep none idx s = refl
  stopped-asleep (some f) idx s = refl

  started_pool :
      (on_start : Option (ℕ → World → World)) (idx : ℕ) (s : Running World)
      → (started run on_start idx s).pool ≡ s.pool
  started_pool none idx s = refl
  started_pool (some f) idx s = refl

  -- A thread of the pool that begins when no stop is requested resumes every handle of the queue
  -- exactly once, in the order of the queue, each takes one off the size, and then it sleeps on the
  -- empty queue. A thread that begins after a stop was requested resumes nothing, leaves the pool
  -- as it is and ends, after its stop functor. Conditions: the coroutines and the
  -- functors leave the pool as it is, no other thread takes or adds handles or asks for a stop
  -- meanwhile, the size counts at least the queue and is below 2^64, and the bound on the rounds
  -- is above the number of the handles.
  pub executor_lem :
      (on_start on_stop : Option (ℕ → World → World)) (fuel idx : ℕ) (s : Running World)
      → LeavesPool
      → length s.pool.queue < fuel
      → length s.pool.queue ≤ s.pool.size
      → s.pool.size < size_mod
      → ((s.pool.stop_requested ≡ false
            → (s' : Running World) × (executor run on_start on_stop fuel idx s ≡ asleep s')
              × Drained (started run on_start idx s) s.pool.queue s')
          × (s.pool.stop_requested ≡ true
              → executor run on_start on_stop fuel idx s
                ≡ stopped run on_stop idx (ended (started run on_start idx s))))
  unfolding executor
  executor_lem on_start on_stop fuel idx s leaves enough counted small =
      let t = started run on_start idx s in
      let pool_kept = started_pool on_start idx s in
      let branch = λ (b : Bool).
        stopped run on_stop idx (if b then ended t else drain run fuel t t.pool.queue) in
      let (s', e, d) =
        drain-Drained fuel t s.pool.queue leaves (ap (λ p. p.queue) pool_kept) enough
          (subst (λ p. length s.pool.queue ≤ p.size) (sym pool_kept) counted)
          (subst (λ p. p.size < size_mod) (sym pool_kept) small) in
      (
        λ going. (
          s',
          ap branch (ap (λ p. p.stop_requested) pool_kept ∙ going)
              ∙ ap (λ q. stopped run on_stop idx (drain run fuel t q)) (ap (λ p. p.queue) pool_kept)
              ∙ ap (stopped run on_stop idx) e
              ∙ ap (λ b. stopped run on_stop idx (if b then ended s' else asleep s'))
                  (d.same_stop ∙ ap (λ p. p.stop_requested) pool_kept ∙ going)
              ∙ stopped-asleep on_stop idx s',
          d,
        ),
        λ stop. ap branch (ap (λ p. p.stop_requested) pool_kept ∙ stop),
      )
