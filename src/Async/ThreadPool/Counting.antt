-- ===== src/Async/ThreadPool/Counting.antt =====
-- The count of the pool among all who use it. A state says what each caller and thread is in the
-- midst of, and a step is what one of them does next.
use tiny_rpc.Prelude.{
  ℕ, suc, ◌+◌, ◌%◌, ◌≡◌, ◌↔◌, ◌<◌, refl, ap, ◌∙◌, arith, true, false, none, some, List, [], ◌∷◌,
  ◌++◌, length, length-append,
}
use tiny_rpc.Async.ThreadPool.{
  Handle, ThreadPool, size_mod, fetch_sub, schedule, schedule_impl, resume, resume_range,
  queue_range, end_range, shutdown, empty,
}

-- `operations`: awaited operations that are not suspended yet, and handles that `resume` has
-- counted. `ranges`: ranges that are counted and not queued. `null_counts`: null handles of ranges
-- that are queued. `running`: handles that threads have popped and are resuming.
pub record System : Type 0 where
  pub pool : ThreadPool
  pub operations : ℕ
  pub ranges : List (List Handle)
  pub null_counts : List ℕ
  pub running : ℕ

pub data Step (s : System) : System → Type 0 where
  schedules :
      {p : ThreadPool}
      → schedule s.pool ≡ some p
      → Step s (record s { pool = p; operations = s.operations + 1 })
  resumes :
      (h : ℕ) → Step s (record s { pool = resume (some h) s.pool; operations = s.operations + 1 })
  suspends :
      (h n : ℕ)
      → s.operations ≡ suc n
      → Step s (record s { pool = schedule_impl (some h) s.pool; operations = n })
  begins_range :
      (handles : List Handle)
      → Step s (record s { pool = resume_range handles s.pool; ranges = handles ∷ s.ranges })
  queues_range :
      (before after : List (List Handle)) (handles : List Handle)
      → s.ranges ≡ before ++ handles ∷ after
      → Step s (record s {
        pool = (queue_range handles 0 s.pool).0;
        ranges = before ++ after;
        null_counts = (queue_range handles 0 s.pool).1 ∷ s.null_counts;
      })
  ends_range :
      (before after : List ℕ) (n : ℕ)
      → s.null_counts ≡ before ++ n ∷ after
      → Step s (record s { pool = end_range n s.pool; null_counts = before ++ after })
  pops :
      (h : ℕ) (rest : List ℕ)
      → s.pool.queue ≡ h ∷ rest
      → Step s (record s { pool = record s.pool { queue = rest }; running = s.running + 1 })
  finishes :
      (n : ℕ) → s.running ≡ suc n → Step s (record s { pool = fetch_sub 1 s.pool; running = n })
  shuts : Step s (record s { pool = shutdown s.pool })

pub data Steps (s : System) : System → Type 0 where
  stay : Steps s s
  then_step : {t u : System} → Steps s t → Step t u → Steps s u

abbrev pub sum : List ℕ → ℕ
sum [] = 0
sum (n ∷ ns) = n + sum ns

abbrev pub sum_lengths : List (List Handle) → ℕ
sum_lengths [] = 0
sum_lengths (hs ∷ rest) = length hs + sum_lengths rest

-- All that is under way.
abbrev pub under_way : System → ℕ
under_way s =
    s.operations + sum_lengths s.ranges + sum s.null_counts + length s.pool.queue + s.running

sum-append : (xs ys : List ℕ) → sum (xs ++ ys) ≡ sum xs + sum ys
sum-append [] ys = omega arith
sum-append (x ∷ xs) ys = omega (arith, sum-append xs ys)

sum_lengths-append :
    (xs ys : List (List Handle)) → sum_lengths (xs ++ ys) ≡ sum_lengths xs + sum_lengths ys
sum_lengths-append [] ys = omega arith
sum_lengths-append (x ∷ xs) ys = omega (arith, sum_lengths-append xs ys)

-- A range is queued but for its null handles, which are counted.
queue_range_lem :
    (handles : List Handle) (n : ℕ) (p : ThreadPool)
    → (length (queue_range handles n p).0.queue + (queue_range handles n p).1
        ≡ length p.queue + n + length handles)
      × ((queue_range handles n p).0.size ≡ p.size)
unfolding queue_range
queue_range_lem [] n p = (omega arith, refl)
queue_range_lem (none ∷ handles) n p =
    let (e, k) = queue_range_lem handles (n + 1) p in (omega arith, k)
queue_range_lem (some h ∷ handles) n p =
    let (e, k) = queue_range_lem handles n (record p { queue = p.queue ++ h ∷ [] }) in
    (omega (arith, length-append p.queue (h ∷ [])), k)

schedule_counts :
    (s : System) {p : ThreadPool}
    → s.pool.size ≡ under_way s % size_mod
    → schedule s.pool ≡ some p
    → p.size ≡ under_way (record s { pool = p; operations = s.operations + 1 }) % size_mod
unfolding schedule
schedule_counts s e made = ground arith

shutdown_counts :
    (s : System)
    → s.pool.size ≡ under_way s % size_mod
    → (shutdown s.pool).size ≡ under_way (record s { pool = shutdown s.pool }) % size_mod
unfolding shutdown
shutdown_counts s e = ground arith

end_counts :
    (s : System) (before after : List ℕ) (n : ℕ)
    → s.pool.size ≡ under_way s % size_mod
    → s.null_counts ≡ before ++ n ∷ after
    → (end_range n s.pool).size
      ≡ under_way (record s { pool = end_range n s.pool; null_counts = before ++ after }) % size_mod
unfolding end_range
end_counts s before after n e at =
    ground (arith, ap sum at, sum-append before (n ∷ after), sum-append before after)

step_counts :
    {s t : System}
    → s.pool.size ≡ under_way s % size_mod
    → Step s t
    → t.pool.size ≡ under_way t % size_mod
unfolding schedule schedule_impl resume resume_range end_range shutdown
step_counts {s} e (schedules made) = schedule_counts s e made
step_counts {s} e (resumes h) = omega arith
step_counts {s} e (suspends h n at) = omega (arith, length-append s.pool.queue (h ∷ []))
step_counts {s} e (begins_range hs) = omega arith
step_counts {s} e (queues_range before after hs at) =
    let (q, k) = queue_range_lem hs 0 s.pool in
    k
    ∙ e
    ∙ omega (
      arith,
      ap sum_lengths at,
      sum_lengths-append before (hs ∷ after),
      sum_lengths-append before after,
      q,
    )
step_counts {s} e (ends_range before after n at) = end_counts s before after n e at
step_counts {s} e (pops h rest at) = omega (arith, ap length at)
step_counts {s} e (finishes n at) = omega arith
step_counts {s} e shuts = shutdown_counts s e

-- A new pool, which nobody uses yet.
abbrev pub fresh : System
fresh = record {
  pool = record { queue = []; size = 0; is_shutdown = false; stop_requested = false };
  operations = 0;
  ranges = [];
  null_counts = [];
  running = 0;
}

Steps-counted : {s : System} → Steps fresh s → s.pool.size ≡ under_way s % size_mod
Steps-counted stay = omega arith
Steps-counted (then_step steps last) = step_counts (Steps-counted steps) last

-- However the callers and threads of a pool take turns from its start, in the midst of their calls
-- too, the size of the pool is, modulo 2^64, the number of operations that are scheduled and not
-- suspended yet, of handles that are counted by `resume` and not queued yet, null handles of a
-- range included until they are taken off, of handles in the queue and of handles that a thread is
-- resuming; and while that number is below 2^64, the pool says that it is empty exactly when
-- nothing of all this is under way.
pub size_counts :
    (s : System)
    → Steps fresh s
    → (s.pool.size ≡ under_way s % size_mod)
      × (under_way s < size_mod → (empty s.pool ≡ true) ↔ (under_way s ≡ 0))
unfolding empty
size_counts s steps =
    let counts = Steps-counted steps in (counts, λ small. (λ e. ground arith, λ e. ground arith))
