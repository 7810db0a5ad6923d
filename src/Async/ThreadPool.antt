-- ===== src/Async/ThreadPool.antt =====
-- async/thread_pool.hpp and thread_pool.cc: a pool of threads that resume coroutines in the order
-- in which their handles come. A handle is `none` when it is null. Each function here is what one
-- thread does between two accesses that another thread can see, except `executor`, which is a
-- thread while no other one takes or adds handles. What a resumed coroutine does is a parameter.
pub mod Draining
pub mod Counting
use tiny_rpc.Prelude.{
  ℕ, zero, suc, ◌+◌, ◌-◌, ◌%◌, ◌^◌, Bool, true, false, Option, none, some, List, [], ◌∷◌, ◌++◌,
  length, ltb, if◌then◌else◌,
}

abbrev pub Handle : Type 0
Handle = Option ℕ

abbrev pub size_mod : ℕ
size_mod = 2 ^ 64

-- `stop_requested` is what the tokens of the threads say.
pub record ThreadPool : Type 0 where
  pub queue : List ℕ
  pub size : ℕ
  pub is_shutdown : Bool
  pub stop_requested : Bool

abbrev pub fetch_add : ℕ → ThreadPool → ThreadPool
fetch_add n p = record p { size = (p.size + n) % size_mod }

abbrev pub fetch_sub : ℕ → ThreadPool → ThreadPool
fetch_sub n p = record p { size = (p.size + (size_mod - n % size_mod)) % size_mod }

-- `none` is the exception of a pool that is shutting down.
pub schedule : ThreadPool → Option ThreadPool
schedule p = if p.is_shutdown then none else some (fetch_add 1 p)

pub schedule_impl : Handle → ThreadPool → ThreadPool
schedule_impl none p = p
schedule_impl (some h) p = record p { queue = p.queue ++ h ∷ [] }

-- The part of `resume` on one handle before `schedule_impl`.
pub resume : Handle → ThreadPool → ThreadPool
resume none p = p
resume (some h) p = fetch_add 1 p

-- `resume` on a range: what it adds first, the loop under the lock with its count of null handles,
-- and what it takes off last.
pub resume_range : List Handle → ThreadPool → ThreadPool
resume_range handles p = fetch_add (length handles) p

pub queue_range : List Handle → ℕ → ThreadPool → ThreadPool × ℕ
queue_range [] null_handles p = (p, null_handles)
queue_range (none ∷ handles) null_handles p = queue_range handles (null_handles + 1) p
queue_range (some h ∷ handles) null_handles p =
    queue_range handles null_handles (record p { queue = p.queue ++ h ∷ [] })

pub end_range : ℕ → ThreadPool → ThreadPool
end_range null_handles p = if ltb 0 null_handles then fetch_sub null_handles p else p

-- `shutdown` up to the joins of its threads, which are left out: a thread of the pool that calls
-- it would join itself.
pub shutdown : ThreadPool → ThreadPool
shutdown p = if p.is_shutdown then p else record p { is_shutdown = true; stop_requested = true }

pub empty : ThreadPool → Bool
empty p = if ltb 0 p.size then false else true

-- How a thread stands: it has ended, or it waits on an empty queue.
pub data Outcome (S : Type 0) : Type 0 where
  ended : S → Outcome S
  asleep : S → Outcome S
  out_of_fuel : Outcome S

-- The pool, the handles that a thread has resumed, and all else.
pub record Running (World : Type 0) : Type 0 where
  pub pool : ThreadPool
  pub resumed : List ℕ
  pub outside : World

module _ {World : Type 0} (run : ℕ → Running World → Running World) where
  abbrev pub resume_front : ℕ → List ℕ → Running World → Running World
  resume_front h rest s =
      let popped = record s.pool { queue = rest } in
      let after = run h (record s { pool = popped; resumed = s.resumed ++ h ∷ [] }) in
      record after { pool = fetch_sub 1 after.pool }

  -- The inner loop of `executor`, which a request to stop leaves only when the queue is empty; then
  -- the outer loop ends too.
  pub drain : ℕ → Running World → List ℕ → Outcome (Running World)
  drain zero s queue = out_of_fuel
  drain (suc fuel) s [] = if s.pool.stop_requested then ended s else asleep s
  drain (suc fuel) s (h ∷ rest) =
      drain fuel (resume_front h rest s) (resume_front h rest s).pool.queue

  abbrev pub stopped :
      Option (ℕ → World → World) → ℕ → Outcome (Running World) → Outcome (Running World)
  stopped none idx o = o
  stopped (some f) idx (ended s) = ended (record s { outside = f idx s.outside })
  stopped (some f) idx (asleep s) = asleep s
  stopped (some f) idx out_of_fuel = out_of_fuel

  abbrev pub started : Option (ℕ → World → World) → ℕ → Running World → Running World
  started none idx s = s
  started (some f) idx s = record s { outside = f idx s.outside }

  pub executor :
      Option (ℕ → World → World)
      → Option (ℕ → World → World)
      → ℕ
      → ℕ
      → Running World
      → Outcome (Running World)
  executor on_start on_stop fuel idx s =
      let first = started on_start idx s in
      stopped on_stop idx
        (if first.pool.stop_requested then ended first else drain fuel first first.pool.queue)
