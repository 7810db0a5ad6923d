-- ===== src/Async/Tests.antt =====
-- Runs of an event, a pool, an awaitable for several tasks and a container, and their theorems at
-- concrete inputs.
use tiny_rpc.Prelude.{
  ℕ, ◌+◌, ◌*◌, ◌%◌, ◌≡◌, ◌⊎◌, ◌↔◌, ◌<◌, ◌≤◌, refl, arith, true, false, none, some, List, [], ◌∷◌,
  ◌++◌, ◌==◌, if◌then◌else◌,
}
use tiny_rpc.Async.Event.{
  Ptr, null, Store, this, head, Event, fifo, done, initial_state, set, write,
}
use tiny_rpc.Async.Event.Chain.{Cells, has, first, awaiter, Linked}
use tiny_rpc.Async.Event.Setting.{in_order, coroutines, resume_each, set_lem}
use tiny_rpc.Async.Event.Waiting.{
  System, waiting, start, Steps, begins, passes, exchanges, stay, then_step, begin, pass,
  compare_exchange,
}
use tiny_rpc.Async.Event.Waiting.Reaching.{suspended_listed}
use tiny_rpc.Async.ThreadPool.{
  ThreadPool, size_mod, fetch_add, fetch_sub, resume, resume_range, queue_range, end_range, empty,
  ended, asleep, started, stopped, executor,
}
use tiny_rpc.Async.ThreadPool
use tiny_rpc.Async.ThreadPool.Draining.{Drained, executor_lem}
use tiny_rpc.Async.ThreadPool.Counting
use tiny_rpc.Async.ThreadPool.Counting.{
  under_way, fresh, size_counts, begins_range, queues_range, resumes, suspends,
}
use tiny_rpc.Async.WhenAll
use tiny_rpc.Async.WhenAll.{
  at_once, later, when_all_latch, try_await_all, complete, Awaiting, proceeding,
}
use tiny_rpc.Async.WhenAll.Once.{expected, resumed_once}
use tiny_rpc.Async.TaskContainer.{
  TaskContainer, init, finish, gc_internal, indices, make_room, next, remove, splice_each, grow,
  last,
}
use tiny_rpc.Async.TaskContainer
use tiny_rpc.Async.TaskContainer.Counts.{count}
use tiny_rpc.Async.TaskContainer.Running
use tiny_rpc.Async.TaskContainer.Running.{capacity_after}
use tiny_rpc.Async.TaskContainer.Reaching.{take_slot_lem, full_loses}

-- Two awaiters: the one at address 5 came last.
abbrev two_waiting : Store
two_waiting p =
    if p == 5 then some (awaiter 50 3) else if p == 3 then some (awaiter 30 null) else none

abbrev two_cells : Cells
two_cells = (5, 50) ∷ (3, 30) ∷ []

-- The outside lists the coroutines that have run.
abbrev listening : Event (List ℕ)
listening = record { state = head 5; store = two_waiting; outside = [] }

abbrev note : ℕ → Event (List ℕ) → Event (List ℕ)
note c e = record e { outside = e.outside ++ c ∷ [] }

set_lem_example :
    (listening.state ≡ head (first two_cells)
      → (store : Store) × (set note fifo 3 listening
          ≡ done (
            coroutines (in_order fifo two_cells),
            resume_each note
                (coroutines (in_order fifo two_cells))
                (record listening { state = this; store = store }),
          ))
        × Linked store (in_order fifo two_cells))
    × (listening.state ≡ this → set note fifo 3 listening ≡ done ([], listening))
set_lem_example =
    set_lem note fifo 3 listening two_cells (ground arith) ((λ e r i. refl), ((λ e r i. refl), tt))
      (omega arith)

-- A coroutine begins to wait at address 5, links its awaiter and is suspended.
abbrev one_frame : Store
one_frame p = if p == 5 then some (awaiter 0 null) else none

abbrev began : System (Unit {0})
began = begin 5 50 (awaiter 0 null) (start false one_frame tt)

abbrev tried : System (Unit {0})
tried = pass 5 (head null) (awaiter 50 null) began

abbrev slept : System (Unit {0})
slept = compare_exchange 5 (head null) tried

slept-Steps : Steps (start false one_frame tt) slept
unfolding begin pass compare_exchange initial_state write
slept-Steps =
    then_step
      (then_step (then_step stay (begins 5 50 (awaiter 0 null) refl refl))
        (passes 5 (head null) (awaiter 50 null) refl refl))
      (exchanges 5 (head null) refl)

suspended_listed_example :
    (cells : Cells) × Linked slept.event.store cells
    × (((slept.event.state ≡ this) × (cells ≡ [])) ⊎ (slept.event.state ≡ head (first cells)))
    × ((q : Ptr) → (slept.phase q ≡ waiting) ↔ (has q cells ≡ true))
suspended_listed_example = suspended_listed false one_frame tt slept refl slept-Steps

-- A pool with two handles, and coroutines that leave it alone.
abbrev two_handles : ThreadPool.Running (Unit {0})
two_handles = record {
  pool = record { queue = 7 ∷ 9 ∷ []; size = 2; is_shutdown = false; stop_requested = false };
  resumed = [];
  outside = tt;
}

executor_lem_example :
    (two_handles.pool.stop_requested ≡ false
      → (s' : ThreadPool.Running (Unit {0})) × (executor (λ h s. s) none none 3 0 two_handles
          ≡ asleep s')
        × Drained (λ h s. s) (started (λ h s. s) none 0 two_handles) (7 ∷ 9 ∷ []) s')
    × (two_handles.pool.stop_requested ≡ true
        → executor (λ h s. s) none none 3 0 two_handles
          ≡ stopped (λ h s. s) none 0 (ended (started (λ h s. s) none 0 two_handles)))
executor_lem_example =
    executor_lem (λ h s. s) none none 3 0 two_handles
      (record { same_pool = λ h s. refl; same_resumed = λ h s. refl }) (omega arith) (omega arith)
      (omega arith)

-- A range of a handle and a null one is counted and queued, and its null handle not taken off yet.
abbrev half_queued : Counting.System
half_queued = record fresh {
  pool = (queue_range (some 4 ∷ none ∷ []) 0 (resume_range (some 4 ∷ none ∷ []) fresh.pool)).0;
  null_counts =
      (queue_range (some 4 ∷ none ∷ []) 0 (resume_range (some 4 ∷ none ∷ []) fresh.pool)).1 ∷ [];
}

size_counts_example :
    (half_queued.pool.size ≡ under_way half_queued % size_mod)
    × (under_way half_queued < size_mod
        → (empty half_queued.pool ≡ true) ↔ (under_way half_queued ≡ 0))
size_counts_example = size_counts half_queued (
    Counting.then_step (Counting.then_step Counting.stay (begins_range (some 4 ∷ none ∷ [])))
      (queues_range [] [] (some 4 ∷ none ∷ []) refl))

-- The only task ends before the coroutine arrives.
abbrev early_end : Awaiting
early_end = record {
  latch = record { count = 0; awaiting_co = some 6 };
  unstarted = 0;
  unfinished = 0;
  phase = proceeding;
  resumed = [];
}

early_end-Steps : WhenAll.Steps 6 (WhenAll.fresh 1) early_end
unfolding when_all_latch WhenAll.notify_awaitable_completed
early_end-Steps =
    WhenAll.then_step
      (WhenAll.then_step
        (WhenAll.then_step (WhenAll.then_step WhenAll.stay (WhenAll.starts 0 refl refl))
          (WhenAll.completes 0 refl))
        (WhenAll.writes refl refl))
      (WhenAll.arrives refl)

resumed_once_example :
    (early_end.resumed ≡ expected 6 early_end.phase (early_end.unstarted + early_end.unfinished))
    × (early_end.phase ≡ proceeding → early_end.unstarted + early_end.unfinished ≡ 0)
resumed_once_example = resumed_once 6 1 early_end (omega arith) early_end-Steps

abbrev double : ℕ → ℕ
double n = n * 2

-- A container of one slot, whose only task has ended and is not collected yet.
abbrev one_started : TaskContainer
one_started = record {
  size = 1;
  capacity = 1;
  task_idx = 0 ∷ [];
  task_to_del = [];
  free_pos = none;
}

abbrev one_ended : TaskContainer
one_ended = record {
  size = 0;
  capacity = 1;
  task_idx = 0 ∷ [];
  task_to_del = 0 ∷ [];
  free_pos = none;
}

abbrev one_grown : TaskContainer
one_grown = record {
  size = 1;
  capacity = 2;
  task_idx = 0 ∷ 1 ∷ [];
  task_to_del = [];
  free_pos = none;
}

one_ended-Steps : Running.Steps double (init 1) [] one_ended []
unfolding init indices TaskContainer.take_slot gc_internal make_room next finish remove
one_ended-Steps =
    Running.then_step
      (Running.then_step Running.stay (Running.starts false {c' = one_started} {index = 0} refl))
      (Running.finishes 0 (omega arith))

one_grown-take_slot : TaskContainer.take_slot double true one_ended ≡ some (one_grown, 1)
unfolding indices TaskContainer.take_slot gc_internal make_room next remove splice_each grow last
one_grown-take_slot = refl

double_grows : (n : ℕ) → 0 < n → n < double n
double_grows n h = omega arith

take_slot_lem_example :
    ((c' : TaskContainer) × (index : ℕ) × (TaskContainer.take_slot double true one_ended
        ≡ some (c', index))
      × (count index [] ≡ 0)
      × (index < c'.capacity)
      × (c'.capacity ≡ capacity_after double one_ended none))
    × ((x : ℕ) → count x [] ≤ 1)
take_slot_lem_example =
    take_slot_lem double double_grows true 1 one_ended [] (omega arith) one_ended-Steps

full_loses_example :
    (one_grown.capacity ≡ double one_ended.capacity)
    × ((d : TaskContainer) (live' : List ℕ)
        → Running.Steps double one_grown (1 ∷ []) d live'
        → (x : ℕ) → 0 < count x one_ended.task_to_del
        → count x live' ≡ 0)
full_loses_example =
    full_loses double double_grows 1 one_ended one_grown 1 [] (omega arith) one_ended-Steps refl
      one_grown-take_slot
