-- ===== src/Async/Task.antt =====
-- async/task.hpp: a coroutine that gives a value or an exception, and that another coroutine can
-- wait for. Frames lie in a store under their handles. Between two of its suspensions a body is
-- what it does with the tasks and the pool; `schedule` is the wait for async/thread_pool.cc.
mod Keeping
pub mod Twice
pub mod Owners
mod Tests
use tiny_rpc.Prelude.{
  ℕ, zero, suc, Bool, true, false, Option, none, some, List, [], ◌∷◌, ◌++◌, ◌==◌, if◌then◌else◌,
}

-- What `co_return` gave, or the exception that left the body.
pub data Outcome : Type 0 where
  returned : ℕ → Outcome
  threw : ℕ → Outcome

-- What a body does next: wait for the pool, wait for the task of a handle, and, when it goes on
-- after that, take the result of the task.
pub data Action : Type 0 where
  schedule : Action
  await_task : ℕ → Action
  await_resume : ℕ → Action

-- A frame, with the promise in it. `received` are the values that the body has taken.
pub record Frame : Type 0 where
  pub body : List Action
  pub outcome : Outcome
  pub is_done : Bool
  pub continuation : Option ℕ
  pub received : List ℕ

-- The frames, and the queue of the pool.
pub record Coroutines : Type 0 where
  pub frames : ℕ → Frame
  pub queue : List ℕ

-- A resumption of a coroutine that is done is a fault.
pub data Run : Type 0 where
  ran : Coroutines → Run
  fault : Run
  out_of_fuel : Run

abbrev pub set_frame : ℕ → Frame → Coroutines → Coroutines
set_frame h f s = record s { frames = λ g. if g == h then f else s.frames g }

-- `result`: the exception is thrown again, and ends the body of the one that waited.
pub take_result : Outcome → List Action → Frame → Frame
take_result (returned v) rest f = record f { body = rest; received = f.received ++ v ∷ [] }
take_result (threw e) rest f = record f { body = []; outcome = threw e }

-- `await_ready` of a task.
abbrev pub is_ready : ℕ → Coroutines → Bool
is_ready t s = (s.frames t).is_done

-- The first half of `await_suspend`: the waiting coroutine becomes the task's continuation.
abbrev pub set_continuation : ℕ → ℕ → Coroutines → Coroutines
set_continuation t h s = set_frame t (record (s.frames t) { continuation = some h }) s

-- `await_suspend` of `final_awaitable`: control passes to the continuation, if there is one.
pub finish : (ℕ → Coroutines → Run) → ℕ → Coroutines → Run
finish go h s =
    let ended = set_frame h (record (s.frames h) { is_done = true }) s in
    elim ((s.frames h).continuation) [ none ↦ ran ended | some c ↦ go c ended ]

-- What the body of a coroutine does next. `go` is the resumption of another coroutine, or of this
-- one when it does not suspend; a wait for a task that is not done passes control on to that task.
pub act : (ℕ → Coroutines → Run) → ℕ → List Action → Coroutines → Run
act go h [] s = finish go h s
act go h (schedule ∷ rest) s =
    ran (record (set_frame h (record (s.frames h) { body = rest }) s) { queue = s.queue ++ h ∷ [] })
act go h (await_task t ∷ rest) s =
    let waiting = set_frame h (record (s.frames h) { body = await_resume t ∷ rest }) s in
    if is_ready t s then go h waiting else go t (set_continuation t h waiting)
act go h (await_resume t ∷ rest) s =
    go h (set_frame h (take_result (s.frames t).outcome rest (s.frames h)) s)

-- A resumption of a coroutine, until control comes back to the one who resumed.
pub resume : ℕ → ℕ → Coroutines → Run
resume zero h s = out_of_fuel
resume (suc fuel) h s = elim ((s.frames h).is_done) [
  | true ↦ fault
  | false ↦ act (resume fuel) h (s.frames h).body s
]

-- `resume` of a task, and whether the task is to go on; only a coroutine that is not done is
-- resumed.
pub resume_task : ℕ → ℕ → Coroutines → Run
resume_task fuel t s = elim (is_ready t s) [ true ↦ ran s | false ↦ resume fuel t s ]

abbrev pub new_frame : List Action → Outcome → Frame
new_frame body outcome = record {
  body = body;
  outcome = outcome;
  is_done = false;
  continuation = none;
  received = [];
}

-- The call of a function that is a task: `initial_suspend` never suspends, so the body runs.
pub create : ℕ → ℕ → List Action → Outcome → Coroutines → Run
create fuel t body outcome s = resume fuel t (set_frame t (new_frame body outcome) s)

-- A thread of the pool takes the first handle and resumes it.
pub pop_and_resume : ℕ → Coroutines → Run
pop_and_resume fuel s = elim (s.queue) [
  | [] ↦ ran s
  | h ∷ rest ↦ resume fuel h (record s { queue = rest })
]
