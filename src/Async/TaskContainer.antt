-- ===== src/Async/TaskContainer.antt =====
-- async/task_container.hpp: slots for tasks that are started and collected when they have ended.
-- A position is an iterator of the list of slot numbers. Its node keeps its number wherever the
-- list is spliced, and no two nodes hold the same, so a position is that number; `none` is the
-- end. `none` as a result is a use of the end as if it were a node, or of a slot that is not there.
-- The coroutine of a task has no part here: of it there is its end, `finish`, which each task that
-- was started comes to once at most, and outside the call of `start`.
pub mod Counts
pub mod Slots
pub mod Running
pub mod Reaching
use tiny_rpc.Prelude.{
  ℕ, zero, suc, ◌+◌, ◌-◌, ◌*◌, ◌%◌, ◌^◌, Bool, true, false, Option, none, some, List, [], ◌∷◌, ◌++◌,
  length, ltb, ◌==◌, if◌then◌else◌,
}
use tiny_rpc.Prelude.Maybe.{◌>>=◌, ◌>>◌, require}

abbrev pub size_mod : ℕ
size_mod = 2 ^ 64

abbrev pub Position : Type 0
Position = Option ℕ

-- The tasks themselves are their slots; `capacity` is the size of the vector of tasks.
pub record TaskContainer : Type 0 where
  pub size : ℕ
  pub capacity : ℕ
  pub task_idx : List ℕ
  pub task_to_del : List ℕ
  pub free_pos : Position

-- The position of the first node.
abbrev pub begin : List ℕ → Position
begin [] = none
begin (i ∷ is) = some i

-- `std::next`, `std::advance` by one.
unfoldable pub next : ℕ → List ℕ → Position
next p [] = none
next p (i ∷ is) = if i == p then begin is else next p is

unfoldable pub remove : ℕ → List ℕ → List ℕ
remove p [] = []
remove p (i ∷ is) = if i == p then is else i ∷ remove p is

-- `splice` of the node at a position to the end of its own list.
abbrev pub splice : ℕ → List ℕ → List ℕ
splice p is = remove p is ++ p ∷ []

-- The numbers from one on, as many as are given.
unfoldable pub indices : ℕ → ℕ → List ℕ
indices i zero = []
indices i (suc n) = i ∷ indices (i + 1) n

-- `init`.
unfoldable pub init : ℕ → TaskContainer
init reserve_size = record {
  size = 0;
  capacity = reserve_size;
  task_idx = indices 0 reserve_size;
  task_to_del = [];
  free_pos = begin (indices 0 reserve_size);
}

unfoldable pub splice_each : List ℕ → List ℕ → List ℕ
splice_each [] is = is
splice_each (p ∷ ps) is = splice_each ps (splice p is)

-- The container and the number of the tasks that are collected.
unfoldable pub gc_internal : TaskContainer → TaskContainer × ℕ
gc_internal c = (
  record c { task_idx = splice_each c.task_to_del c.task_idx; task_to_del = [] },
  length c.task_to_del,
)

-- The last node, `std::prev` of the end.
unfoldable pub last : List ℕ → Position
last [] = none
last (i ∷ []) = some i
last (i ∷ j ∷ is) = last (j ∷ is)

-- The end of the task that `make_cleanup_task` makes.
unfoldable pub finish : ℕ → TaskContainer → TaskContainer
finish pos c = record c {
  task_to_del = c.task_to_del ++ pos ∷ [];
  size = (c.size + (size_mod - 1)) % size_mod;
}

-- `scale` multiplies by the growth factor and drops the fraction.
module _ (scale : ℕ → ℕ) where
  unfoldable pub grow : TaskContainer → Option (TaskContainer × Position)
  grow c = do
    last_pos ← last c.task_idx
    let is = c.task_idx ++ indices c.capacity (scale c.capacity - c.capacity)
    some (record c { task_idx = is; capacity = scale c.capacity }, next last_pos is)

  -- The container when `free_pos` is a position with a slot.
  unfoldable pub make_room : TaskContainer → Option TaskContainer
  make_room c = elim c.free_pos [
    | none ↦ do (grown, pos) ← grow c; some (record grown { free_pos = pos })
    | some p ↦ some c
  ]

  -- `start` but for the task itself: the container, and the slot that the task gets. That
  -- `make_cleanup_task` begins to run at once, and the `resume` under the mutex, are not here.
  unfoldable pub take_slot : Bool → TaskContainer → Option (TaskContainer × ℕ)
  take_slot cleanup c = do
    let counted = record c { size = (c.size + 1) % size_mod }
    let cleaned = if cleanup then (gc_internal counted).0 else counted
    roomy ← make_room cleaned
    index ← roomy.free_pos
    require (ltb index roomy.capacity)
    some (record roomy { free_pos = next index roomy.task_idx }, index)
