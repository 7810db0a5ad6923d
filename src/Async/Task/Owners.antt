-- ===== src/Async/Task/Owners.antt =====
-- async/task.hpp and async/generator.hpp: the variables that own coroutines. A variable is the
-- handle that it holds, `none` when it is null or gone; each is named by its place in the list.
pub mod Once
use tiny_rpc.Prelude.{
  ℕ, zero, suc, Bool, true, false, Option, none, some, List, [], ◌∷◌, ◌++◌, set, ◌==◌,
  if◌then◌else◌,
}

pub record Owners : Type 0 where
  pub variables : List (Option ℕ)
  pub destroyed : List ℕ

-- What a variable holds.
abbrev pub held_by : List (Option ℕ) → ℕ → Option ℕ
held_by [] i = none
held_by (v ∷ vs) zero = v
held_by (v ∷ vs) (suc i) = held_by vs i

abbrev pub destroy_handle : Option ℕ → List ℕ → List ℕ
destroy_handle none destroyed = destroyed
destroy_handle (some h) destroyed = h ∷ destroyed

-- The destructor of a task; and `destroy`, which leaves a null handle.
pub destroy : ℕ → Owners → Owners
destroy i o = record {
  variables = set o.variables i none;
  destroyed = destroy_handle (held_by o.variables i) o.destroyed;
}

-- A task that is moved into a new variable.
pub move_construct : ℕ → Owners → Owners
move_construct j o = record o { variables = set o.variables j none ++ held_by o.variables j ∷ [] }

-- The move assignment of a task.
pub move_assign : ℕ → ℕ → Owners → Owners
unfolding destroy
move_assign i j o =
    if i == j
    then o
    else let freed = destroy i o in
      record freed { variables = set (set freed.variables i (held_by freed.variables j)) j none }

-- The move assignment of a generator.
pub generator_assign : ℕ → ℕ → Owners → Owners
generator_assign i j o = record o {
  variables = set (set o.variables i (held_by o.variables j)) j none;
}

-- What happens to tasks.
pub data Move : Type 0 where
  destroys : ℕ → Move
  constructs : ℕ → Move
  assigns : ℕ → ℕ → Move

pub apply : Move → Owners → Owners
apply (destroys i) o = destroy i o
apply (constructs j) o = move_construct j o
apply (assigns i j) o = move_assign i j o

pub apply_each : List Move → Owners → Owners
apply_each [] o = o
apply_each (m ∷ ms) o = apply_each ms (apply m o)
