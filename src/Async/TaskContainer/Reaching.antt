-- ===== src/Async/TaskContainer/Reaching.antt =====
-- Every container that is reached while its tasks are started, end and are collected.
use tiny_rpc.Prelude.{
  ℕ, ◌≡◌, ◌<◌, ◌≤◌, refl, sym, ap, subst, ◌∙◌, arith, Bool, true, false, none, some, List, [], ◌∷◌,
  ◌++◌,
}
use tiny_rpc.Async.TaskContainer.{
  TaskContainer, remove, indices, init, gc_internal, finish, take_slot,
}
use tiny_rpc.Async.TaskContainer.Counts.{count, count-append, count-remove, count-indices}
use tiny_rpc.Async.TaskContainer.Slots.{
  IsContainer, busy_after, free_after, lost_after, gc_internal-IsContainer,
}
use tiny_rpc.Async.TaskContainer.Running.{
  Step, starts, finishes, collects, Steps, stay, then_step, lost_by, capacity_after,
  take_slot-IsContainer,
}

init-IsContainer : (n : ℕ) → IsContainer (init n) [] (indices 0 n) [] []
unfolding init
init-IsContainer n = record {
  split = refl;
  position = refl;
  each_once = λ x. ground (arith, count-indices x 0 n);
  held = λ x. omega arith;
}

finish-IsContainer :
    (c : TaskContainer) (busy free live lost : List ℕ) (pos : ℕ)
    → IsContainer c busy free live lost
    → 0 < count pos live
    → IsContainer (finish pos c) busy free (remove pos live) lost
unfolding finish
finish-IsContainer c busy free live lost pos v running = record {
  split = v.split;
  position = v.position;
  each_once = v.each_once;
  held = λ x.
      omega
        (arith, v.held x, count-remove x pos live running, count-append x c.task_to_del (pos ∷ []));
}

-- A container that keeps the invariant, with at least the lost slots given.
abbrev pub Reached : TaskContainer → List ℕ → List ℕ → Type 0
Reached c live lost =
    (busy free lost' : List ℕ) × IsContainer c busy free live lost'
    × (0 < c.capacity)
    × ((x : ℕ) → count x lost ≤ count x lost')

more_lost :
    (cleanup : Bool) (c : TaskContainer) (free lost : List ℕ) (x : ℕ)
    → count x lost ≤ count x (lost_by cleanup c free lost)
more_lost true c [] lost x = omega (arith, count-append x c.task_to_del lost)
more_lost true c (f ∷ free) lost x = omega arith
more_lost false c free lost x = omega arith

some_path : {A : Type 0} {a b : A} → some a ≡ some b → a ≡ b
some_path e = cc

module _ (scale : ℕ → ℕ) (grows : (n : ℕ) → 0 < n → n < scale n) where
  take_slot-Reached :
      (cleanup : Bool) (c c' : TaskContainer) (index : ℕ) (busy free live lost : List ℕ)
      → IsContainer c busy free live lost
      → 0 < c.capacity
      → take_slot scale cleanup c ≡ some (c', index)
      → Reached c' (index ∷ live) (lost_by cleanup c free lost)
  take_slot-Reached cleanup c c' index busy free live lost v some_slot made =
      let (d, i, busy', free', made', w, new, fits, cap) =
        take_slot-IsContainer scale cleanup c busy free live lost v some_slot
          (grows c.capacity some_slot) in
      let same : ◌≡◌ {A = TaskContainer × ℕ} (d, i) (c', index) = some_path (sym made' ∙ made) in
      subst (λ (r : TaskContainer × ℕ). Reached r.0 (r.1 ∷ live) (lost_by cleanup c free lost)) same
        (busy', free', lost_by cleanup c free lost, w, omega arith, λ x. omega arith)

  step-Reached :
      {c : TaskContainer} {live : List ℕ} {c' : TaskContainer} {live' : List ℕ} (lost : List ℕ)
      → Reached c live lost
      → Step scale c live c' live'
      → Reached c' live' lost
  unfolding gc_internal finish
  step-Reached {c} {live} lost (busy, free, lost', v, some_slot, kept)
        (starts cleanup {c'} {index} made) =
      let (busy', free', lost'', w, slot', kept') =
        take_slot-Reached cleanup c c' index busy free live lost' v some_slot made in
      (
        busy',
        free',
        lost'',
        w,
        slot',
        λ x. omega (arith, kept x, kept' x, more_lost cleanup c free lost' x),
      )
  step-Reached {c} {live} lost (busy, free, lost', v, some_slot, kept) (finishes pos running) =
      (busy, free, lost', finish-IsContainer c busy free live lost' pos v running, some_slot, kept)
  step-Reached {c} {live} lost (busy, free, lost', v, some_slot, kept) collects = (
    busy_after c busy free,
    free_after c free,
    lost_after c free lost',
    gc_internal-IsContainer c busy free live lost' v,
    some_slot,
    λ x. omega (arith, kept x, more_lost true c free lost' x),
  )

  Steps-Reached :
      {c : TaskContainer} {live : List ℕ} {c' : TaskContainer} {live' : List ℕ} (lost : List ℕ)
      → Reached c live lost
      → Steps scale c live c' live'
      → Reached c' live' lost
  Steps-Reached lost r stay = r
  Steps-Reached lost r (then_step steps last) = step-Reached lost (Steps-Reached lost r steps) last

  init-Reached : (n : ℕ) → 0 < n → Reached (init n) [] []
  unfolding init
  init-Reached n some_slot = ([], indices 0 n, [], init-IsContainer n, some_slot, λ x. omega arith)

  -- In any container that is reached from a new one with at least one slot, by starts, ends and
  -- collections of tasks in any order, `start`, with or without a collection first, finds a slot
  -- for its task that is there and that no running task has. It grows the container to the scaled
  -- capacity exactly when there is no free position, and else keeps the capacity; and no slot is
  -- given to two running tasks. Conditions: scaling makes every capacity larger, and no task runs
  -- to its end inside the call of `start`, where it would wait for the mutex that `start` holds.
  pub take_slot_lem :
      (cleanup : Bool) (reserve : ℕ) (c : TaskContainer) (live : List ℕ)
      → 0 < reserve
      → Steps scale (init reserve) [] c live
      → ((c' : TaskContainer) × (index : ℕ) × (take_slot scale cleanup c ≡ some (c', index))
          × (count index live ≡ 0)
          × (index < c'.capacity)
          × (c'.capacity ≡ capacity_after scale c c.free_pos))
        × ((x : ℕ) → count x live ≤ 1)
  take_slot_lem cleanup reserve c live some_slot steps =
      let (busy, free, lost, v, some_slot', kept) =
        Steps-Reached [] (init-Reached reserve some_slot) steps in
      let (c', index, busy', free', made, w, new, fits, cap) =
        take_slot-IsContainer scale cleanup c busy free live lost v some_slot'
          (grows c.capacity some_slot') in
      ((c', index, made, new, fits, cap), λ x. ground (arith, v.held x, v.each_once x))

  full_start :
      (c c' : TaskContainer) (index : ℕ) (busy free live lost : List ℕ)
      → IsContainer c busy free live lost
      → 0 < c.capacity
      → c.free_pos ≡ none
      → take_slot scale true c ≡ some (c', index)
      → (c'.capacity ≡ scale c.capacity) × Reached c' (index ∷ live) c.task_to_del
  full_start c c' index busy [] live lost v some_slot full made =
      let (d, i, busy', free', made', w, new, fits, cap) =
        take_slot-IsContainer scale true c busy [] live lost v some_slot
          (grows c.capacity some_slot) in
      let same : ◌≡◌ {A = TaskContainer × ℕ} (d, i) (c', index) = some_path (sym made' ∙ made) in
      let cap' : d.capacity ≡ scale c.capacity = cap ∙ ap (capacity_after scale c) full in
      subst
        (λ (r : TaskContainer × ℕ).
          (r.0.capacity ≡ scale c.capacity) × Reached r.0 (r.1 ∷ live) c.task_to_del)
        same
        (
          cap',
          (
            busy',
            free',
            c.task_to_del ++ lost,
            w,
            omega (arith, grows c.capacity some_slot),
            λ x. omega (arith, count-append x c.task_to_del lost),
          ),
        )
  full_start c c' index busy (f ∷ free) live lost v some_slot full made =
      absurd (cc (sym v.position ∙ full))

  -- A `start` with a collection in a container without a free position loses the slots of the
  -- ended tasks that it collects: the container grows to the scaled capacity all the same, and no
  -- task is ever given one of those slots again, by any starts, ends and collections that follow.
  -- Conditions: the container is reached from a new one with at least one slot, scaling makes
  -- every capacity larger, and no task runs to its end inside the call of `start`.
  pub full_loses :
      (reserve : ℕ) (c c' : TaskContainer) (index : ℕ) (live : List ℕ)
      → 0 < reserve
      → Steps scale (init reserve) [] c live
      → c.free_pos ≡ none
      → take_slot scale true c ≡ some (c', index)
      → (c'.capacity ≡ scale c.capacity)
        × ((d : TaskContainer) (live' : List ℕ)
            → Steps scale c' (index ∷ live) d live'
            → (x : ℕ) → 0 < count x c.task_to_del
            → count x live' ≡ 0)
  full_loses reserve c c' index live some_slot steps full made =
      let (busy, free, lost, v, some_slot', kept) =
        Steps-Reached [] (init-Reached reserve some_slot) steps in
      let (grown, reached) = full_start c c' index busy free live lost v some_slot' full made in
      (
        grown,
        λ d live' later x ended.
            let (busy', free', lost', w, slot', kept') =
              Steps-Reached c.task_to_del reached later in
            ground (arith, kept' x, w.held x, w.each_once x),
      )
