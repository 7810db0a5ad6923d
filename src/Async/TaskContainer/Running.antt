-- ===== src/Async/TaskContainer/Running.antt =====
-- async/task_container.hpp: what happens to a container while its tasks run: tasks are started,
-- end, and are collected, in any order.
use tiny_rpc.Prelude.{
  ℕ, ◌+◌, ◌%◌, ◌≡◌, ◌<◌, refl, sym, ap, subst, ◌∙◌, arith, Bool, true, false, Option, none, some,
  List, [], ◌∷◌, ◌++◌, ltb,
}
use tiny_rpc.Prelude.Maybe.{◌>>=◌, ◌>>◌, require}
use tiny_rpc.Async.TaskContainer.{
  size_mod, TaskContainer, next, remove, gc_internal, finish, make_room, take_slot,
}
use tiny_rpc.Async.TaskContainer.Counts.{count}
use tiny_rpc.Async.TaskContainer.Slots.{
  IsContainer, busy_after, free_after, lost_after, gc_internal-IsContainer, take-IsContainer, grown,
  grow-IsContainer,
}

-- A container and the slots of the tasks that run in it.
pub data Step (scale : ℕ → ℕ) (c : TaskContainer) (live : List ℕ)
    : TaskContainer → List ℕ → Type 0 where
  starts :
      (cleanup : Bool) {c' : TaskContainer} {index : ℕ}
      → take_slot scale cleanup c ≡ some (c', index)
      → Step scale c live c' (index ∷ live)
  finishes : (pos : ℕ) → 0 < count pos live → Step scale c live (finish pos c) (remove pos live)
  collects : Step scale c live (gc_internal c).0 live

pub data Steps (scale : ℕ → ℕ) (c : TaskContainer) (live : List ℕ)
    : TaskContainer → List ℕ → Type 0 where
  stay : Steps scale c live c live
  then_step :
      {c' c'' : TaskContainer} {live' live'' : List ℕ}
      → Steps scale c live c' live'
      → Step scale c' live' c'' live''
      → Steps scale c live c'' live''

-- What `start` has before it looks for room.
abbrev pub cleaned : Bool → TaskContainer → TaskContainer
cleaned true c = (gc_internal (record c { size = (c.size + 1) % size_mod })).0
cleaned false c = record c { size = (c.size + 1) % size_mod }

-- The slots that the collection of a start loses.
abbrev pub lost_by : Bool → TaskContainer → List ℕ → List ℕ → List ℕ
lost_by true c free lost = lost_after c free lost
lost_by false c free lost = lost

counted-IsContainer :
    {c : TaskContainer} {busy free live lost : List ℕ} (n : ℕ)
    → IsContainer c busy free live lost
    → IsContainer (record c { size = n }) busy free live lost
counted-IsContainer n v = record {
  split = v.split;
  position = v.position;
  each_once = v.each_once;
  held = v.held;
}

-- A container with or without a free position, once it is cleaned.
cleaned-IsContainer :
    (cleanup : Bool) (c : TaskContainer) (busy free live lost : List ℕ)
    → IsContainer c busy free live lost
    → (busy' free' : List ℕ) × IsContainer
        (cleaned cleanup c)
        busy'
        free'
        live
        (lost_by cleanup c free lost)
      × ((cleaned cleanup c).free_pos ≡ c.free_pos)
      × ((cleaned cleanup c).capacity ≡ c.capacity)
unfolding gc_internal
cleaned-IsContainer true c busy free live lost v = (
  busy_after c busy free,
  free_after c free,
  gc_internal-IsContainer (record c { size = (c.size + 1) % size_mod }) busy free live lost
      (counted-IsContainer _ v),
  refl,
  refl,
)
cleaned-IsContainer false c busy free live lost v =
    (busy, free, counted-IsContainer _ v, refl, refl)

module _ (scale : ℕ → ℕ) where
  -- The rest of `start`, once the ended tasks are collected.
  abbrev place : TaskContainer → Option (TaskContainer × ℕ)
  place roomy = do
    index ← roomy.free_pos
    require (ltb index roomy.capacity)
    some (record roomy { free_pos = next index roomy.task_idx }, index)

  place_lem :
      (c : TaskContainer) (busy : List ℕ) (f : ℕ) (free live lost : List ℕ)
      → IsContainer c busy (f ∷ free) live lost
      → (place c ≡ some (record c { free_pos = next f c.task_idx }, f))
        × (f < c.capacity)
        × (count f live ≡ 0)
  place_lem c busy f free live lost v =
      let fits : f < c.capacity = ground (arith, v.each_once f) in
      (ground (arith, v.position), fits, ground (arith, v.each_once f, v.held f))

  take_slot-place :
      (cleanup : Bool) (c : TaskContainer)
      → take_slot scale cleanup c ≡ (make_room scale (cleaned cleanup c) >>= place)
  unfolding take_slot
  take_slot-place true c = refl
  take_slot-place false c = refl

  -- The slots that there are after a start.
  abbrev pub capacity_after : TaskContainer → Option ℕ → ℕ
  capacity_after c none = scale c.capacity
  capacity_after c (some p) = c.capacity

  -- A start that succeeds with a slot that no running task has.
  abbrev pub Started : Bool → TaskContainer → List ℕ → List ℕ → Type 0
  Started cleanup c live lost =
      (c' : TaskContainer) × (index : ℕ) × (busy free : List ℕ) × (take_slot scale cleanup c
        ≡ some (c', index))
      × IsContainer c' busy free (index ∷ live) lost
      × (count index live ≡ 0)
      × (index < c'.capacity)
      × (c'.capacity ≡ capacity_after c c.free_pos)

  make_room-some : (c : TaskContainer) (p : ℕ) → c.free_pos ≡ some p → make_room scale c ≡ some c
  unfolding make_room
  make_room-some c p e = ground arith

  start_from :
      (cleanup : Bool) (c : TaskContainer) (busy free live lost : List ℕ)
      → IsContainer (cleaned cleanup c) busy free live lost
      → (cleaned cleanup c).free_pos ≡ c.free_pos
      → (cleaned cleanup c).capacity ≡ c.capacity
      → 0 < c.capacity
      → c.capacity < scale c.capacity
      → Started cleanup c live lost
  start_from cleanup c busy [] live lost v same_pos same_capacity some_slot grows =
      let k = cleaned cleanup c in
      let (p, rest, made, w) =
        grow-IsContainer scale k busy live lost v (omega arith)
          (subst (λ n. n < scale n) (sym same_capacity) grows) in
      let (placed, fits, new) = place_lem (grown scale k p) busy k.capacity rest live lost w in
      (
        record (grown scale k p) { free_pos = next k.capacity (grown scale k p).task_idx },
        k.capacity,
        busy ++ k.capacity ∷ [],
        rest,
        take_slot-place cleanup c ∙ ap (λ o. o >>= place) made ∙ placed,
        take-IsContainer (grown scale k p) busy k.capacity rest live lost w,
        new,
        fits,
        ap scale same_capacity ∙ ap (capacity_after c) (sym v.position ∙ same_pos),
      )
  start_from cleanup c busy (f ∷ free) live lost v same_pos same_capacity some_slot grows =
      let (placed, fits, new) = place_lem (cleaned cleanup c) busy f free live lost v in
      (
        record (cleaned cleanup c) { free_pos = next f (cleaned cleanup c).task_idx },
        f,
        busy ++ f ∷ [],
        free,
        take_slot-place cleanup c
            ∙ ap (λ o. o >>= place) (make_room-some (cleaned cleanup c) f v.position)
            ∙ placed,
        take-IsContainer (cleaned cleanup c) busy f free live lost v,
        new,
        fits,
        same_capacity ∙ ap (capacity_after c) (sym v.position ∙ same_pos),
      )

  pub take_slot-IsContainer :
      (cleanup : Bool) (c : TaskContainer) (busy free live lost : List ℕ)
      → IsContainer c busy free live lost
      → 0 < c.capacity
      → c.capacity < scale c.capacity
      → Started cleanup c live (lost_by cleanup c free lost)
  take_slot-IsContainer cleanup c busy free live lost v some_slot grows =
      let (busy', free', w, same_pos, same_capacity) =
        cleaned-IsContainer cleanup c busy free live lost v in
      start_from cleanup c busy' free' live (lost_by cleanup c free lost) w same_pos same_capacity
        some_slot grows
