-- ===== src/Async/TaskContainer/Slots.antt =====
-- The slots of a container that are in use, free, or lost.
use tiny_rpc.Prelude.{
  ℕ, zero, suc, ◌+◌, ◌-◌, ◌≡◌, ◌≢◌, ◌<◌, ◌≤◌, sym, ap, ◌∙◌, arith, none, some, List, [], ◌∷◌, ◌++◌,
  append_assoc, append-nil, ltb, if◌then◌else◌,
}
use tiny_rpc.Async.TaskContainer.{
  TaskContainer, begin, next, splice_each, indices, gc_internal, last, grow, make_room,
}
use tiny_rpc.Async.TaskContainer.Counts.{
  count, count-append, remove_each, splice_each-append, count-remove_each, count-indices,
  next-append, next-last,
}

-- The numbers before the free position and from it on: all slots are among them, once each. Those
-- before it are of running tasks, of ended ones that are to be collected, or lost.
pub record IsContainer (c : TaskContainer) (busy free live lost : List ℕ) : Type 0 where
  pub split : c.task_idx ≡ busy ++ free
  pub position : c.free_pos ≡ begin free
  pub each_once : (x : ℕ) → count x busy + count x free ≡ (if ltb x c.capacity then 1 else 0)
  pub held : (x : ℕ) → count x live + count x c.task_to_del + count x lost ≤ count x busy

-- What the numbers before the free position, and from it on, are after a collection.
abbrev pub busy_after : TaskContainer → List ℕ → List ℕ → List ℕ
busy_after c busy [] = remove_each c.task_to_del busy ++ c.task_to_del
busy_after c busy (f ∷ free) = remove_each c.task_to_del busy

abbrev pub free_after : TaskContainer → List ℕ → List ℕ
free_after c [] = []
free_after c (f ∷ free) = f ∷ free ++ c.task_to_del

-- The slots that a collection loses: those of the ended tasks, if there is no free position.
abbrev pub lost_after : TaskContainer → List ℕ → List ℕ → List ℕ
lost_after c [] lost = c.task_to_del ++ lost
lost_after c (f ∷ free) lost = lost

to_del_held :
    {c : TaskContainer} {busy free live lost : List ℕ}
    → IsContainer c busy free live lost
    → (x : ℕ) → count x c.task_to_del ≤ count x busy
to_del_held v x = omega (arith, v.held x)

pub gc_internal-IsContainer :
    (c : TaskContainer) (busy free live lost : List ℕ)
    → IsContainer c busy free live lost
    → IsContainer
        (gc_internal c).0
        (busy_after c busy free)
        (free_after c free)
        live
        (lost_after c free lost)
unfolding gc_internal
gc_internal-IsContainer c busy [] live lost v =
    let kept = λ (x : ℕ). count-remove_each x c.task_to_del busy (to_del_held v) in
    let moved = λ (x : ℕ). count-append x (remove_each c.task_to_del busy) c.task_to_del in
    record {
      split =
          ap (splice_each c.task_to_del) v.split
          ∙ splice_each-append c.task_to_del busy [] (to_del_held v)
          ∙ sym (append-nil _);
      position = v.position;
      each_once = λ x. omega (arith, v.each_once x, kept x, moved x);
      held = λ x. omega (arith, v.held x, kept x, moved x, count-append x c.task_to_del lost);
    }
gc_internal-IsContainer c busy (f ∷ free) live lost v =
    let kept = λ (x : ℕ). count-remove_each x c.task_to_del busy (to_del_held v) in
    record {
      split =
          ap (splice_each c.task_to_del) v.split
          ∙ splice_each-append c.task_to_del busy (f ∷ free) (to_del_held v);
      position = v.position;
      each_once =
          λ x. omega (arith, v.each_once x, kept x, count-append x (f ∷ free) c.task_to_del);
      held = λ x. omega (arith, v.held x, kept x);
    }

-- The start of a task at the first free position.
pub take-IsContainer :
    (c : TaskContainer) (busy : List ℕ) (f : ℕ) (free live lost : List ℕ)
    → IsContainer c busy (f ∷ free) live lost
    → IsContainer (record c { free_pos = next f c.task_idx }) (busy ++ f ∷ []) free (f ∷ live) lost
take-IsContainer c busy f free live lost v =
    let once : count f busy ≡ 0 = ground (arith, v.each_once f) in
    record {
      split = v.split ∙ sym (append_assoc busy (f ∷ []) free);
      position = ap (next f) v.split ∙ next-append f busy free once;
      each_once = λ x. omega (arith, v.each_once x, count-append x busy (f ∷ []));
      held = λ x. omega (arith, v.held x, count-append x busy (f ∷ []));
    }

indices_cons : (i n : ℕ) → 0 < n → indices i n ≡ i ∷ indices (i + 1) (n - 1)
unfolding indices
indices_cons i zero some_left = absurd (omega arith)
indices_cons i (suc n) some_left = ap (λ k. i ∷ indices (i + 1) k) (omega arith)

nonempty_of_count : (x : ℕ) (is : List ℕ) → 0 < count x is → is ≢ []
nonempty_of_count x is present e = omega (arith, ap (count x) e)

module _ (scale : ℕ → ℕ) where
  abbrev pub added : TaskContainer → List ℕ
  added c = indices c.capacity (scale c.capacity - c.capacity)

  abbrev pub grown : TaskContainer → ℕ → TaskContainer
  grown c p = record c {
    task_idx = c.task_idx ++ added c;
    capacity = scale c.capacity;
    free_pos = next p (c.task_idx ++ added c);
  }

  make_room-none :
      (c : TaskContainer) (p : ℕ)
      → c.free_pos ≡ none
      → last c.task_idx ≡ some p
      → make_room scale c ≡ some (grown c p)
  unfolding make_room grow
  make_room-none c p full at = ground arith

  pub grow-IsContainer :
      (c : TaskContainer) (busy live lost : List ℕ)
      → IsContainer c busy [] live lost
      → 0 < c.capacity
      → c.capacity < scale c.capacity
      → (p : ℕ) × (rest : List ℕ) × (make_room scale c ≡ some (grown c p))
        × IsContainer (grown c p) busy (c.capacity ∷ rest) live lost
  grow-IsContainer c busy live lost v some_slot grows =
      let counts = λ (x : ℕ). ap (count x) v.split ∙ count-append x busy [] in
      let more = indices_cons c.capacity (scale c.capacity - c.capacity) (omega arith) in
      let (p, at, after) =
        next-last c.task_idx (added c) (λ x. ground (arith, counts x, v.each_once x))
          (nonempty_of_count 0 c.task_idx (ground (arith, counts 0, v.each_once 0))) in
      (
        p,
        indices (c.capacity + 1) (scale c.capacity - c.capacity - 1),
        make_room-none c p v.position at,
        record {
          split = ap (λ is. is ++ added c) (v.split ∙ append-nil busy) ∙ ap (λ is. busy ++ is) more;
          position = after ∙ ap begin more;
          each_once = λ x. ground (
            arith,
            v.each_once x,
            ap (count x) more,
            count-indices x c.capacity (scale c.capacity - c.capacity),
          );
          held = v.held;
        },
      )
