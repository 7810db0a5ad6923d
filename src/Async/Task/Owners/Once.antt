-- ===== src/Async/Task/Owners/Once.antt =====
-- A coroutine that a task owns is destroyed once.
use tiny_rpc.Prelude.{
  ℕ, zero, suc, ◌≡◌, ◌<◌, ◌≤◌, ◌+◌, refl, sym, ap, ◌∙◌, arith, false, Option, none, some, List, [],
  ◌∷◌, ◌++◌, length, length-set, length-append, set, subst, ◌==◌, if◌then◌else◌, Bool-cases, inl,
  inr,
}
use tiny_rpc.Async.Task.Owners.{
  Owners, held_by, destroy_handle, destroy, move_construct, move_assign, generator_assign, Move,
  destroys, constructs, assigns, apply, apply_each,
}

abbrev pub holds : ℕ → Option ℕ → ℕ
holds h none = 0
holds h (some g) = if g == h then 1 else 0

-- How many variables hold a coroutine, and how often it has been destroyed.
abbrev pub owned : ℕ → List (Option ℕ) → ℕ
owned h [] = 0
owned h (v ∷ vs) = holds h v + owned h vs

abbrev pub times : ℕ → List ℕ → ℕ
times h [] = 0
times h (g ∷ gs) = holds h (some g) + times h gs

-- A move of variables that are there, and how many there are after it.
abbrev pub Fits : Move → ℕ → Type 0
Fits (destroys i) n = i < n
Fits (constructs j) n = j < n
Fits (assigns i j) n = (i < n) × (j < n)

abbrev pub variables_after : Move → ℕ → ℕ
variables_after (destroys i) n = n
variables_after (constructs j) n = n + 1
variables_after (assigns i j) n = n

abbrev pub FitsEach : List Move → ℕ → Type 0
FitsEach [] n = Unit {0}
FitsEach (m ∷ moves) n = Fits m n × FitsEach moves (variables_after m n)

owned-append : (h : ℕ) (vs ws : List (Option ℕ)) → owned h (vs ++ ws) ≡ owned h vs + owned h ws
owned-append h [] ws = omega arith
owned-append h (v ∷ vs) ws = omega (arith, owned-append h vs ws)

owned-set :
    (h : ℕ) (vs : List (Option ℕ)) (i : ℕ) (v : Option ℕ)
    → i < length vs
    → owned h (set vs i v) + holds h (held_by vs i) ≡ owned h vs + holds h v
owned-set h [] i v inside = absurd (omega arith)
owned-set h (w ∷ vs) zero v inside = omega arith
owned-set h (w ∷ vs) (suc i) v inside = omega (arith, owned-set h vs i v (omega arith))

-- Out of range nothing is written, and nothing is held.
set-beyond :
    (vs : List (Option ℕ)) (i : ℕ) (v : Option ℕ)
    → length vs ≤ i
    → (set vs i v ≡ vs) × (held_by vs i ≡ none)
set-beyond [] i v out = (refl, refl)
set-beyond (w ∷ vs) zero v out = absurd (omega arith)
set-beyond (w ∷ vs) (suc i) v out =
    let (same, nothing) = set-beyond vs i v (omega arith) in (ap (λ t. w ∷ t) same, nothing)

-- Taking what a variable holds.
owned-set-none :
    (h : ℕ) (vs : List (Option ℕ)) (i : ℕ)
    → owned h (set vs i none) + holds h (held_by vs i) ≡ owned h vs
owned-set-none h [] i = refl
owned-set-none h (v ∷ vs) zero = omega arith
owned-set-none h (v ∷ vs) (suc i) = omega (arith, owned-set-none h vs i)

times-destroy_handle :
    (h : ℕ) (v : Option ℕ) (gs : List ℕ) → times h (destroy_handle v gs) ≡ holds h v + times h gs
times-destroy_handle h none gs = omega arith
times-destroy_handle h (some g) gs = refl

destroy_counts :
    (h i : ℕ) (o : Owners)
    → owned h (destroy i o).variables + times h (destroy i o).destroyed
      ≡ owned h o.variables + times h o.destroyed
unfolding destroy
destroy_counts h i o = omega (
  arith,
  owned-set-none h o.variables i,
  times-destroy_handle h (held_by o.variables i) o.destroyed,
)

held_by-set :
    (vs : List (Option ℕ)) (i j : ℕ) (v : Option ℕ)
    → (i == j) ≡ false
    → held_by (set vs i v) j ≡ held_by vs j
held_by-set [] i j v other = refl
held_by-set (w ∷ vs) zero zero v other = absurd (cc other)
held_by-set (w ∷ vs) zero (suc j) v other = refl
held_by-set (w ∷ vs) (suc i) zero v other = refl
held_by-set (w ∷ vs) (suc i) (suc j) v other = held_by-set vs i j v (ground arith)

held_by-set-none : (vs : List (Option ℕ)) (i : ℕ) → held_by (set vs i none) i ≡ none
held_by-set-none [] i = refl
held_by-set-none (w ∷ vs) zero = refl
held_by-set-none (w ∷ vs) (suc i) = held_by-set-none vs i

-- The handle of one variable moves to another.
owned-moved :
    (h i j : ℕ) (vs : List (Option ℕ))
    → (i == j) ≡ false
    → i < length vs
    → owned h (set (set vs i (held_by vs j)) j none) + holds h (held_by vs i) ≡ owned h vs
owned-moved h i j vs other inside =
    let v = held_by vs j in
    omega (
      arith,
      owned-set h vs i v inside,
      owned-set-none h (set vs i v) j,
      ap (holds h) (held_by-set vs i j v other),
    )

move_assign_counts :
    (h i j : ℕ) (o : Owners)
    → i < length o.variables
    → owned h (move_assign i j o).variables + times h (move_assign i j o).destroyed
      ≡ owned h o.variables + times h o.destroyed
unfolding move_assign
move_assign_counts h i j o inside = elim (Bool-cases (i == j)) [
  | inl same ↦ rw same refl
  | inr other ↦
      let vs = (destroy i o).variables in
      rw other (
        omega (
          arith,
          owned-moved h i j vs other (omega (arith, length-set {0} o.variables i none)),
          ap (holds h) (held_by-set-none o.variables i),
          destroy_counts h i o,
        ))
]

move_construct_counts :
    (h j : ℕ) (o : Owners)
    → owned h (move_construct j o).variables + times h (move_construct j o).destroyed
      ≡ owned h o.variables + times h o.destroyed
unfolding move_construct
move_construct_counts h j o = omega (
  arith,
  owned-set-none h o.variables j,
  owned-append h (set o.variables j none) (held_by o.variables j ∷ []),
)

apply_counts :
    (h : ℕ) (m : Move) (o : Owners)
    → Fits m (length o.variables)
    → owned h (apply m o).variables + times h (apply m o).destroyed
      ≡ owned h o.variables + times h o.destroyed
unfolding apply
apply_counts h (destroys i) o fits = destroy_counts h i o
apply_counts h (constructs j) o fits = move_construct_counts h j o
apply_counts h (assigns i j) o fits = move_assign_counts h i j o fits.0

length-apply :
    (m : Move) (o : Owners) → length (apply m o).variables ≡ variables_after m (length o.variables)
unfolding apply destroy move_construct move_assign
length-apply (destroys i) o = length-set o.variables i none
length-apply (constructs j) o = omega (
  arith,
  length-append {0} (set o.variables j none) (held_by o.variables j ∷ []),
  length-set {0} o.variables j none,
)
length-apply (assigns i j) o =
    let vs = set o.variables i none in
    elim (Bool-cases (i == j)) [
      | inl same ↦ rw same refl
      | inr other ↦ rw other (
          length-set (set vs i (held_by vs j)) j none
          ∙ length-set vs i (held_by vs j)
          ∙ length-set o.variables i none)
    ]

-- Through any constructions by a move, move assignments and destructions of tasks, of variables
-- that are there, the number of variables that hold a coroutine, together with the number of times
-- that it has been destroyed, stays what it was. So a coroutine that one variable holds is destroyed
-- at most once, and has been destroyed when no variable holds it any longer.
pub apply_each_lem :
    (h : ℕ) (moves : List Move) (o : Owners)
    → FitsEach moves (length o.variables)
    → owned h (apply_each moves o).variables + times h (apply_each moves o).destroyed
      ≡ owned h o.variables + times h o.destroyed
unfolding apply_each
apply_each_lem h [] o fits = refl
apply_each_lem h (m ∷ moves) o fits =
    apply_each_lem h moves (apply m o) (subst (FitsEach moves) (sym (length-apply m o)) fits.1)
    ∙ apply_counts h m o fits.0

-- The move assignment of a generator from another variable destroys nothing: a coroutine is held
-- by one variable less for what the assigned variable held before, and a generator that is assigned
-- to itself holds nothing afterwards. Condition: the assigned variable is there.
pub generator_assign_lem :
    (h i j : ℕ) (o : Owners)
    → i < length o.variables
    → ((generator_assign i j o).destroyed ≡ o.destroyed)
      × ((i == j) ≡ false
          → owned h (generator_assign i j o).variables + holds h (held_by o.variables i)
            ≡ owned h o.variables)
      × (held_by (generator_assign i i o).variables i ≡ none)
unfolding generator_assign
generator_assign_lem h i j o inside = (
  refl,
  λ other. owned-moved h i j o.variables other inside,
  held_by-set-none (set o.variables i (held_by o.variables i)) i,
)
