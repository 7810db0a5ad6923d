-- ===== src/Net/Reactor/Running.antt =====
-- net/reactor.cc: the tasks that a round of the loop runs.
use tiny_rpc.Prelude.{
  ℕ, zero, suc, ◌+◌, ◌≤◌, ◌<◌, ◌≡◌, refl, ap, arith, Bool, List, [], ◌∷◌, Option, none, some,
  length, get_elem?, drop, Option-cases, inl, inr,
}
use tiny_rpc.Prelude.Maybe.{◌>>=◌}
use tiny_rpc.Net.Reactor.{Reactor, Operation, EpollEvent, run_tasks}

module _ {World Task : Type 0}
    (epoll_ctl : Operation → ℕ → Option EpollEvent → World → Bool × World)
    (run : Task → Reactor World Task → Option (Reactor World Task)) where
  -- The tasks one after the other; an empty function faults. In the end the vector is cleared.
  unfoldable pub in_order : List (Option Task) → Reactor World Task → Option (Reactor World Task)
  in_order [] r = some (record r { pending_tasks = [] })
  in_order (none ∷ tasks) r = none
  in_order (some task ∷ tasks) r = do r' ← run task r; in_order tasks r'

  past_end : {A : Type 0} (i : ℕ) (xs : List A) → length xs ≤ i → get_elem? xs i ≡ none
  past_end i [] h = refl
  past_end zero (x ∷ xs) h = absurd (omega arith)
  past_end (suc i) (x ∷ xs) h = past_end i xs (omega arith)

  drop_at :
      {A : Type 0} (i : ℕ) (xs : List A) (x : A)
      → get_elem? xs i ≡ some x
      → (drop i xs ≡ x ∷ drop (suc i) xs) × (i < length xs)
  drop_at i [] x e = absurd (cc)
  drop_at zero (y ∷ xs) x e = (cc, omega arith)
  drop_at (suc i) (y ∷ xs) x e = let (d, h) = drop_at i xs x e in (d, omega arith)

  drop_end : {A : Type 0} (i : ℕ) (xs : List A) → get_elem? xs i ≡ none → drop i xs ≡ []
  drop_end zero [] e = refl
  drop_end (suc i) [] e = refl
  drop_end zero (x ∷ xs) e = absurd (cc)
  drop_end (suc i) (x ∷ xs) e = drop_end i xs e

  -- No task changes the pending tasks.
  abbrev pub KeepsTasks : Type 0
  KeepsTasks =
      (t : Task) (s s' : Reactor World Task)
      → run t s ≡ some s'
      → s'.pending_tasks ≡ s.pending_tasks

  run_tasks_from :
      (fuel i : ℕ) (r : Reactor World Task)
      → KeepsTasks
      → i ≤ length r.pending_tasks
      → length r.pending_tasks < fuel + i
      → run_tasks epoll_ctl run fuel i r ≡ in_order (drop i r.pending_tasks) r
  unfolding run_tasks in_order
  run_tasks_from zero i r keeps g h = absurd (omega arith)
  run_tasks_from (suc fuel) i r keeps g h = elim (Option-cases (get_elem? r.pending_tasks i)) [
    | inl e ↦ rw (e, drop_end i r.pending_tasks e) refl
    | inr (none, e) ↦ let (d, k) = drop_at i r.pending_tasks none e in rw (e, d) refl
    | inr (some task, e) ↦
        let (d, k) = drop_at i r.pending_tasks (some task) e in
        rw (e, d)
          (elim (Option-cases (run task r)) [
            | inl f ↦ rw f refl
            | inr (r', f) ↦
                let same : r'.pending_tasks ≡ r.pending_tasks = keeps task r r' f in
                let size = ap (λ (l : List (Option Task)). length l) same in
                rw (f, ← same)
                  (run_tasks_from fuel (suc i) r' keeps (omega (arith, size)) (omega (arith, size)))
          ])
  ]

  -- If no task adds another, and the fuel is more than the number of pending tasks, the loop runs
  -- every pending task in the order in which they were added, and clears them; it faults only where
  -- one of them does.
  pub run_tasks_lem :
      (fuel : ℕ) (r : Reactor World Task)
      → KeepsTasks
      → length r.pending_tasks < fuel
      → run_tasks epoll_ctl run fuel 0 r ≡ in_order r.pending_tasks r
  run_tasks_lem fuel r keeps h = run_tasks_from fuel 0 r keeps (omega arith) (omega arith)
