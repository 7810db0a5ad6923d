-- ===== src/Net/FdEvent/Container.antt =====
-- net/fd_event.cc, FdEventContainer: the vector of events by descriptor, which grows on demand. Its
-- lock is held for the copy and for the swap; here one thread calls. `none` is an index outside the
-- vector.
use tiny_rpc.Prelude.{
  ℕ, zero, suc, ◌+◌, ◌-◌, ◌*◌, ◌/◌, ◌≤◌, ◌<◌, ◌≡◌, refl, ap, ◌∙◌, arith, List, [], ◌∷◌, ◌++◌,
  Option, none, some, ltb, if◌then◌else◌, length, get_elem?, length-append, take, take-append,
  Bool-cases, inl, inr, subst,
}
use tiny_rpc.Prelude.Int.{ℤ, pos, negsuc}
use tiny_rpc.Prelude.Maybe.{◌>>=◌}
use tiny_rpc.Net.FdEvent.{FdEvent, fd_event}

module _ {Task : Type 0} where
  -- The loop that makes an event for each of `count` descriptors from `i` on.
  unfoldable pub new_events : ℕ → ℕ → List (FdEvent Task)
  new_events i zero = []
  new_events i (suc count) = fd_event i ∷ new_events (suc i) count

  unfoldable pub fd_event_container : ℕ → List (FdEvent Task)
  fd_event_container size = new_events 0 size

  -- The size to which the vector grows.
  abbrev pub wanted_size : List (FdEvent Task) → ℕ → ℕ
  wanted_size fds fd = let n = length fds * 3 / 2 in if ltb fd n then n else fd

  unfoldable pub get_fd_event :
      ℤ → List (FdEvent Task) → Option (FdEvent Task × List (FdEvent Task))
  get_fd_event (negsuc k) fds = none
  get_fd_event (pos fd) fds =
      let tmps = fds ++ new_events (length fds) (wanted_size fds fd - length fds) in
      if ltb fd (length fds)
      then (do re ← get_elem? fds fd; some (re, fds))
      else (do re ← get_elem? tmps fd; some (re, tmps))

  -- Every event is the one of the descriptor at whose index it stands.
  abbrev pub IsIndexedFrom : ℕ → List (FdEvent Task) → Type 0
  IsIndexedFrom i [] = Unit {0}
  IsIndexedFrom i (e ∷ es) = (e.fd ≡ i) × IsIndexedFrom (suc i) es

outside : {A : Type 0} (k : ℕ) (xs : List A) → length xs ≤ k → get_elem? xs k ≡ none
outside k [] h = refl
outside zero (x ∷ xs) h = absurd (omega arith)
outside (suc k) (x ∷ xs) h = outside k xs (omega arith)

module _ (Task : Type 0) where
  new_events-IsIndexed : (i count : ℕ) → IsIndexedFrom {Task = Task} i (new_events i count)
  unfolding new_events fd_event
  new_events-IsIndexed i zero = tt
  new_events-IsIndexed i (suc count) = (refl, new_events-IsIndexed (suc i) count)

  length-new_events : (i count : ℕ) → length (new_events {Task = Task} i count) ≡ count
  unfolding new_events
  length-new_events i zero = refl
  length-new_events i (suc count) = ap suc (length-new_events (suc i) count)

module _ {Task : Type 0} where
  append-IsIndexed :
      (i count : ℕ) (es : List (FdEvent Task))
      → IsIndexedFrom i es
      → IsIndexedFrom i (es ++ new_events (i + length es) count)
  append-IsIndexed i count [] h =
      let here : i + 0 ≡ i = omega arith in rw here (new_events-IsIndexed Task i count)
  append-IsIndexed i count (e ∷ es) h =
      let next : i + suc (length es) ≡ suc i + length es = omega arith in
      (h.0, rw next (append-IsIndexed (suc i) count es h.1))

  -- An index inside the vector finds its own event.
  indexed_at :
      (i k : ℕ) (es : List (FdEvent Task))
      → IsIndexedFrom i es
      → k < length es
      → (e : FdEvent Task) × (get_elem? es k ≡ some e) × (e.fd ≡ i + k)
  indexed_at i k [] h l = absurd (omega arith)
  indexed_at i zero (e ∷ es) h l = (e, refl, omega (arith, h.0))
  indexed_at i (suc k) (e ∷ es) h l =
      let (f, g, same) = indexed_at (suc i) k es h.1 (omega arith) in (f, g, omega (arith, same))

  length-grown :
      (fds : List (FdEvent Task)) (count : ℕ)
      → length (fds ++ new_events (length fds) count) ≡ length fds + count
  length-grown fds count =
      length-append fds (new_events (length fds) count)
      ∙ ap (λ k. length fds + k) (length-new_events Task (length fds) count)

  -- In a vector in which every event stands at its own descriptor, `getFdEvent` finds the event of
  -- each descriptor below one and a half times the vector's size; the vector keeps that order, and
  -- the events it had stay where they were.
  pub get_fd_event_lem :
      (fds : List (FdEvent Task)) (fd : ℕ)
      → IsIndexedFrom 0 fds
      → fd < length fds * 3 / 2
      → (e : FdEvent Task) × (fds' : List (FdEvent Task)) × (get_fd_event (pos fd) fds
          ≡ some (e, fds'))
        × (e.fd ≡ fd)
        × IsIndexedFrom 0 fds'
        × (take (length fds) fds' ≡ fds)
  unfolding get_fd_event
  get_fd_event_lem fds fd h small = elim (Bool-cases (ltb fd (length fds))) [
    | inl inside ↦
        let (e, g, same) = indexed_at 0 fd fds h (ground arith) in
        (e, fds, rw (inside, g) refl, omega (arith, same), h, all_of fds)
    | inr beyond ↦
        let count = wanted_size fds fd - length fds in
        let tmps = fds ++ new_events (length fds) count in
        let place : 0 + length fds ≡ length fds = omega arith in
        let v : IsIndexedFrom 0 tmps =
          subst (λ k. IsIndexedFrom 0 (fds ++ new_events k count)) place
            (append-IsIndexed 0 count fds h) in
        let size : length tmps ≡ length fds + count = length-grown fds count in
        let (e, g, same) = indexed_at 0 fd tmps v (ground (arith, size)) in
        (
          e,
          tmps,
          rw (beyond, g) refl,
          omega (arith, same),
          v,
          take-append fds (new_events (length fds) count) (length fds) refl,
        )
  ]
    where
      all_of : (xs : List (FdEvent Task)) → take (length xs) xs ≡ xs
      all_of [] = refl
      all_of (x ∷ xs) = ap (λ t. x ∷ t) (all_of xs)

  -- For a descriptor that is neither below the vector's size nor below one and a half times it,
  -- `getFdEvent` makes the vector one place too short and reads outside it.
  pub get_fd_event_beyond :
      (fds : List (FdEvent Task)) (fd : ℕ)
      → length fds ≤ fd
      → length fds * 3 / 2 ≤ fd
      → get_fd_event (pos fd) fds ≡ none
  unfolding get_fd_event
  get_fd_event_beyond fds fd h big =
      let count = wanted_size fds fd - length fds in
      let far =
        outside fd (fds ++ new_events (length fds) count)
          (ground (arith, length-grown fds count)) in
      ground (arith, far)
