-- ===== src/Async/Event/Setting.antt =====
-- What setting an event does: the list is turned round or not, and each of its coroutines is
-- resumed.
use mathlib.Core.List.{reverse_aux}
use mathlib.Core.List
use tiny_rpc.Prelude.{
  ℕ, zero, suc, ◌+◌, ◌≡◌, ◌≢◌, ◌<◌, refl, sym, ap, ◌∙◌, arith, true, false, some, List, [], ◌∷◌,
  ◌++◌, map, append_assoc, append-nil, length, ◌==◌,
}
use tiny_rpc.Async.Event.{
  Ptr, null, Awaiter, Store, write, this, head, Event, ResumeOrderPolicy, lifo, fifo, done,
  reverse_loop, reverse, ordered, resume_loop, set_from, set,
}
use tiny_rpc.Async.Event.Chain.{Cells, has, first, awaiter, Linked, frame, frame-write}

-- The coroutines of a list, in the order in which the policy resumes them.
abbrev pub in_order : ResumeOrderPolicy → Cells → Cells
in_order lifo cells = cells
in_order fifo cells = List.reverse cells

abbrev pub coroutines : Cells → List ℕ
coroutines cells = map (λ (q, c). c) cells

real_null : (q : Ptr) → q ≢ null → (q == null) ≡ false
real_null q real = ground arith

write_same : (store : Store) (q : Ptr) (a : Awaiter) → write store q a q ≡ some a
unfolding write
write_same store q a = ground arith

-- `cells` are still to be turned round, `turned` are.
reverse_loop-Linked :
    (fuel : ℕ) (store : Store) (cells turned : Cells)
    → Linked store cells
    → Linked store turned
    → ((q : Ptr) → has q cells ≡ true → has q turned ≡ false)
    → length cells < fuel
    → (store' : Store) × (reverse_loop fuel store (first turned) (first cells)
        ≡ done (store', first (reverse_aux cells turned)))
      × Linked store' (reverse_aux cells turned)
unfolding reverse_loop
reverse_loop-Linked zero store cells turned l t apart enough = absurd (omega arith)
reverse_loop-Linked (suc fuel) store [] turned l t apart enough = (store, refl, t)
reverse_loop-Linked (suc fuel) store ((q, c) ∷ cells) turned (real, holds, new, rest) t apart
      enough =
    let out : has q turned ≡ false = apart q (ground arith) in
    let store' : Store = write store q (awaiter c (first turned)) in
    let (last, e, linked) =
      reverse_loop-Linked fuel store' cells ((q, c) ∷ turned) (frame-write store cells q _ rest new)
        (real, write_same store q _, out, frame-write store turned q _ t out)
        (λ r i. ground (arith, apart r)) (omega arith) in
    (last, rw (real_null q real, holds) e, linked)

-- `reverse` turns a list of awaiters round within its bound of rounds.
reverse-Linked :
    (fuel : ℕ) (store : Store) (cells : Cells)
    → Linked store cells
    → length cells < fuel
    → (store' : Store) × (reverse fuel store (first cells)
        ≡ done (store', first (List.reverse cells)))
      × Linked store' (List.reverse cells)
unfolding reverse
reverse-Linked fuel store [] l enough = (store, refl, tt)
reverse-Linked fuel store ((q, c) ∷ []) l enough = (store, rw (real_null q l.0, l.1) refl, l)
reverse-Linked fuel store ((q, c) ∷ (r, d) ∷ cells) l enough =
    let (store', e, linked) =
      reverse_loop-Linked fuel store ((q, c) ∷ (r, d) ∷ cells) [] l tt (λ s i. refl) enough in
    (store', rw (real_null q l.0, l.1, real_null r l.3.0) e, linked)

ordered-Linked :
    (policy : ResumeOrderPolicy) (fuel : ℕ) (store : Store) (cells : Cells)
    → Linked store cells
    → length cells < fuel
    → (store' : Store) × (ordered policy fuel store (first cells)
        ≡ done (store', first (in_order policy cells)))
      × Linked store' (in_order policy cells)
unfolding ordered
ordered-Linked lifo fuel store cells l enough = (store, refl, l)
ordered-Linked fifo fuel store cells l enough = reverse-Linked fuel store cells l enough

length-reverse_aux : (xs ys : Cells) → length (reverse_aux xs ys) ≡ length xs + length ys
length-reverse_aux [] ys = omega arith
length-reverse_aux (x ∷ xs) ys = omega (arith, length-reverse_aux xs (x ∷ ys))

length-in_order :
    (policy : ResumeOrderPolicy) (cells : Cells) → length (in_order policy cells) ≡ length cells
length-in_order lifo cells = refl
length-in_order fifo cells = omega (arith, length-reverse_aux cells [])

module _ {World : Type 0} (resume : ℕ → Event World → Event World) where
  -- Each resumed coroutine leaves the awaiters of those that are resumed after it.
  abbrev pub LeavesLater : Cells → Type 0
  LeavesLater [] = Unit {0}
  LeavesLater ((q, c) ∷ cells) =
      ((e : Event World) (r : Ptr) → has r cells ≡ true → (resume c e).store r ≡ e.store r)
      × LeavesLater cells

  -- The coroutines one after the other.
  abbrev pub resume_each : List ℕ → Event World → Event World
  resume_each [] e = e
  resume_each (c ∷ cs) e = resume_each cs (resume c e)

  resume_loop-Linked :
      (fuel : ℕ) (e : Event World) (cells : Cells) (called : List ℕ)
      → Linked e.store cells
      → LeavesLater cells
      → length cells < fuel
      → resume_loop resume fuel e (first cells) called
        ≡ done (called ++ coroutines cells, resume_each (coroutines cells) e)
  unfolding resume_loop
  resume_loop-Linked zero e cells called l kept enough = absurd (omega arith)
  resume_loop-Linked (suc fuel) e [] called l kept enough =
      ap (λ cs. done (cs, e)) (sym (append-nil called))
  resume_loop-Linked (suc fuel) e ((q, c) ∷ cells) called (real, holds, new, rest) kept enough =
      rw (real_null q real, holds)
        (resume_loop-Linked fuel (resume c e) cells (called ++ c ∷ [])
            (frame e.store (resume c e).store cells rest (kept.0 e)) kept.1 (omega arith)
          ∙ ap (λ cs. done (cs, resume_each (coroutines cells) (resume c e)))
              (append_assoc called (c ∷ []) (coroutines cells)))

  -- Setting an event whose word leads through linked awaiters sets the word first and then resumes
  -- each of their coroutines exactly once, the latest first or, for `fifo`, in the order in which
  -- they came, whatever the coroutines do to all else, provided that each leaves the awaiters of
  -- those resumed after it; it never touches an address that holds no awaiter, and a bound on its
  -- loops that is above the number of awaiters is enough. Setting an event that is set already
  -- resumes nothing and changes nothing.
  pub set_lem :
      (policy : ResumeOrderPolicy) (fuel : ℕ) (e : Event World) (cells : Cells)
      → Linked e.store cells
      → LeavesLater (in_order policy cells)
      → length cells < fuel
      → ((e.state ≡ head (first cells)
            → (store : Store) × (set resume policy fuel e
                ≡ done (
                  coroutines (in_order policy cells),
                  resume_each
                      (coroutines (in_order policy cells))
                      (record e { state = this; store = store }),
                ))
              × Linked store (in_order policy cells))
          × (e.state ≡ this → set resume policy fuel e ≡ done ([], e)))
  unfolding set set_from
  set_lem policy fuel e cells l kept enough =
      let (store, turned, linked) = ordered-Linked policy fuel e.store cells l enough in
      (
        λ unset. (
          store,
          rw (unset, set_from, turned)
              (resume_loop-Linked fuel (record e { state = this; store = store })
                (in_order policy cells) [] linked kept
                (omega (arith, length-in_order policy cells))),
          linked,
        ),
        λ was_set. ground arith,
      )
