-- ===== src/Async/Event/Chain.antt =====
-- The list of awaiters that a pointer of an event's word leads through.
use tiny_rpc.Prelude.{ℕ, ◌≡◌, ◌≢◌, arith, Bool, true, false, ◌||◌, some, List, [], ◌∷◌, ◌==◌}
use tiny_rpc.Async.Event.{Ptr, null, Awaiter, Store, write}

-- The address of each awaiter and the coroutine that it waits for, in the order of the links.
abbrev pub Cells : Type 0
Cells = List (Ptr × ℕ)

abbrev pub has : Ptr → Cells → Bool
has p [] = false
has p ((q, c) ∷ cells) = (p == q) || has p cells

abbrev pub first : Cells → Ptr
first [] = null
first ((q, c) ∷ cells) = q

abbrev pub awaiter : ℕ → Ptr → Awaiter
awaiter c p = record { awaiting_coroutine = c; next = p }

-- The awaiters are distinct, and each one's link is the address of the next.
abbrev pub Linked : Store → Cells → Type 0
Linked store [] = Unit {0}
Linked store ((q, c) ∷ cells) =
    (q ≢ null)
    × (store q ≡ some (awaiter c (first cells)))
    × (has q cells ≡ false)
    × Linked store cells

-- Links stay when the awaiters stay.
pub frame :
    (store store' : Store) (cells : Cells)
    → Linked store cells
    → ((q : Ptr) → has q cells ≡ true → store' q ≡ store q)
    → Linked store' cells
frame store store' [] linked same = tt
frame store store' ((q, c) ∷ cells) (real, holds, new, rest) same =
    (real, ground (arith, same q), new, frame store store' cells rest λ r i. same r (ground arith))

-- A write to an awaiter that is not among them leaves the links.
pub frame-write :
    (store : Store) (cells : Cells) (q : Ptr) (a : Awaiter)
    → Linked store cells
    → has q cells ≡ false
    → Linked (write store q a) cells
unfolding write
frame-write store cells q a linked out = frame store _ cells linked λ r i. ground arith
