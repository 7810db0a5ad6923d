-- ===== src/Net/IoThread/Dealing.antt =====
-- net/io_thread.cc, getIOThread: the threads take turns.
use tiny_rpc.Prelude.{
  ℕ, zero, suc, ◌+◌, ◌<◌, List, [], ◌∷◌, Option, some, ◌≡◌, refl, ap, ◌∙◌, arith, ◌⊎◌, inl, inr,
}
use tiny_rpc.Prelude.Int.{ℤ, pos, negsuc}
use tiny_rpc.Prelude.Maybe.{◌>>=◌}
use tiny_rpc.Net.IoThread.{IoThreadPool, get_io_thread}

-- So many calls: the places that they give, and the pool.
unfoldable pub deal : ℕ → IoThreadPool → Option (List ℕ × IoThreadPool)
deal zero p = some ([], p)
deal (suc calls) p = do (i, p') ← get_io_thread p; (is, p'') ← deal calls p'; some (i ∷ is, p'')

-- The numbers from `i` on.
unfoldable pub count_up : ℕ → ℕ → List ℕ
count_up i zero = []
count_up i (suc n) = i ∷ count_up (suc i) n

pub next_thread :
    (n i : ℕ)
    → i < n
    → get_io_thread (record { size = n; index = pos i })
      ≡ some (i, record { size = n; index = pos (suc i) })
unfolding get_io_thread
next_thread n i h = ground arith

pub first_thread :
    (n : ℕ) (index : ℤ)
    → 0 < n
    → (index ≡ negsuc 0) ⊎ (index ≡ pos n)
    → get_io_thread (record { size = n; index = index })
      ≡ some (0, record { size = n; index = pos 1 })
unfolding get_io_thread
first_thread n index h (inl start) = rw start (ground arith)
first_thread n index h (inr turn) = rw turn (ground arith)

rest_of_round :
    (n k i : ℕ)
    → i + k ≡ n
    → deal k (record { size = n; index = pos i })
      ≡ some (count_up i k, record { size = n; index = pos n })
unfolding deal count_up
rest_of_round n zero i h = ap (λ j. some ([], record { size = n; index = pos j })) (omega arith)
rest_of_round n (suc k) i h =
    rw (next_thread n i (omega arith), rest_of_round n k (suc i) (omega arith)) refl

-- In a pool of some threads that is new or has just given its last thread, as many calls of
-- `getIOThread` as there are threads give each thread once, in order, and leave the pool where it
-- has just given its last thread again.
pub get_io_thread_in_turn :
    (n : ℕ) (p : IoThreadPool)
    → p.size ≡ suc n
    → (p.index ≡ negsuc 0) ⊎ (p.index ≡ pos (suc n))
    → deal (suc n) p ≡ some (count_up 0 (suc n), record { size = suc n; index = pos (suc n) })
unfolding deal count_up
get_io_thread_in_turn n p size turn =
    rw
      (
        ap (λ k. get_io_thread (record p { size = k })) size
            ∙ first_thread (suc n) p.index (omega arith) turn,
        rest_of_round (suc n) n 1 (omega arith),
      )
      refl
