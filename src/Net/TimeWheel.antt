-- ===== src/Net/TimeWheel.antt =====
-- net/tcp_conn_timer.h and net/tcp_conn_timer.cc: the time wheel that closes idle connections.
-- A slot is a number. The wheel owns shared pointers to slots, and nobody else does; a slot whose
-- last pointer goes is destroyed. Its destructor, which calls back to shut its connection down, is
-- not here. `none` is a `pop` or `back` on an empty queue.
pub mod Expiry
use tiny_rpc.Prelude.{
  ℕ, zero, suc, Bool, true, false, ◌||◌, List, [], ◌∷◌, ◌++◌, Option, none, some, ◌==◌,
  if◌then◌else◌, replicate,
}
use tiny_rpc.Prelude.Maybe.{◌>>=◌}

-- The front bucket first.
abbrev pub Wheel : Type 0
Wheel = List (List ℕ)

unfoldable pub time_wheel : ℕ → Wheel
time_wheel bucket_count = replicate bucket_count []

abbrev pub contains : List ℕ → ℕ → Bool
contains [] s = false
contains (x ∷ xs) s = x == s || contains xs s

-- Whether some bucket still points to the slot.
abbrev pub holds : Wheel → ℕ → Bool
holds [] s = false
holds (b ∷ bs) s = contains b s || holds bs s

-- `wheel_.back().emplace_back(slot)`.
unfoldable pub fresh : ℕ → Wheel → Option Wheel
fresh s [] = none
fresh s (b ∷ []) = some ((b ++ s ∷ []) ∷ [])
fresh s (b ∷ c ∷ bs) = do w ← fresh s (c ∷ bs); some (b ∷ w)

-- The slots of a dropped bucket to which no pointer is left: none in the rest of the bucket, and
-- none in the wheel.
unfoldable pub destroyed : List ℕ → Wheel → List ℕ
destroyed [] w = []
destroyed (s ∷ ss) w =
    let others = destroyed ss w in if contains ss s || holds w s then others else s ∷ others

-- `loopFunc`: the slots that are destroyed, and the wheel.
unfoldable pub loop_func : Wheel → Option (List ℕ × Wheel)
loop_func [] = none
loop_func (b ∷ bs) = some (destroyed b bs, bs ++ [] ∷ [])
