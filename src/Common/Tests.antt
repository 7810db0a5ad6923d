-- ===== src/Common/Tests.antt =====
-- Runs of the conversions, the coroutines and their pool on concrete values, and their theorems at
-- concrete inputs.
use tiny_rpc.Prelude.{
  ℕ, zero, suc, ◌+◌, ◌-◌, ◌/◌, ◌^◌, ◌≤◌, ◌<◌, ◌≡◌, refl, arith, true, false, [], ◌∷◌, Option, none,
  some, length, get_elem?, replicate,
}
use tiny_rpc.Prelude.Maybe.{◌>>=◌}
use tiny_rpc.Common.Itoa.{
  IntType, w32, itoa, magnitude, low_digits, quotient, ptrtoa, low_digits_hex,
}
use tiny_rpc.Common.Itoa.Bounds.{itoa_bounds}
use tiny_rpc.Common.Itoa.Reading.{read_number, integer}
use tiny_rpc.Common.Itoa.RoundTrip.{itoa_lem}
use tiny_rpc.Common.Coroutine.{
  Thread, Coroutine, coroutine, ensure_main, main_object, resume, yield_coroutine,
  is_main_coroutine, same_pointer,
}
use tiny_rpc.Common.Coroutine.Switching.{
  stay, step, resumed, yield_coroutine_safe, resume_without_current,
}
use tiny_rpc.Common.Coroutine.Pool.{
  CoroutinePool, Entry, is_free, get_coroutine_instanse, return_coroutine,
}
use tiny_rpc.Common.Coroutine.Pool.Dispatch.{free_at, return_coroutine-get_coroutine_instanse}
use tiny_rpc.Common.Coroutine.Pool.Growth.{IsFresh, get_coroutine_instanse_grows}

abbrev int32 : IntType
int32 = record { width = w32; is_signed = true }

text_of_minus_123 : itoa int32 10 (2 ^ 32 - 123) ≡ b'-' ∷ b'1' ∷ b'2' ∷ b'3' ∷ []
unfolding itoa low_digits magnitude quotient
text_of_minus_123 = refl

text_of_pointer : ptrtoa 10 0xbeef ≡ b'b' ∷ b'e' ∷ b'e' ∷ b'f' ∷ []
unfolding ptrtoa low_digits_hex
text_of_pointer = refl

itoa_lem_example : read_number (itoa int32 10 (2 ^ 32 - 123)) ≡ some (integer int32 (2 ^ 32 - 123))
unfolding magnitude
itoa_lem_example = itoa_lem int32 10 3 (2 ^ 32 - 123) (omega arith) refl (omega arith) (omega arith)

text_of_zero : itoa int32 10 0 ≡ []
unfolding itoa low_digits magnitude
text_of_zero = refl

itoa_bounds_example : length (itoa int32 3 (2 ^ 32 - 123)) < 3
itoa_bounds_example = itoa_bounds int32 3 (2 ^ 32 - 123) (omega arith)

abbrev idle_coroutine : ℕ → Coroutine ℕ
idle_coroutine id = record {
  cor_id = id;
  coctx = replicate 14 0;
  stack_size = 0;
  stack_sp = none;
  is_in_cofunc = false;
  call_back = none;
}

-- A thread whose main coroutine is 1 and runs.
abbrev settled : Thread (Unit {0}) ℕ
settled = record {
  main_coroutine = some 1;
  cur_coroutine = some 1;
  coroutine_count = 3;
  cur_coroutine_id = 3;
  coroutines = idle_coroutine;
  next_address = 4;
  world = tt;
}

abbrev swap_quietly : ℕ → ℕ → Unit {0} → Unit {0}
swap_quietly from to w = w

abbrev malloc : ℕ → Unit {0} → Option ℕ × Unit {0}
malloc size w = (some 4096, w)

abbrev in_second : Thread (Unit {0}) ℕ
in_second = resume swap_quietly (some 2) settled

second_runs : in_second.cur_coroutine ≡ some 2
unfolding resume same_pointer
second_runs = refl

yield_coroutine_safe_example :
    (in_second.main_coroutine ≡ some 1)
    × (t : Thread (Unit {0}) ℕ) × (yield_coroutine swap_quietly in_second ≡ some t)
    × (t.cur_coroutine ≡ some 1)
yield_coroutine_safe_example =
    yield_coroutine_safe {malloc = malloc} settled in_second 1 (refl, refl)
      (step settled settled in_second (stay settled) (resumed (some 2) settled))

-- A thread that has no coroutine yet, and what it is after the first.
abbrev unset : Thread (Unit {0}) ℕ
unset = record {
  main_coroutine = none;
  cur_coroutine = none;
  coroutine_count = 0;
  cur_coroutine_id = 0;
  coroutines = idle_coroutine;
  next_address = 1;
  world = tt;
}

abbrev after_first : Thread (Unit {0}) ℕ
after_first = elim (coroutine malloc 1024 [] unset) [ none ↦ unset | some made ↦ made.1 ]

first_made : coroutine malloc 1024 [] unset ≡ some (2, after_first)
unfolding coroutine ensure_main main_object
first_made = refl

resume_without_current_example :
    (is_main_coroutine after_first ≡ false)
    × (resume swap_quietly (some 2) after_first ≡ after_first)
    × (yield_coroutine swap_quietly after_first ≡ none)
resume_without_current_example =
    resume_without_current malloc swap_quietly 1024 [] unset after_first 2 (some 2) refl first_made

-- The first place is skipped, the second is given out, the third is free.
abbrev half_used : CoroutinePool
half_used = record {
  index = 1;
  pool_size = 3;
  stack_size = 1024;
  free_cors = (none, false) ∷ (some 1, true) ∷ (some 2, false) ∷ [];
}

first_taken : (j : ℕ) → 1 ≤ j → j < 2 → free_at half_used.free_cors settled j ≡ some false
unfolding is_free
first_taken zero above below = absurd (omega arith)
first_taken (suc zero) above below = refl
first_taken (suc (suc j)) above below = absurd (omega arith)

second_free : free_at half_used.free_cors settled 2 ≡ some true
unfolding is_free
second_free = refl

return_coroutine-get_coroutine_instanse_example :
    (do given ← get_coroutine_instanse malloc [] half_used settled; return_coroutine 2 given.1.0)
    ≡ some half_used
return_coroutine-get_coroutine_instanse_example =
    return_coroutine-get_coroutine_instanse malloc [] half_used settled 2 (omega arith)
      (omega arith) first_taken second_free

abbrev all_used : CoroutinePool
all_used = record {
  index = 1;
  pool_size = 2;
  stack_size = 1024;
  free_cors = (none, false) ∷ (some 1, true) ∷ (some 2, false) ∷ [];
}

get_coroutine_instanse_grows_example :
    (e : Entry) × (pool' : CoroutinePool) × (t' : Thread (Unit {0}) ℕ) × (get_coroutine_instanse
        malloc [] all_used settled
      ≡ some (e.0, (pool', t')))
    × (get_elem? all_used.free_cors 2 ≡ some e)
    × (get_elem? pool'.free_cors 2 ≡ some e)
    × (pool'.pool_size ≡ 2 + 2 / 2)
    × ((j : ℕ) → j < 2 / 2 → IsFresh 4 pool'.free_cors j)
get_coroutine_instanse_grows_example =
    get_coroutine_instanse_grows malloc [] all_used settled (λ size w. (4096, refl)) (omega arith)
      (omega arith) first_taken
