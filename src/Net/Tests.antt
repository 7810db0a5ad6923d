-- ===== src/Net/Tests.antt =====
-- Runs of the buffer, the timer and the time wheel on concrete values, and their theorems at
-- concrete inputs.
use tiny_rpc.Prelude.{
  ℕ, ◌≡◌, refl, arith, List, [], ◌∷◌, ◌++◌, true, false, some, none, if◌then◌else◌, ◌==◌, take,
  drop, All,
}
use tiny_rpc.Net.TcpBuffer.{
  TcpBuffer, read_able, resize_buffer, append_bytes, make_room, write_to_buffer, read_from_buffer,
}
use tiny_rpc.Net.TcpBuffer.Memory.{copy_out, copy_in}
use tiny_rpc.Net.TcpBuffer.Safety.{IsValid, readable, Yields}
use tiny_rpc.Net.TcpBuffer.Fifo.{write_to_buffer-Yields, read_from_buffer_lem}
use tiny_rpc.Net.Timer.{Timer, TimerEvent, timer_event, on_timer, tasks_of}
use tiny_rpc.Net.Timer.Pending.{IsSorted}
use tiny_rpc.Net.Timer.Firing.{IsDue, IsHeldBack, ids, on_timer_fires, on_timer_blocked}
use tiny_rpc.Net.TimeWheel.{time_wheel, holds, fresh, destroyed, loop_func}
use tiny_rpc.Net.TimeWheel.Expiry.{ticks, count, ticks_lem, fresh_lives}

-- A vector of six bytes, of which 2, 3 and 4 are readable.
abbrev partial : TcpBuffer
partial = record { read_index = 1; write_index = 4; buffer = 1 ∷ 2 ∷ 3 ∷ 4 ∷ 0 ∷ 0 ∷ [] }

partial-IsValid : IsValid partial
partial-IsValid = record { ordered = omega arith; within = omega arith }

-- Two more bytes fit into the vector; three make it grow to ten.
write_two :
    write_to_buffer partial (5 ∷ 6 ∷ [])
    ≡ some (record { read_index = 1; write_index = 6; buffer = 1 ∷ 2 ∷ 3 ∷ 4 ∷ 5 ∷ 6 ∷ [] })
unfolding write_to_buffer make_room append_bytes copy_in
write_two = refl

write_three :
    write_to_buffer partial (5 ∷ 6 ∷ 7 ∷ [])
    ≡ some (record {
      read_index = 0;
      write_index = 6;
      buffer = 2 ∷ 3 ∷ 4 ∷ 5 ∷ 6 ∷ 7 ∷ 0 ∷ 0 ∷ 0 ∷ 0 ∷ [];
    })
unfolding write_to_buffer make_room resize_buffer append_bytes copy_in copy_out
write_three = refl

write_to_buffer-Yields_example :
    Yields (write_to_buffer partial (5 ∷ 6 ∷ 7 ∷ [])) (readable partial ++ (5 ∷ 6 ∷ 7 ∷ []))
write_to_buffer-Yields_example =
    write_to_buffer-Yields partial (5 ∷ 6 ∷ 7 ∷ []) partial-IsValid (omega arith)

read_from_buffer_example :
    (b' : TcpBuffer) × (read_from_buffer partial [] 2
      ≡ some (if read_able partial == 0 then [] else take 2 (readable partial), b'))
    × IsValid b'
    × (readable b' ≡ drop 2 (readable partial))
read_from_buffer_example = read_from_buffer_lem partial [] 2 partial-IsValid

-- All of the vector is readable.
abbrev full : TcpBuffer
full = record { read_index = 1; write_index = 3; buffer = 1 ∷ 2 ∷ 3 ∷ [] }

full-IsValid : IsValid full
full-IsValid = record { ordered = omega arith; within = omega arith }

-- Three events: 1 is due at 10, 2 at 20 and is repeated, 3 at 30 and cancelled.
abbrev events : ℕ → TimerEvent ℕ
events id =
    if id == 1
    then record {
      arrive_time = 10;
      interval = 5;
      is_repeated = false;
      is_cancled = false;
      task = 100;
    }
    else if id == 2
    then record {
      arrive_time = 20;
      interval = 5;
      is_repeated = true;
      is_cancled = false;
      task = 200;
    }
    else record {
      arrive_time = 30;
      interval = 5;
      is_repeated = false;
      is_cancled = true;
      task = 300;
    }

abbrev three : Timer ℕ
three = record { events = events; pending = (10, 1) ∷ (20, 2) ∷ (30, 3) ∷ []; armed = none }

three-IsSorted : IsSorted three.pending
three-IsSorted = (omega arith, (omega arith, (omega arith, tt)))

on_timer_fires_example :
    (front rest : List (ℕ × ℕ)) × (three.pending ≡ front ++ rest)
    × ((on_timer 25 (λ id. 26) 27 three).0 ≡ tasks_of three.events (ids front))
    × All (IsDue 25 three.events) front
    × IsHeldBack 25 three.events rest
on_timer_fires_example = on_timer_fires 25 (λ id. 26) 27 three

-- The cancelled event is the first, and another is long due.
abbrev blocked : Timer ℕ
blocked = record { events = events; pending = (30, 3) ∷ (40, 1) ∷ []; armed = none }

on_timer_blocked_example : on_timer 90 (λ id. 90) 91 blocked ≡ ([], blocked)
on_timer_blocked_example =
    on_timer_blocked 90 (λ id. 90) 91 30 3 ((40, 1) ∷ []) blocked refl refl (omega arith)

abbrev soon : Timer ℕ
soon = record { events = events; pending = (3210, 1) ∷ []; armed = none }

abbrev at_once : Timer ℕ
at_once = record { events = λ id. timer_event 7 0 false 100; pending = []; armed = none }

-- Slot 7 is in two buckets, slot 8 only in the front one.
abbrev two_slots : List (List ℕ)
two_slots = (7 ∷ 8 ∷ []) ∷ (7 ∷ []) ∷ []

ticks_lem_example :
    (gone : List ℕ) × (ticks 1 two_slots ≡ some (gone, drop 1 two_slots ++ time_wheel 1))
    × (count 8 gone ≡ 1)
ticks_lem_example = ticks_lem 1 8 two_slots (omega arith)

one_tick : loop_func two_slots ≡ some (8 ∷ [], (7 ∷ []) ∷ [] ∷ [])
unfolding loop_func destroyed
one_tick = refl

fresh_lives_example :
    (w' w'' : List (List ℕ)) × (gone all : List ℕ) × (fresh 5 ([] ∷ [] ∷ [] ∷ []) ≡ some w')
    × (ticks 2 w' ≡ some (gone, w''))
    × (holds w'' 5 ≡ true)
    × (ticks 3 w' ≡ some (all, time_wheel 3))
fresh_lives_example = fresh_lives 2 5 ([] ∷ [] ∷ [] ∷ []) (omega arith)
