-- ===== src/Async/WhenAll.antt =====
-- async/when_all.hpp: a coroutine that waits for several tasks. The latch counts the tasks and the
-- coroutine itself; who takes the count to zero resumes the coroutine, which does not suspend
-- when that is itself. A coroutine handle is `none` when it is null.
pub mod Once
use tiny_rpc.Prelude.{
  ℕ, zero, suc, ◌+◌, ◌-◌, ◌%◌, ◌^◌, ◌≡◌, ◌<◌, Bool, true, false, ◌&&◌, Option, none, some, List, [],
  ◌∷◌, ◌++◌, length, ltb, ◌==◌, if◌then◌else◌,
}

abbrev pub Handle : Type 0
Handle = Option ℕ

abbrev pub size_mod : ℕ
size_mod = 2 ^ 64

pub record WhenAllLatch : Type 0 where
  pub count : ℕ
  pub awaiting_co : Handle

unfoldable pub when_all_latch : ℕ → WhenAllLatch
when_all_latch count = record { count = (count + 1) % size_mod; awaiting_co = none }

-- The move leaves the other latch without a coroutine.
pub move_latch : WhenAllLatch → WhenAllLatch × WhenAllLatch
move_latch other = (
  record { count = other.count; awaiting_co = other.awaiting_co },
  record other { awaiting_co = none },
)

-- `is_done` is `done()` of a handle.
pub is_ready : (ℕ → Bool) → WhenAllLatch → Bool
is_ready is_done l = elim l.awaiting_co [ none ↦ false | some h ↦ is_done h ]

abbrev pub count_down : WhenAllLatch → WhenAllLatch
count_down l = record l { count = (l.count + (size_mod - 1)) % size_mod }

-- The two accesses of `try_await`: the handle is written, and the count taken down. The test is
-- whether the coroutine is to suspend.
abbrev pub write_handle : Handle → WhenAllLatch → WhenAllLatch
write_handle h l = record l { awaiting_co = h }

abbrev pub arrive : WhenAllLatch → WhenAllLatch × Bool
arrive l = (count_down l, ltb 1 l.count)

pub try_await : Handle → WhenAllLatch → WhenAllLatch × Bool
try_await h l = arrive (write_handle h l)

-- The latch, and the handles that are resumed.
unfoldable pub notify_awaitable_completed : WhenAllLatch → WhenAllLatch × List Handle
notify_awaitable_completed l = (count_down l, if l.count == 1 then l.awaiting_co ∷ [] else [])

-- A task when it is started: it runs to its end at once, or it suspends and ends later.
pub data Task : Type 0 where
  at_once : Task
  later : Task

-- `start` of a task: its coroutine runs, and notifies the latch when it ends.
pub start : Task → WhenAllLatch → WhenAllLatch × List Handle
start at_once l = notify_awaitable_completed l
start later l = (l, [])

start_each : List Task → WhenAllLatch → WhenAllLatch × List Handle
start_each [] l = (l, [])
start_each (task ∷ tasks) l =
    let (started, resumed) = start task l in
    let (last, rest) = start_each tasks started in (last, resumed ++ rest)

-- `try_await` of the awaitable: what the latch becomes, what the tasks resumed, and whether the
-- coroutine is to suspend.
pub try_await_all : List Task → Handle → WhenAllLatch → WhenAllLatch × List Handle × Bool
try_await_all tasks h l =
    let (started, resumed) = start_each tasks l in
    let (last, suspends) = try_await h started in (last, resumed, suspends)

-- The tasks that end later, one after the other.
pub complete : ℕ → WhenAllLatch → WhenAllLatch × List Handle
complete zero l = (l, [])
complete (suc n) l =
    let (next, resumed) = notify_awaitable_completed l in
    let (last, rest) = complete n next in (last, resumed ++ rest)

-- How far the awaiting coroutine is.
pub data Phase : Type 0 where
  starting : Phase
  written : Phase
  suspended : Phase
  proceeding : Phase

pub record Awaiting : Type 0 where
  pub latch : WhenAllLatch
  pub unstarted : ℕ
  pub unfinished : ℕ
  pub phase : Phase
  pub resumed : List Handle

-- What happens next, while other threads run the tasks.
pub data Step (c : ℕ) (s : Awaiting) : Awaiting → Type 0 where
  starts :
      (n : ℕ)
      → s.unstarted ≡ suc n
      → s.phase ≡ starting
      → Step c s (record s { unstarted = n; unfinished = s.unfinished + 1 })
  completes :
      (n : ℕ)
      → s.unfinished ≡ suc n
      → Step c s (record s {
        latch = (notify_awaitable_completed s.latch).0;
        unfinished = n;
        resumed = s.resumed ++ (notify_awaitable_completed s.latch).1;
      })
  writes :
      s.unstarted ≡ 0
      → s.phase ≡ starting
      → Step c s (record s { latch = write_handle (some c) s.latch; phase = written })
  arrives :
      s.phase ≡ written
      → Step c s (record s {
        latch = (arrive s.latch).0;
        phase = if (arrive s.latch).1 then suspended else proceeding;
      })

pub data Steps (c : ℕ) (s : Awaiting) : Awaiting → Type 0 where
  stay : Steps c s s
  then_step : {t u : Awaiting} → Steps c s t → Step c t u → Steps c s u

-- A new awaitable for `n` tasks.
abbrev pub fresh : ℕ → Awaiting
fresh n = record {
  latch = when_all_latch n;
  unstarted = n;
  unfinished = 0;
  phase = starting;
  resumed = [];
}
