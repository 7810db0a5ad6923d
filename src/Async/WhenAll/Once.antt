-- ===== src/Async/WhenAll/Once.antt =====
-- A coroutine that waits for several tasks goes on exactly once, after all of them.
use tiny_rpc.Prelude.{
  ℕ, zero, suc, ◌+◌, ◌%◌, ◌≡◌, ◌≢◌, ◌<◌, refl, ap, ◌∙◌, arith, none, some, List, [], ◌∷◌, length,
  ltb, ◌==◌, if◌then◌else◌,
}
use tiny_rpc.Async.WhenAll.{
  Handle, size_mod, WhenAllLatch, when_all_latch, try_await, notify_awaitable_completed, Task,
  at_once, later, start, start_each, try_await_all, complete, Phase, starting, written, suspended,
  proceeding, Awaiting, Step, starts, completes, writes, arrives, Steps, stay, then_step, fresh,
}

-- What the coroutine itself adds to the count.
abbrev own : Phase → ℕ
own starting = 1
own written = 1
own suspended = 0
own proceeding = 0

-- What has been resumed when `left` tasks have not ended.
abbrev pub expected : ℕ → Phase → ℕ → List Handle
expected c suspended left = if left == 0 then some c ∷ [] else []
expected c _ left = []

record IsCounted (c : ℕ) (s : Awaiting) : Type 0 where
  counted : s.latch.count ≡ s.unstarted + s.unfinished + own s.phase
  bounded : s.latch.count < size_mod
  handle : s.phase ≢ starting → s.latch.awaiting_co ≡ some c
  once : s.resumed ≡ expected c s.phase (s.unstarted + s.unfinished)
  all_started : s.phase ≢ starting → s.unstarted ≡ 0
  none_left : s.phase ≡ proceeding → s.unstarted + s.unfinished ≡ 0

step-IsCounted : {c : ℕ} {s t : Awaiting} → IsCounted c s → Step c s t → IsCounted c t
unfolding notify_awaitable_completed
step-IsCounted v (starts n at phase) = ground arith
step-IsCounted v (completes n at) = ground arith
step-IsCounted v (writes at phase) = ground arith
step-IsCounted v (arrives phase) = ground arith

Steps-IsCounted : {c : ℕ} {s t : Awaiting} → IsCounted c s → Steps c s t → IsCounted c t
Steps-IsCounted v stay = v
Steps-IsCounted v (then_step steps last) = step-IsCounted (Steps-IsCounted v steps) last

fresh-IsCounted : (c n : ℕ) → n + 1 < size_mod → IsCounted c (fresh n)
unfolding when_all_latch
fresh-IsCounted c n small = ground arith

-- However the tasks' ends on other threads fall among the steps of a coroutine that waits for `n`
-- tasks (it starts them, writes its handle, and arrives), with n + 1 below 2^64: its handle is
-- resumed exactly once if it is suspended and every task has ended, and nothing, the null handle
-- included, is resumed in any other state; when it goes on without having been suspended, every
-- task has ended; so it goes on after the last of the tasks, and once.
pub resumed_once :
    (c n : ℕ) (s : Awaiting)
    → n + 1 < size_mod
    → Steps c (fresh n) s
    → (s.resumed ≡ expected c s.phase (s.unstarted + s.unfinished))
      × (s.phase ≡ proceeding → s.unstarted + s.unfinished ≡ 0)
resumed_once c n s small steps =
    let v = Steps-IsCounted (fresh-IsCounted c n small) steps in (v.once, v.none_left)

-- The number of the tasks that end at once, and of those that end later.
abbrev pub early : List Task → ℕ
early [] = 0
early (at_once ∷ tasks) = suc (early tasks)
early (later ∷ tasks) = early tasks

abbrev pub late : List Task → ℕ
late [] = 0
late (at_once ∷ tasks) = late tasks
late (later ∷ tasks) = suc (late tasks)

early-late : (tasks : List Task) → early tasks + late tasks ≡ length tasks
early-late [] = refl
early-late (at_once ∷ tasks) = omega (arith, early-late tasks)
early-late (later ∷ tasks) = omega (arith, early-late tasks)

abbrev pub counting : ℕ → Handle → WhenAllLatch
counting n h = record { count = n; awaiting_co = h }

notify_early :
    (n : ℕ) (h : Handle)
    → suc (suc n) < size_mod
    → notify_awaitable_completed (counting (suc (suc n)) h) ≡ (counting (suc n) h, [])
unfolding notify_awaitable_completed
notify_early n h small = ground arith

start_early :
    (tasks : List Task) (n : ℕ) (h : Handle)
    → suc (suc n) < size_mod
    → start_each (at_once ∷ tasks) (counting (suc (suc n)) h)
      ≡ start_each tasks (counting (suc n) h)
unfolding start_each start
start_early tasks n h small = rw (notify_early n h small) refl

start_each-early :
    (tasks : List Task) (n : ℕ) (h : Handle)
    → early tasks + suc n < size_mod
    → start_each tasks (counting (early tasks + suc n) h) ≡ (counting (suc n) h, [])
unfolding start_each start
start_each-early [] n h small = ap (λ k. (counting k h, [])) (omega arith)
start_each-early (at_once ∷ tasks) n h small =
    ap (λ k. start_each (at_once ∷ tasks) (counting k h)) {x = suc (early tasks) + suc n}
      {y = suc (suc (early tasks + n))} (omega arith)
    ∙ start_early tasks (early tasks + n) h (omega arith)
    ∙ ap (λ k. start_each tasks (counting k h)) {x = suc (early tasks + n)} (omega arith)
    ∙ start_each-early tasks n h (omega arith)
start_each-early (later ∷ tasks) n h small = rw (start_each-early tasks n h small) refl

notify_last :
    (c : ℕ) → notify_awaitable_completed (counting 1 (some c)) ≡ (counting 0 (some c), some c ∷ [])
unfolding notify_awaitable_completed
notify_last c = refl

-- Who is resumed by the last of some tasks.
abbrev pub by_last : ℕ → ℕ → List Handle
by_last zero c = []
by_last (suc n) c = some c ∷ []

complete_all :
    (n c : ℕ) → n < size_mod → complete n (counting n (some c)) ≡ (counting 0 (some c), by_last n c)
unfolding complete
complete_all zero c small = refl
complete_all (suc zero) c small = rw (notify_last c) refl
complete_all (suc (suc n)) c small =
    rw (notify_early n (some c) small, complete_all (suc n) c (omega arith)) refl

-- A coroutine that waits for tasks, some of which run to their end when they are started: starting
-- them resumes nothing, the coroutine is to suspend exactly when some task ends later, and the
-- ends of these resume its handle once, with the last of them, after which the count is zero.
-- Condition: the number of tasks plus one is below 2^64.
pub try_await_all_lem :
    (tasks : List Task) (c : ℕ)
    → length tasks + 1 < size_mod
    → (try_await_all tasks (some c) (when_all_latch (length tasks))
        ≡ (counting (late tasks) (some c), [], ltb 0 (late tasks)))
      × (complete (late tasks) (counting (late tasks) (some c))
          ≡ (counting 0 (some c), by_last (late tasks) c))
unfolding try_await_all when_all_latch try_await
try_await_all_lem tasks c small =
    let split = early-late tasks in
    let made : ((length tasks + 1) % size_mod) ≡ early tasks + suc (late tasks) = omega arith in
    (
      rw
          (ap (λ k. start_each tasks (counting k none)) made
            ∙ start_each-early tasks (late tasks) none (omega arith))
          (ground arith),
      complete_all (late tasks) c (omega arith),
    )
