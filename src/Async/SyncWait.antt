-- ===== src/Async/SyncWait.antt =====
-- async/sync_wait.hpp: a thread that waits for a coroutine. The coroutine's final_suspend sets the
-- event; the thread waits on a condition variable, which may also wake with no cause. A step is
-- what one of the two does under the mutex, or the notification.
mod Tests
use tiny_rpc.Prelude.{
  ℕ, ◌≡◌, ◌≢◌, ◌⊎◌, inl, inr, refl, arith, Bool, true, false, List, [], ◌∷◌, ◌++◌, Option, none,
  some, if◌then◌else◌,
}
use tiny_rpc.Async.Task.{Outcome, returned, threw}

pub record SyncWaitEvent : Type 0 where
  pub is_set : Bool

abbrev pub sync_wait_event : Bool → SyncWaitEvent
sync_wait_event initially_set = record { is_set = initially_set }

-- The part of `set` under the mutex, and `reset`.
unfoldable pub set : SyncWaitEvent → SyncWaitEvent
set e = record e { is_set = true }

pub reset : SyncWaitEvent → SyncWaitEvent
reset e = record e { is_set = false }

-- Where the waiting thread is, in the loop of the condition variable: about to test, asleep in the
-- call, or beyond it.
pub data Waiter : Type 0 where
  testing : Waiter
  asleep : Waiter
  woken : Waiter

-- Where the coroutine is: it runs, it has set the event, or it has notified too.
pub data Setter : Type 0 where
  runs : Setter
  has_set : Setter
  has_notified : Setter

pub record SyncWait : Type 0 where
  pub event : SyncWaitEvent
  pub waiter : Waiter
  pub setter : Setter
  pub outcome : Option Outcome

-- A test of `wait`, under the mutex, which the sleep gives back.
unfoldable pub test : SyncWaitEvent → Waiter
test e = if e.is_set then woken else asleep

-- `notify_all`.
unfoldable pub notify : Waiter → Waiter
notify asleep = testing
notify w = w

pub data Step (s : SyncWait) : SyncWait → Type 0 where
  tests : s.waiter ≡ testing → Step s (record s { waiter = test s.event })
  wakes : s.waiter ≡ asleep → Step s (record s { waiter = testing })
  ends : (o : Outcome) → s.setter ≡ runs → s.outcome ≡ none → Step s (record s { outcome = some o })
  sets :
      (o : Outcome)
      → s.setter ≡ runs
      → s.outcome ≡ some o
      → Step s (record s { event = set s.event; setter = has_set })
  notifies :
      s.setter ≡ has_set → Step s (record s { waiter = notify s.waiter; setter = has_notified })

pub data Steps (s : SyncWait) : SyncWait → Type 0 where
  stay : Steps s s
  then_step : {t u : SyncWait} → Steps s t → Step t u → Steps s u

-- `sync_wait` when it has started its task.
abbrev pub started : SyncWait
started = record { event = sync_wait_event false; waiter = testing; setter = runs; outcome = none }

record IsAwaited (s : SyncWait) : Type 0 where
  marked : s.event.is_set ≡ true → s.setter ≢ runs
  unmarked : s.event.is_set ≡ false → s.setter ≡ runs
  ended : s.setter ≢ runs → s.outcome ≢ none
  after_set : s.waiter ≡ woken → s.event.is_set ≡ true
  awake : s.setter ≡ has_notified → s.waiter ≢ asleep

step-IsAwaited : {s t : SyncWait} → IsAwaited s → Step s t → IsAwaited t
unfolding set test notify
step-IsAwaited v (tests at) = ground arith
step-IsAwaited v (wakes at) = ground arith
step-IsAwaited v (ends o at unknown) = ground arith
step-IsAwaited v (sets o at known) = ground arith
step-IsAwaited v (notifies at) = ground arith

Steps-IsAwaited : {s t : SyncWait} → IsAwaited s → Steps s t → IsAwaited t
Steps-IsAwaited v stay = v
Steps-IsAwaited v (then_step steps last) = step-IsAwaited (Steps-IsAwaited v steps) last

started-IsAwaited : IsAwaited started
started-IsAwaited = record {
  marked = λ e. absurd (cc);
  unmarked = λ e. refl;
  ended = λ e. absurd (e refl);
  after_set = λ e. absurd (cc);
  awake = λ e. absurd (cc);
}

beyond :
    (w : Waiter) (e : SyncWaitEvent)
    → w ≢ asleep
    → e.is_set ≡ true
    → (w ≡ woken) ⊎ ((w ≡ testing) × (test e ≡ woken))
unfolding test
beyond testing e awake marked = inr (refl, ground arith)
beyond asleep e awake marked = absurd (awake refl)
beyond woken e awake marked = inl refl

-- However the tests of the waiting thread, its wakings with no cause, and the end of the coroutine,
-- its mark and its notification follow one another: the thread is beyond its wait only when the
-- event is set and the coroutine has left a value or an exception; and once the coroutine has
-- notified, the thread is beyond its wait or its next test takes it there, so that it never sleeps
-- through the notification.
pub wait_ends :
    (s : SyncWait)
    → Steps started s
    → (s.waiter ≡ woken → (s.event.is_set ≡ true) × (s.outcome ≢ none))
      × (s.setter ≡ has_notified
          → (s.waiter ≡ woken) ⊎ ((s.waiter ≡ testing) × (test s.event ≡ woken)))
wait_ends s steps =
    let v = Steps-IsAwaited started-IsAwaited steps in
    (
      λ at. (v.after_set at, v.ended (v.marked (v.after_set at))),
      λ at. beyond s.waiter s.event (v.awake at) (ground (arith, v.unmarked)),
    )
