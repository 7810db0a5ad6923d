-- ===== src/Async/SyncWait/Tests.antt =====
-- A wait that finds the event not set and sleeps until it is notified.
use tiny_rpc.Prelude.{◌≡◌, ◌≢◌, ◌⊎◌, refl, true, none, some, Option}
use tiny_rpc.Async.Task.{Outcome, returned}
use tiny_rpc.Async.SyncWait.{
  SyncWait, woken, testing, has_notified, Steps, stay, then_step, tests, ends, sets, notifies,
  started, test, set, notify, wait_ends,
}

abbrev notified : SyncWait
notified = record {
  event = record { is_set = true };
  waiter = testing;
  setter = has_notified;
  outcome = some (returned 4);
}

notified-Steps : Steps started notified
unfolding set test notify
notified-Steps =
    then_step
      (then_step (then_step (then_step stay (tests refl)) (ends (returned 4) refl refl))
        (sets (returned 4) refl refl))
      (notifies refl)

wait_ends_example :
    (testing ≡ woken → (true ≡ true) × (◌≢◌ {A = Option Outcome} (some (returned 4)) none))
    × (has_notified ≡ has_notified
        → (testing ≡ woken) ⊎ ((testing ≡ testing) × (test notified.event ≡ woken)))
wait_ends_example = wait_ends notified notified-Steps
