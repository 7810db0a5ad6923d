-- ===== src/Async/Task/Tests.antt =====
-- Runs of two coroutines and of the variables that own them, and their theorems at concrete inputs.
use tiny_rpc.Prelude.{◌+◌, ◌≡◌, refl, arith, some, [], ◌∷◌, ◌==◌, if◌then◌else◌}
use tiny_rpc.Async.Task.{
  returned, schedule, await_task, Coroutines, Run, ran, fault, out_of_fuel, finish, act, resume,
  new_frame, create, pop_and_resume, take_result,
}
use tiny_rpc.Async.Task.Twice.{resumed_twice}
use tiny_rpc.Async.Task.Owners.{Owners, apply_each, destroys, assigns}
use tiny_rpc.Async.Task.Owners.Once.{owned, times, apply_each_lem}

-- Coroutine 1 is about to wait for the task of coroutine 2.
abbrev one_waits : Coroutines
one_waits = record {
  frames =
      λ h. if h == 1 then new_frame (await_task 2 ∷ []) (returned 0) else new_frame [] (returned 0);
  queue = [];
}

abbrev state_of : Run → Coroutines
state_of (ran s) = s
state_of fault = one_waits
state_of out_of_fuel = one_waits

abbrev called_task : Coroutines
called_task = state_of (create 1 2 (schedule ∷ []) (returned 7) one_waits)

abbrev waited_task : Coroutines
waited_task = state_of (resume 9 1 called_task)

task_called : create 1 2 (schedule ∷ []) (returned 7) one_waits ≡ ran called_task
unfolding create resume act
task_called = refl

task_waited : resume 9 1 called_task ≡ ran waited_task
unfolding create resume act finish take_result
task_waited = refl

-- The caller has the value of the task, and the task is still in the queue.
task_received : ((waited_task.frames 1).received ≡ 7 ∷ []) × (waited_task.queue ≡ 2 ∷ [])
unfolding create resume act finish take_result
task_received = (refl, refl)

resumed_twice_example : pop_and_resume 4 waited_task ≡ fault
resumed_twice_example =
    resumed_twice 0 9 3 1 2 [] (returned 7) one_waits called_task waited_task refl (omega arith)
      refl refl task_called task_waited

abbrev two_owners : Owners
two_owners = record { variables = some 3 ∷ some 5 ∷ []; destroyed = [] }

apply_each_lem_example :
    owned 3 (apply_each (assigns 0 1 ∷ destroys 0 ∷ []) two_owners).variables
      + times 3 (apply_each (assigns 0 1 ∷ destroys 0 ∷ []) two_owners).destroyed
    ≡ 1
apply_each_lem_example = apply_each_lem 3 (assigns 0 1 ∷ destroys 0 ∷ []) two_owners (omega arith)
