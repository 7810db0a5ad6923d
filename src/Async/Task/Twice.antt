-- ===== src/Async/Task/Twice.antt =====
-- A task that waits for the pool and for which another coroutine waits.
use tiny_rpc.Prelude.{
  ℕ, zero, suc, ◌≡◌, ◌≢◌, refl, sym, ap, ◌∙◌, arith, true, false, some, List, [], ◌∷◌, ◌++◌, subst,
}
use tiny_rpc.Async.Task.{
  Outcome, Action, schedule, await_task, await_resume, Frame, Coroutines, Run, ran, fault,
  set_frame, is_ready, set_continuation, act, resume, new_frame, create, pop_and_resume,
}
use tiny_rpc.Async.Task.Keeping.{ran_path, ended, finish-go, resume-fault, resume-act, resume-Keeps}

resume-zero : (h : ℕ) (s s' : Coroutines) → resume zero h s ≡ ran s' → ⊥
unfolding resume
resume-zero h s s' e = cc e

-- A task that is the pool's: its body only has to end, and it stands in the queue.
record IsScheduled (t : ℕ) (s s' : Coroutines) : Type 0 where
  at_end : (s'.frames t).body ≡ []
  alive : (s'.frames t).is_done ≡ false
  queued : s'.queue ≡ s.queue ++ t ∷ []
  others : (g : ℕ) → g ≢ t → s'.frames g ≡ s.frames g

create-IsScheduled :
    (fuel t : ℕ) (outcome : Outcome) (s s' : Coroutines)
    → create (suc fuel) t (schedule ∷ []) outcome s ≡ ran s'
    → IsScheduled t s s'
unfolding create act
create-IsScheduled fuel t outcome s s' e =
    let called : Coroutines = set_frame t (new_frame (schedule ∷ []) outcome) s in
    let same : called.frames t ≡ new_frame (schedule ∷ []) outcome = ground arith in
    let waits : act (resume fuel) t (called.frames t).body called ≡ ran s' =
      sym (resume-act fuel t called (ap (λ f. f.is_done) same)) ∙ e in
    subst (IsScheduled t s)
      (ran_path (sym (ap (λ f. act (resume fuel) t f.body called) same) ∙ waits))
      (record {
        at_end = ground arith;
        alive = ground (arith, ap (λ f. f.is_done) same);
        queued = refl;
        others = λ g other. ground arith;
      })

set_frame_same : (h : ℕ) (f : Frame) (s : Coroutines) → (set_frame h f s).frames h ≡ f
set_frame_same h f s = ground arith

set_frame_other :
    (h g : ℕ) (f : Frame) (s : Coroutines) → g ≢ h → (set_frame h f s).frames g ≡ s.frames g
set_frame_other h g f s other = ground arith

-- The end of a body for which a coroutine waits.
end-done :
    (fuel c t : ℕ) (s s' : Coroutines)
    → (s.frames t).body ≡ []
    → (s.frames t).is_done ≡ false
    → (s.frames t).continuation ≡ some c
    → resume fuel t s ≡ ran s'
    → ((s'.frames t).is_done ≡ true) × ((rest : List ℕ) × (s'.queue ≡ s.queue ++ rest))
unfolding act
end-done zero c t s s' at_end unready waited e = absurd (resume-zero t s s' e)
end-done (suc fuel) c t s s' at_end unready waited e =
    let k = resume-Keeps fuel c (ended t s) s' (
      sym (finish-go (resume fuel) t c s waited)
      ∙ sym (ap (λ b. act (resume fuel) t b s) at_end)
      ∙ sym (resume-act fuel t s unready)
      ∙ e) in
    (k.done t (ap (λ f. f.is_done) (set_frame_same t _ s)), k.grown)

abbrev waiting : ℕ → ℕ → List Action → Coroutines → Coroutines
waiting c t more s = set_frame c (record (s.frames c) { body = await_resume t ∷ more }) s

await-go :
    (go : ℕ → Coroutines → Run) (c t : ℕ) (more : List Action) (s : Coroutines)
    → is_ready t s ≡ false
    → act go c (await_task t ∷ more) s ≡ go t (set_continuation t c (waiting c t more s))
unfolding act
await-go go c t more s e = rw e refl

-- A wait for such a task ends it, although the pool has not resumed it.
await-done :
    (fuel c t : ℕ) (more : List Action) (s s' : Coroutines)
    → c ≢ t
    → (s.frames c).is_done ≡ false
    → (s.frames c).body ≡ await_task t ∷ more
    → (s.frames t).body ≡ []
    → (s.frames t).is_done ≡ false
    → resume fuel c s ≡ ran s'
    → ((s'.frames t).is_done ≡ true) × ((rest : List ℕ) × (s'.queue ≡ s.queue ++ rest))
await-done zero c t more s s' other alive waits at_end unready e = absurd (resume-zero c s s' e)
await-done (suc fuel) c t more s s' other alive waits at_end unready e =
    let u : Coroutines = set_continuation t c (waiting c t more s) in
    let kept : (waiting c t more s).frames t ≡ s.frames t =
      set_frame_other c t _ s (λ same. other (sym same)) in
    let frame : u.frames t ≡ record (s.frames t) { continuation = some c } =
      set_frame_same t _ (waiting c t more s)
      ∙ ap (λ (f : Frame). record f { continuation = some c }) kept in
    end-done fuel c t u s' (ap (λ f. f.body) frame ∙ at_end) (ap (λ f. f.is_done) frame ∙ unready)
      (ap (λ f. f.continuation) frame)
      (sym (await-go (resume fuel) c t more s unready)
        ∙ sym (ap (λ b. act (resume fuel) c b s) waits)
        ∙ sym (resume-act fuel c s alive)
        ∙ e)

pop-resume :
    (fuel t : ℕ) (rest : List ℕ) (s : Coroutines)
    → s.queue ≡ t ∷ rest
    → pop_and_resume fuel s ≡ resume fuel t (record s { queue = rest })
unfolding pop_and_resume
pop-resume fuel t rest s e = ground arith

-- A task begins to run when it is called. If it waits for the pool then, and another coroutine
-- waits for the task before a thread of the pool has resumed it, this wait resumes it: once
-- control is back, whatever the other coroutine has done after its wait, the task is done and its
-- handle still stands first in the queue, and the thread that takes the handle resumes a coroutine
-- that is done, which is a fault. Conditions: the queue was empty when the task was called, the
-- body of the task ends after its wait, and the other coroutine is not done and is about to wait
-- for the task.
pub resumed_twice :
    (called waited pooled c t : ℕ) (more : List Action) (outcome : Outcome) (s s' s'' : Coroutines)
    → s.queue ≡ []
    → c ≢ t
    → (s.frames c).is_done ≡ false
    → (s.frames c).body ≡ await_task t ∷ more
    → create (suc called) t (schedule ∷ []) outcome s ≡ ran s'
    → resume waited c s' ≡ ran s''
    → pop_and_resume (suc pooled) s'' ≡ fault
resumed_twice called waited pooled c t more outcome s s' s'' empty other alive waits made ran_back =
    let v = create-IsScheduled called t outcome s s' made in
    let same : s'.frames c ≡ s.frames c = v.others c other in
    let (done, (rest, queue)) =
      await-done waited c t more s' s'' other (ap (λ f. f.is_done) same ∙ alive)
        (ap (λ f. f.body) same ∙ waits) v.at_end v.alive ran_back in
    let front : s''.queue ≡ t ∷ rest =
      queue ∙ ap (λ q. q ++ rest) (v.queued ∙ ap (λ q. q ++ t ∷ []) empty) in
    pop-resume (suc pooled) t rest s'' front ∙ resume-fault pooled t _ done
