-- ===== src/Async/Task/Keeping.antt =====
-- What every resumption of coroutines keeps.
use tiny_rpc.Prelude.{
  ℕ, zero, suc, ◌≡◌, refl, sym, ap, ◌∙◌, arith, true, false, none, some, List, [], ◌∷◌, ◌++◌,
  append_assoc, append-nil, subst, inl, inr, Bool-cases, Option-cases,
}
use tiny_rpc.Async.Task.{
  Outcome, returned, threw, Action, schedule, await_task, await_resume, Frame, Coroutines, Run, ran,
  fault, set_frame, take_result, is_ready, set_continuation, finish, act, resume,
}

-- What every resumption keeps: who is done stays done, and the queue only grows at its end.
pub record Keeps (s s' : Coroutines) : Type 0 where
  pub done : (t : ℕ) → (s.frames t).is_done ≡ true → (s'.frames t).is_done ≡ true
  pub grown : (more : List ℕ) × (s'.queue ≡ s.queue ++ more)

abbrev pub KeepsAll : (ℕ → Coroutines → Run) → Type 0
KeepsAll go = (h : ℕ) (s s' : Coroutines) → go h s ≡ ran s' → Keeps s s'

pub Keeps-trans : {s t u : Coroutines} → Keeps s t → Keeps t u → Keeps s u
Keeps-trans {s} k l = record {
  done = λ t e. l.done t (k.done t e);
  grown = (
    k.grown.0 ++ l.grown.0,
    l.grown.1 ∙ ap (λ q. q ++ l.grown.0) k.grown.1 ∙ append_assoc s.queue k.grown.0 l.grown.0,
  );
}

pub set_frame-Keeps :
    (h : ℕ) (f : Frame) (s : Coroutines)
    → ((s.frames h).is_done ≡ true → f.is_done ≡ true)
    → Keeps s (set_frame h f s)
set_frame-Keeps h f s done = record {
  done = λ t e. ground (arith, done);
  grown = ([], sym (append-nil s.queue));
}

pub ran_path : {s t : Coroutines} → ran s ≡ ran t → s ≡ t
ran_path e = cc

pub take_result_done :
    (o : Outcome) (rest : List Action) (f : Frame) → (take_result o rest f).is_done ≡ f.is_done
unfolding take_result
take_result_done (returned v) rest f = refl
take_result_done (threw x) rest f = refl

abbrev pub ended : ℕ → Coroutines → Coroutines
ended h s = set_frame h (record (s.frames h) { is_done = true }) s

pub finish-ran :
    (go : ℕ → Coroutines → Run) (h : ℕ) (s : Coroutines)
    → (s.frames h).continuation ≡ none
    → finish go h s ≡ ran (ended h s)
unfolding finish
finish-ran go h s e = ground arith

pub finish-go :
    (go : ℕ → Coroutines → Run) (h c : ℕ) (s : Coroutines)
    → (s.frames h).continuation ≡ some c
    → finish go h s ≡ go c (ended h s)
unfolding finish
finish-go go h c s e = ground arith

pub resume-fault :
    (fuel h : ℕ) (s : Coroutines) → (s.frames h).is_done ≡ true → resume (suc fuel) h s ≡ fault
unfolding resume
resume-fault fuel h s e = ground arith

pub resume-act :
    (fuel h : ℕ) (s : Coroutines)
    → (s.frames h).is_done ≡ false
    → resume (suc fuel) h s ≡ act (resume fuel) h (s.frames h).body s
unfolding resume
resume-act fuel h s e = ground arith

pub finish-Keeps :
    (go : ℕ → Coroutines → Run) (h : ℕ) (s s' : Coroutines)
    → KeepsAll go
    → finish go h s ≡ ran s'
    → Keeps s s'
unfolding finish
finish-Keeps go h s s' all e =
    let kept : Keeps s (ended h s) = set_frame-Keeps h _ s (λ d. refl) in
    elim (Option-cases ((s.frames h).continuation)) [
      | inl last ↦ subst (Keeps s) (ran_path (sym (finish-ran go h s last) ∙ e)) kept
      | inr (c, to) ↦ Keeps-trans kept (all c (ended h s) s' (sym (finish-go go h c s to) ∙ e))
    ]

pub act-Keeps :
    (go : ℕ → Coroutines → Run) (h : ℕ) (body : List Action) (s s' : Coroutines)
    → KeepsAll go
    → act go h body s ≡ ran s'
    → Keeps s s'
unfolding act
act-Keeps go h [] s s' all e = finish-Keeps go h s s' all e
act-Keeps go h (schedule ∷ rest) s s' all e =
    let waiting : Coroutines = set_frame h (record (s.frames h) { body = rest }) s in
    let kept : Keeps s waiting = set_frame-Keeps h _ s (λ d. d) in
    subst (Keeps s) (ran_path e) (record { done = kept.done; grown = (h ∷ [], refl) })
act-Keeps go h (await_task t ∷ rest) s s' all e =
    let waiting : Coroutines =
      set_frame h (record (s.frames h) { body = await_resume t ∷ rest }) s in
    let kept : Keeps s waiting = set_frame-Keeps h _ s (λ d. d) in
    elim (Bool-cases (is_ready t s)) [
      | inl ready ↦ Keeps-trans kept (all h waiting s' (sym (rw ready refl) ∙ e))
      | inr unready ↦ Keeps-trans kept (
          Keeps-trans (set_frame-Keeps t _ waiting (λ d. d))
            (all t (set_continuation t h waiting) s' (sym (rw unready refl) ∙ e)))
    ]
act-Keeps go h (await_resume t ∷ rest) s s' all e =
    Keeps-trans
      (set_frame-Keeps h _ s (λ d. take_result_done (s.frames t).outcome rest (s.frames h) ∙ d))
      (all h _ s' e)

pub resume-Keeps : (fuel : ℕ) → KeepsAll (resume fuel)
unfolding resume
resume-Keeps zero h s s' e = absurd (cc)
resume-Keeps (suc fuel) h s s' e = elim (Bool-cases ((s.frames h).is_done)) [
  | inl done ↦ absurd (cc (sym (resume-fault fuel h s done) ∙ e))
  | inr alive ↦
      act-Keeps (resume fuel) h (s.frames h).body s s' (resume-Keeps fuel)
        (sym (resume-act fuel h s alive) ∙ e)
]
