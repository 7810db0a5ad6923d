-- ===== src/Common/Coroutine/Switching.antt =====
-- common/coroutine/coroutine.cc, Yield and Resume: which coroutine of a thread runs.
use tiny_rpc.Prelude.{
  ℕ, Bool, true, false, Option, none, some, ◌≡◌, ◌≢◌, subst, sym, ◌==◌, arith, Option-cases, inl,
  inr,
}
use tiny_rpc.Common.Coroutine.{
  Thread, Coctx, same_pointer, resume, yield_coroutine, get_current_coroutine, is_main_coroutine,
  coroutine, ensure_main, main_object, set_call_back,
}

same_main : (main : ℕ) → same_pointer (some main) (some main) ≡ true
unfolding same_pointer
same_main main = ground arith

apart : (main co : ℕ) → (co == main) ≡ false → same_pointer (some co) (some main) ≡ false
unfolding same_pointer
apart main co other = other

abbrev pub is_set : Option ℕ → Bool
is_set none = false
is_set (some c) = true

module _ {World Task : Type 0} where
  -- From the main coroutine, `Resume` of another one makes that one current, by one switch to it;
  -- `Yield` then makes the main one current again, by one switch back, and changes nothing else.
  pub yield_coroutine-resume :
      (coctx_swap : ℕ → ℕ → World → World) (t : Thread World Task) (main co : ℕ)
      → t.main_coroutine ≡ some main
      → t.cur_coroutine ≡ some main
      → (co == main) ≡ false
      → (is_main_coroutine (resume coctx_swap (some co) t) ≡ false)
        × (yield_coroutine coctx_swap (resume coctx_swap (some co) t)
            ≡ some (record t { world = coctx_swap co main (coctx_swap main co t.world) }))
  unfolding resume yield_coroutine is_main_coroutine
  yield_coroutine-resume coctx_swap t main co is_main is_cur other =
      ground (arith, same_main main, apart main co other)

  -- `Yield` in a coroutine that is not the main one, where what is outside does not see the switch.
  pub yield-inside :
      (cur : ℕ) (t : Thread World Task)
      → t.cur_coroutine ≡ some cur
      → is_main_coroutine t ≡ false
      → yield_coroutine (λ co main w. w) t ≡ some (record t { cur_coroutine = t.main_coroutine })
  unfolding yield_coroutine is_main_coroutine
  yield-inside cur t here inside = elim (Option-cases t.main_coroutine) [
    | inl none_main ↦ ground arith
    | inr (main, is_main) ↦ ground arith
  ]

  -- A thread with a main coroutine, `main`, and a current one.
  abbrev pub IsSettled : ℕ → Thread World Task → Type 0
  IsSettled main t = (t.main_coroutine ≡ some main) × (is_set t.cur_coroutine ≡ true)

  -- What the program does to the variables of a thread, as steps.
  pub data Step (malloc : ℕ → World → Option ℕ × World) (coctx_swap : ℕ → ℕ → World → World)
      : Thread World Task → Thread World Task → Type 0 where
    current : (t : Thread World Task) → Step malloc coctx_swap t (get_current_coroutine t).1
    made :
        (size : ℕ) (registers : Coctx) (t t' : Thread World Task) (p : ℕ)
        → coroutine malloc size registers t ≡ some (p, t')
        → Step malloc coctx_swap t t'
    call_back_set :
        (entry p : ℕ) (cb : Option Task) (t t' : Thread World Task) (done : Bool)
        → set_call_back entry p cb t ≡ some (done, t')
        → Step malloc coctx_swap t t'
    resumed :
        (co : Option ℕ) (t : Thread World Task) → Step malloc coctx_swap t (resume coctx_swap co t)
    yielded :
        (t t' : Thread World Task)
        → yield_coroutine coctx_swap t ≡ some t'
        → Step malloc coctx_swap t t'

  pub data Steps (malloc : ℕ → World → Option ℕ × World) (coctx_swap : ℕ → ℕ → World → World)
      : Thread World Task → Thread World Task → Type 0 where
    stay : (t : Thread World Task) → Steps malloc coctx_swap t t
    step :
        (t t' t'' : Thread World Task)
        → Steps malloc coctx_swap t t'
        → Step malloc coctx_swap t' t''
        → Steps malloc coctx_swap t t''

  cur-ensure_main : (t : Thread World Task) → (ensure_main t).cur_coroutine ≡ t.cur_coroutine
  unfolding ensure_main main_object
  cur-ensure_main t = ground arith

  made_lem :
      (malloc : ℕ → World → Option ℕ × World) (size : ℕ) (registers : Coctx)
      (t t' : Thread World Task) (p : ℕ)
      → coroutine malloc size registers t ≡ some (p, t')
      → (t'.cur_coroutine ≡ t.cur_coroutine) × (t'.main_coroutine ≡ (ensure_main t).main_coroutine)
  unfolding coroutine
  made_lem malloc size registers t t' p eq = ground (arith, cur-ensure_main t)

  get_current_lem :
      (t : Thread World Task) (main : ℕ) → IsSettled main t → (get_current_coroutine t).1 ≡ t
  unfolding get_current_coroutine
  get_current_lem t main settled = ground arith

  ensure_main_lem :
      (t : Thread World Task) (main : ℕ) → t.main_coroutine ≡ some main → ensure_main t ≡ t
  unfolding ensure_main
  ensure_main_lem t main is_main = ground arith

  set_call_back_lem :
      (entry p : ℕ) (cb : Option Task) (t t' : Thread World Task) (done : Bool)
      → set_call_back entry p cb t ≡ some (done, t')
      → (t'.cur_coroutine ≡ t.cur_coroutine) × (t'.main_coroutine ≡ t.main_coroutine)
  unfolding set_call_back
  set_call_back_lem entry p cb t t' done eq = ground arith

  resume-IsSettled :
      (coctx_swap : ℕ → ℕ → World → World) (co : Option ℕ) (t : Thread World Task) (main : ℕ)
      → IsSettled main t
      → IsSettled main (resume coctx_swap co t)
  unfolding resume
  resume-IsSettled coctx_swap co t main settled = ground arith

  yield-IsSettled :
      (coctx_swap : ℕ → ℕ → World → World) (t t' : Thread World Task) (main : ℕ)
      → IsSettled main t
      → yield_coroutine coctx_swap t ≡ some t'
      → IsSettled main t'
  unfolding yield_coroutine
  yield-IsSettled coctx_swap t t' main settled eq = ground arith

  yield_current :
      (coctx_swap : ℕ → ℕ → World → World) (t t' : Thread World Task) (main : ℕ)
      → IsSettled main t
      → yield_coroutine coctx_swap t ≡ some t'
      → t'.cur_coroutine ≡ some main
  unfolding yield_coroutine same_pointer
  yield_current coctx_swap t t' main settled eq = ground arith

  yield_no_fault :
      (coctx_swap : ℕ → ℕ → World → World) (t : Thread World Task) (main : ℕ)
      → IsSettled main t
      → yield_coroutine coctx_swap t ≢ none
  unfolding yield_coroutine same_pointer
  yield_no_fault coctx_swap t main settled eq = ground arith

  yield_coroutine_defined :
      (coctx_swap : ℕ → ℕ → World → World) (t : Thread World Task) (main : ℕ)
      → IsSettled main t
      → (t' : Thread World Task) × (yield_coroutine coctx_swap t ≡ some t')
        × (t'.cur_coroutine ≡ some main)
  yield_coroutine_defined coctx_swap t main settled =
      elim (Option-cases (yield_coroutine coctx_swap t)) [
        | inl fault ↦ absurd (yield_no_fault coctx_swap t main settled fault)
        | inr (t', eq) ↦ (t', eq, yield_current coctx_swap t t' main settled eq)
      ]

  module _ {malloc : ℕ → World → Option ℕ × World} {coctx_swap : ℕ → ℕ → World → World} where
    kept_once :
        (main : ℕ) {t t' : Thread World Task}
        → Step malloc coctx_swap t t'
        → IsSettled main t
        → IsSettled main t'
    kept_once main (current t) h = subst (IsSettled main) (sym (get_current_lem t main h)) h
    kept_once main (made size registers t t' p eq) h =
        ground (arith, made_lem malloc size registers t t' p eq, ensure_main_lem t main h.0)
    kept_once main (call_back_set entry p cb t t' done eq) h =
        ground (arith, set_call_back_lem entry p cb t t' done eq)
    kept_once main (resumed co t) h = resume-IsSettled coctx_swap co t main h
    kept_once main (yielded t t' eq) h = yield-IsSettled coctx_swap t t' main h eq

    kept_throughout :
        (main : ℕ) {t t' : Thread World Task}
        → Steps malloc coctx_swap t t'
        → IsSettled main t
        → IsSettled main t'
    kept_throughout main (stay t) h = h
    kept_throughout main (step t t' t'' before last) h =
        kept_once main last (kept_throughout main before h)

    -- In a thread that has a main coroutine and a current one, through any number of calls of
    -- `GetCurrentCoroutine`, the constructor, `setCallBack`, `Resume` and `Yield` the main
    -- coroutine stays the same, and a `Yield` after them does not fault and makes it current.
    pub yield_coroutine_safe :
        (t t' : Thread World Task) (main : ℕ)
        → IsSettled main t
        → Steps malloc coctx_swap t t'
        → (t'.main_coroutine ≡ some main)
          × (t'' : Thread World Task) × (yield_coroutine coctx_swap t' ≡ some t'')
          × (t''.cur_coroutine ≡ some main)
    yield_coroutine_safe t t' main settled steps =
        let later = kept_throughout main steps settled in
        let (t'', eq, cur) = yield_coroutine_defined coctx_swap t' main later in
        (later.0, t'', eq, cur)

  -- In a thread that has made its first coroutine without `GetCurrentCoroutine` before, no
  -- coroutine is current although there is a main one: the thread is taken for a coroutine,
  -- `Resume` of any coroutine changes nothing, and `Yield` reads through the null pointer.
  pub resume_without_current :
      (malloc : ℕ → World → Option ℕ × World) (coctx_swap : ℕ → ℕ → World → World) (size : ℕ)
      (registers : Coctx) (t t' : Thread World Task) (p : ℕ) (co : Option ℕ)
      → t.cur_coroutine ≡ none
      → coroutine malloc size registers t ≡ some (p, t')
      → (is_main_coroutine t' ≡ false)
        × (resume coctx_swap co t' ≡ t')
        × (yield_coroutine coctx_swap t' ≡ none)
  unfolding resume yield_coroutine same_pointer is_main_coroutine ensure_main main_object
  resume_without_current malloc coctx_swap size registers t t' p co idle eq =
      ground (arith, made_lem malloc size registers t t' p eq)
