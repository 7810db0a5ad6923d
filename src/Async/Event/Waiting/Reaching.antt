-- ===== src/Async/Event/Waiting/Reaching.antt =====
-- Every state that an event and its coroutines reach.
use tiny_rpc.Prelude.{◌≡◌, ◌⊎◌, ◌↔◌, refl, sym, ap, ◌∙◌, arith, Bool, true, none, []}
use tiny_rpc.Async.Event.{Ptr, null, Store, this, head, initial_state}
use tiny_rpc.Async.Event.Chain.{Cells, has, first, Linked}
use tiny_rpc.Async.Event.Waiting.{
  Phase, running, loaded, linked, waiting, System, is_waiting, begin, pass, retry, Step, begins,
  passes, exchanges, retries, takes, resumes, resets, reuses, start, Steps, stay, then_step,
}
use tiny_rpc.Async.Event.Waiting.Accounts.{
  Accounts, write-Accounts, phase-Accounts, awake_out, real_of_some, reuses-Accounts,
}
use tiny_rpc.Async.Event.Waiting.Exchanging.{
  compare_exchange-Accounts, take-Accounts, resets-Accounts,
}

waiting_path : (f : Phase) → is_waiting f ≡ true → f ≡ waiting
waiting_path waiting e = refl
waiting_path f e = absurd (cc)

module _ {World : Type 0} where
  step-Accounts :
      {s t : System World} (cells : Cells)
      → Accounts s cells
      → Step s t
      → (cells' : Cells) × Accounts t cells'
  unfolding begin pass retry
  step-Accounts {s} cells v (begins p c a at holds) = (
    cells,
    write-Accounts s cells p _ (loaded s.event.state) v (awake_out s cells p running v at refl) refl
        (real_of_some s cells p a v holds) (cc) λ r e. absurd (cc),
  )
  step-Accounts {s} cells v (passes p this a at holds) =
      (cells, phase-Accounts s cells p running v (awake_out s cells p _ v at refl) refl λ w. cc)
  step-Accounts {s} cells v (passes p (head q) a at holds) = (
    cells,
    write-Accounts s cells p _ (linked (head q)) v (awake_out s cells p _ v at refl) refl
        (real_of_some s cells p a v holds) (cc) λ r e. cc,
  )
  step-Accounts {s} cells v (exchanges p w at) = compare_exchange-Accounts s cells p w v at
  step-Accounts {s} cells v (retries p w at) =
      (cells, phase-Accounts s cells p _ v (awake_out s cells p _ v at refl) refl λ w. cc)
  step-Accounts {s} cells v (takes taken_cells at links) =
      ([], take-Accounts s cells taken_cells v at links)
  step-Accounts {s} cells v (resumes p at) =
      (cells, phase-Accounts s cells p running v (awake_out s cells p _ v at refl) refl λ w. cc)
  step-Accounts {s} cells v resets = (cells, resets-Accounts s cells v)
  step-Accounts {s} cells v (reuses p cell real free) =
      (cells, reuses-Accounts s cells p cell v real free)

  start-Accounts :
      (initially_set : Bool) (store : Store) (world : World)
      → store null ≡ none
      → Accounts (start initially_set store world) []
  unfolding initial_state
  start-Accounts initially_set store world empty = record {
    links = tt;
    word = ground arith;
    phases = λ q. refl;
    ready = λ q r e. absurd (cc);
    loaded_event = λ q h. cc;
    no_null = empty;
  }

  Steps-Accounts :
      {s t : System World} (cells : Cells)
      → Accounts s cells
      → Steps s t
      → (cells' : Cells) × Accounts t cells'
  Steps-Accounts cells v stay = (cells, v)
  Steps-Accounts cells v (then_step steps last) =
      let (between, w) = Steps-Accounts cells v steps in step-Accounts between w last

  -- In every state that is reached from an event on which no coroutine waits yet, by any steps in
  -- any order of coroutines that begin to wait, retry or are resumed, and of others that set and
  -- reset the event or reuse the awaiters of coroutines that are not suspended: the coroutines that
  -- are suspended are exactly those in one list of distinct awaiters, linked to the null pointer;
  -- the word is the head of this list or, when it is the event itself, the list is empty. So no
  -- suspended coroutine is missed by the next set, and none is suspended while the event is set.
  pub suspended_listed :
      (initially_set : Bool) (store : Store) (world : World) (s : System World)
      → store null ≡ none
      → Steps (start initially_set store world) s
      → (cells : Cells) × Linked s.event.store cells
        × (((s.event.state ≡ this) × (cells ≡ [])) ⊎ (s.event.state ≡ head (first cells)))
        × ((q : Ptr) → (s.phase q ≡ waiting) ↔ (has q cells ≡ true))
  suspended_listed initially_set store world s empty steps =
      let (cells, v) = Steps-Accounts [] (start-Accounts initially_set store world empty) steps in
      (
        cells,
        v.links,
        v.word,
        λ q. (
          λ at. sym (v.phases q) ∙ ap is_waiting at,
          λ i. waiting_path (s.phase q) (v.phases q ∙ i),
        ),
      )
