-- ===== src/Async/Event/Waiting/Accounts.antt =====
-- The invariant of the coroutines that wait for an event, and the moves that leave its list.
use tiny_rpc.Prelude.{
  ◌≡◌, ◌≢◌, ◌⊎◌, inl, inr, refl, sym, ap, ◌∙◌, arith, false, Option, none, some, [], ◌==◌,
  if◌then◌else◌, Bool-cases,
}
use tiny_rpc.Async.Event.{Ptr, null, Awaiter, write, Word, this, head}
use tiny_rpc.Async.Event.Chain.{Cells, has, first, Linked, frame, frame-write}
use tiny_rpc.Async.Event.Waiting.{
  Phase, running, linked, taken, System, is_waiting, set_phase, set_store,
}
use tiny_rpc.Async.Event.Waiting.Links.{head_path, next_of}

module _ {World : Type 0} where
  -- `cells` are the suspended awaiters, as the word leads through them.
  pub record Accounts (s : System World) (cells : Cells) : Type 0 where
    pub links : Linked s.event.store cells
    pub word : ((s.event.state ≡ this) × (cells ≡ [])) ⊎ (s.event.state ≡ head (first cells))
    pub phases : (q : Ptr) → is_waiting (s.phase q) ≡ has q cells
    pub ready : (q r : Ptr) → s.phase q ≡ linked (head r) → next_of (s.event.store q) ≡ some r
    pub loaded_event : (q : Ptr) → s.phase q ≢ linked this
    pub no_null : s.event.store null ≡ none

  -- Writing to an awaiter that is not suspended.
  pub write-Accounts :
      (s : System World) (cells : Cells) (p : Ptr) (a : Awaiter) (f : Phase)
      → Accounts s cells
      → has p cells ≡ false
      → is_waiting f ≡ false
      → p ≢ null
      → f ≢ linked this
      → ((r : Ptr) → f ≡ linked (head r) → a.next ≡ r)
      → Accounts (set_phase p f (set_store (write s.event.store p a) s)) cells
  unfolding write
  write-Accounts s cells p a f v out awake real unset links = record {
    links = frame-write s.event.store cells p a v.links out;
    word = v.word;
    phases = λ q. elim (Bool-cases (q == p)) [
      | inl e ↦ rw e (ground (arith, v.phases q))
      | inr e ↦ rw e (v.phases q)
    ];
    ready = λ q r e. ground (arith, v.ready q r, links r);
    loaded_event = λ q h. ground (arith, v.loaded_event q);
    no_null = ground (arith, v.no_null);
  }

  pub word_first :
      (s : System World) (cells : Cells) (r : Ptr)
      → Accounts s cells
      → s.event.state ≡ head r
      → r ≡ first cells
  word_first s cells r v e = elim v.word [
    | inl (set, empty) ↦ absurd (cc)
    | inr unset ↦ head_path (sym e ∙ unset)
  ]

  -- Moving a coroutine that is not suspended, and does not come to be.
  pub phase-Accounts :
      (s : System World) (cells : Cells) (p : Ptr) (f : Phase)
      → Accounts s cells
      → has p cells ≡ false
      → is_waiting f ≡ false
      → ((w : Word) → f ≢ linked w)
      → Accounts (set_phase p f s) cells
  phase-Accounts s cells p f v out awake unlinked = record {
    links = v.links;
    word = v.word;
    phases = λ q. elim (Bool-cases (q == p)) [
      | inl e ↦ rw e (ground (arith, v.phases q))
      | inr e ↦ rw e (v.phases q)
    ];
    ready = λ q r e. ground (arith, v.ready q r, unlinked (head r));
    loaded_event = λ q h. ground (arith, v.loaded_event q, unlinked this);
    no_null = v.no_null;
  }

  pub awake_out :
      (s : System World) (cells : Cells) (p : Ptr) (f : Phase)
      → Accounts s cells
      → s.phase p ≡ f
      → is_waiting f ≡ false
      → has p cells ≡ false
  awake_out s cells p f v at awake = sym (v.phases p) ∙ ap is_waiting at ∙ awake

  pub real_of_some :
      (s : System World) (cells : Cells) (p : Ptr) (a : Awaiter)
      → Accounts s cells
      → s.event.store p ≡ some a
      → p ≢ null
  real_of_some s cells p a v holds e = ground (arith, v.no_null, ap s.event.store e)

  pub reuses-Accounts :
      (s : System World) (cells : Cells) (p : Ptr) (cell : Option Awaiter)
      → Accounts s cells
      → p ≢ null
      → (s.phase p ≡ running) ⊎ (s.phase p ≡ taken)
      → Accounts (set_store (λ q. if q == p then cell else s.event.store q) s) cells
  reuses-Accounts s cells p cell v real free =
      let out : has p cells ≡ false = elim free [
        | inl at ↦ awake_out s cells p running v at refl
        | inr at ↦ awake_out s cells p taken v at refl
      ] in
      record {
        links = frame s.event.store _ cells v.links λ q i. ground arith;
        word = v.word;
        phases = v.phases;
        ready = λ q r e. ground (arith, v.ready q r e);
        loaded_event = v.loaded_event;
        no_null = ground (arith, v.no_null);
      }
