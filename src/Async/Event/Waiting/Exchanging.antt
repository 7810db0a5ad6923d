-- ===== src/Async/Event/Waiting/Exchanging.antt =====
-- The moves that change the list of an event: a suspension, a set and a reset.
use tiny_rpc.Prelude.{
  ◌≡◌, inl, inr, refl, sym, ap, ◌∙◌, arith, true, false, some, [], ◌∷◌, ◌==◌, if◌then◌else◌,
  Bool-cases,
}
use tiny_rpc.Async.Event.{Ptr, null, Awaiter, Word, this, head, reset, is_set}
use tiny_rpc.Async.Event.Chain.{Cells, has, first, awaiter, Linked}
use tiny_rpc.Async.Event.Waiting.{
  loaded, linked, waiting, taken, System, is_waiting, same_word, set_phase, compare_exchange, take,
}
use tiny_rpc.Async.Event.Waiting.Links.{word_head, Linked-unique, next_of-some}
use tiny_rpc.Async.Event.Waiting.Accounts.{
  Accounts, phase-Accounts, awake_out, real_of_some, word_first,
}

module _ {World : Type 0} where
  pub suspend-Accounts :
      (s : System World) (cells : Cells) (p : Ptr) (a : Awaiter)
      → Accounts s cells
      → has p cells ≡ false
      → s.event.store p ≡ some a
      → a.next ≡ first cells
      → Accounts
          (set_phase p waiting (record s { event = record s.event { state = head p } }))
          ((p, a.awaiting_coroutine) ∷ cells)
  suspend-Accounts s cells p a v out holds next = record {
    links = (
      real_of_some s cells p a v holds,
      holds ∙ ap (λ r. some (awaiter a.awaiting_coroutine r)) next,
      out,
      v.links,
    );
    word = inr refl;
    phases = λ q. elim (Bool-cases (q == p)) [ inl e ↦ rw e refl | inr e ↦ rw e (v.phases q) ];
    ready = λ q r e. ground (arith, v.ready q r);
    loaded_event = λ q h. ground (arith, v.loaded_event q);
    no_null = v.no_null;
  }

  pub compare_exchange-Accounts :
      (s : System World) (cells : Cells) (p : Ptr) (w : Word)
      → Accounts s cells
      → s.phase p ≡ linked w
      → (cells' : Cells) × Accounts (compare_exchange p w s) cells'
  unfolding compare_exchange
  compare_exchange-Accounts s cells p this v at = absurd (v.loaded_event p at)
  compare_exchange-Accounts s cells p (head r) v at =
      let out : has p cells ≡ false = awake_out s cells p (linked (head r)) v at refl in
      elim (Bool-cases (same_word s.event.state (head r))) [
        | inl same ↦
            let (a, holds, next) = next_of-some (s.event.store p) r (v.ready p r at) in
            (
              (p, a.awaiting_coroutine) ∷ cells,
              rw same (
                  suspend-Accounts s cells p a v out holds
                    (next ∙ word_first s cells r v (word_head s.event.state r same))),
            )
        | inr other ↦
            (cells, rw other (phase-Accounts s cells p (loaded s.event.state) v out refl λ w. cc))
      ]

  pub reset_word :
      (s : System World) (cells : Cells)
      → Accounts s cells
      → is_set s.event.state ≡ true
      → head null ≡ head (first cells)
  unfolding is_set
  reset_word s cells v e = elim v.word [
    | inl (set, empty) ↦ ap (λ xs. head (first xs)) (sym empty)
    | inr unset ↦ absurd (cc (ap is_set unset))
  ]

  pub resets-Accounts :
      (s : System World) (cells : Cells)
      → Accounts s cells
      → Accounts (record s { event = reset s.event }) cells
  unfolding reset is_set
  resets-Accounts s cells v = elim (Bool-cases (is_set s.event.state)) [
    | inl e ↦ rw e (record {
      links = v.links;
      word = inr (reset_word s cells v e);
      phases = v.phases;
      ready = v.ready;
      loaded_event = v.loaded_event;
      no_null = v.no_null;
    })
    | inr e ↦ rw e v
  ]

  pub take_phases :
      (s : System World) (cells taken_cells : Cells)
      → Accounts s cells
      → s.event.state ≡ head (first taken_cells)
      → Linked s.event.store taken_cells
      → (q : Ptr) → is_waiting (if has q taken_cells then taken else s.phase q) ≡ false
  take_phases s cells taken_cells v at links q =
      let same =
        Linked-unique s.event.store taken_cells cells links v.links
          (word_first s cells (first taken_cells) v at) q in
      elim (Bool-cases (has q taken_cells)) [
        | inl e ↦ rw e refl
        | inr e ↦ rw e (v.phases q ∙ sym same ∙ e)
      ]

  pub take-Accounts :
      (s : System World) (cells taken_cells : Cells)
      → Accounts s cells
      → s.event.state ≡ head (first taken_cells)
      → Linked s.event.store taken_cells
      → Accounts (take taken_cells s) []
  unfolding take
  take-Accounts s cells taken_cells v at links = record {
    links = tt;
    word = inl (refl, refl);
    phases = λ q. take_phases s cells taken_cells v at links q;
    ready = λ q r e. ground (arith, v.ready q r);
    loaded_event = λ q h. ground (arith, v.loaded_event q);
    no_null = v.no_null;
  }
