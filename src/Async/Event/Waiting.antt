-- ===== src/Async/Event/Waiting.antt =====
-- async/event.cc and event.hpp: many coroutines that wait for an event at the same time, while
-- others set and reset it. A step is one access to the shared word by one of them, in any order.
-- A coroutine's own awaiter is the address that names it.
mod Links
mod Accounts
mod Exchanging
pub mod Reaching
use tiny_rpc.Prelude.{ℕ, ◌≡◌, ◌≢◌, ◌⊎◌, Bool, true, false, Option, none, some, ◌==◌, if◌then◌else◌}
use tiny_rpc.Async.Event.{
  Ptr, null, Awaiter, Store, write, Word, this, head, Event, initial_state, reset,
}
use tiny_rpc.Async.Event.Chain.{Cells, has, first, Linked}

-- Where a coroutine stands in `await_suspend`: it has not begun, it holds the old value of the
-- word, it has linked its awaiter before that value, it is suspended, or a `set` has taken it.
pub data Phase : Type 0 where
  running : Phase
  loaded : Word → Phase
  linked : Word → Phase
  waiting : Phase
  taken : Phase

pub record System (World : Type 0) : Type 0 where
  pub event : Event World
  pub phase : Ptr → Phase

abbrev pub is_waiting : Phase → Bool
is_waiting waiting = true
is_waiting _ = false

abbrev pub same_word : Word → Word → Bool
same_word this this = true
same_word this (head q) = false
same_word (head p) this = false
same_word (head p) (head q) = p == q

module _ {World : Type 0} where
  abbrev pub set_phase : Ptr → Phase → System World → System World
  set_phase p f s = record s { phase = λ q. if q == p then f else s.phase q }

  abbrev pub set_store : Store → System World → System World
  set_store store s = record s { event = record s.event { store = store } }

  -- The start of `await_suspend`: the coroutine is kept and the word is read.
  unfoldable pub begin : Ptr → ℕ → Awaiter → System World → System World
  begin p c a s =
      set_phase p (loaded s.event.state)
        (set_store (write s.event.store p (record a { awaiting_coroutine = c })) s)

  -- One pass of its loop with the old value: `false` is returned when that is the event itself.
  unfoldable pub pass : Ptr → Word → Awaiter → System World → System World
  pass p this a s = set_phase p running s
  pass p (head q) a s =
      set_phase p (linked (head q)) (set_store (write s.event.store p (record a { next = q })) s)

  -- The test of the loop, which may fail with no cause: the old value is read again.
  unfoldable pub retry : Ptr → System World → System World
  retry p s = set_phase p (loaded s.event.state) s

  unfoldable pub compare_exchange : Ptr → Word → System World → System World
  unfolding retry
  compare_exchange p w s =
      if same_word s.event.state w
      then set_phase p waiting (record s { event = record s.event { state = head p } })
      else retry p s

  -- The exchange of `set`, which takes the awaiters that the word leads through.
  pub take : Cells → System World → System World
  take cells s = record s {
    event = record s.event { state = this };
    phase = λ q. if has q cells then taken else s.phase q;
  }

  -- What one coroutine or thread does next. A coroutine that is not suspended may do anything to
  -- the awaiter in its own frame, and so may the `set` that has taken it.
  pub data Step (s : System World) : System World → Type 0 where
    begins :
        (p : Ptr) (c : ℕ) (a : Awaiter)
        → s.phase p ≡ running
        → s.event.store p ≡ some a
        → Step s (begin p c a s)
    passes :
        (p : Ptr) (w : Word) (a : Awaiter)
        → s.phase p ≡ loaded w
        → s.event.store p ≡ some a
        → Step s (pass p w a s)
    exchanges : (p : Ptr) (w : Word) → s.phase p ≡ linked w → Step s (compare_exchange p w s)
    retries : (p : Ptr) (w : Word) → s.phase p ≡ linked w → Step s (retry p s)
    takes :
        (cells : Cells)
        → s.event.state ≡ head (first cells)
        → Linked s.event.store cells
        → Step s (take cells s)
    resumes : (p : Ptr) → s.phase p ≡ taken → Step s (set_phase p running s)
    resets : Step s (record s { event = reset s.event })
    reuses :
        (p : Ptr) (cell : Option Awaiter)
        → p ≢ null
        → (s.phase p ≡ running) ⊎ (s.phase p ≡ taken)
        → Step s (set_store (λ q. if q == p then cell else s.event.store q) s)

  -- Before the first step no coroutine has begun to wait.
  abbrev pub start : Bool → Store → World → System World
  start initially_set store world = record {
    event = record { state = initial_state initially_set; store = store; outside = world };
    phase = λ p. running;
  }

  pub data Steps (s : System World) : System World → Type 0 where
    stay : Steps s s
    then_step : {t u : System World} → Steps s t → Step t u → Steps s u
