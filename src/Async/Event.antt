-- ===== src/Async/Event.antt =====
-- async/event.hpp and async/event.cc: an event that coroutines wait for. Its state word is the
-- event itself when it is set, and else the head of the list of the awaiters, linked by `next_`.
-- Awaiters lie in a store under their addresses. The resumption of a coroutine, by itself or by
-- an executor, is a parameter: it may change all there is.
pub mod Chain
pub mod Setting
pub mod Waiting
use tiny_rpc.Prelude.{
  ℕ, zero, suc, Bool, true, false, Option, none, some, List, [], ◌∷◌, ◌++◌, ◌==◌, if◌then◌else◌,
}

abbrev pub Ptr : Type 0
Ptr = ℕ

abbrev pub null : Ptr
null = 0

pub record Awaiter : Type 0 where
  pub awaiting_coroutine : ℕ
  pub next : Ptr

abbrev pub Store : Type 0
Store = Ptr → Option Awaiter

unfoldable pub write : Store → Ptr → Awaiter → Store
write store p a q = if q == p then some a else store q

-- What `state_` can hold: the address of the event, or that of an awaiter.
pub data Word : Type 0 where
  this : Word
  head : Ptr → Word

pub record Event (World : Type 0) : Type 0 where
  pub state : Word
  pub store : Store
  pub outside : World

pub data ResumeOrderPolicy : Type 0 where
  lifo : ResumeOrderPolicy
  fifo : ResumeOrderPolicy

-- A use of an address that holds no awaiter is a fault.
pub data Outcome (A : Type 0) : Type 0 where
  done : A → Outcome A
  fault : Outcome A
  out_of_fuel : Outcome A

unfoldable pub initial_state : Bool → Word
initial_state initially_set = if initially_set then this else head null

unfoldable pub is_set : Word → Bool
is_set this = true
is_set (head p) = false

-- The loop of `reverse`.
reverse_loop : ℕ → Store → Ptr → Ptr → Outcome (Store × Ptr)
reverse_loop zero store prev cur = out_of_fuel
reverse_loop (suc fuel) store prev cur =
    if cur == null then done (store, prev) else elim (store cur) [
      | none ↦ fault
      | some a ↦ reverse_loop fuel (write store cur (record a { next = prev })) cur a.next
    ]

reverse : ℕ → Store → Ptr → Outcome (Store × Ptr)
reverse fuel store cur = if cur == null then done (store, cur) else elim (store cur) [
  | none ↦ fault
  | some a ↦ if a.next == null then done (store, cur) else reverse_loop fuel store null cur
]

-- The store and the head that `set` goes through: turned round for `fifo`.
ordered : ResumeOrderPolicy → ℕ → Store → Ptr → Outcome (Store × Ptr)
ordered lifo fuel store p = done (store, p)
ordered fifo fuel store p = reverse fuel store p

module _ {World : Type 0} where
  unfoldable pub reset : Event World → Event World
  reset e = if is_set e.state then record e { state = head null } else e

  module _ (resume : ℕ → Event World → Event World) where
    -- The loop of `set`. `called` lists the coroutines that it has resumed, in this order.
    resume_loop : ℕ → Event World → Ptr → List ℕ → Outcome (List ℕ × Event World)
    resume_loop zero e waiters called = out_of_fuel
    resume_loop (suc fuel) e waiters called =
        if waiters == null then done (called, e) else elim (e.store waiters) [
          | none ↦ fault
          | some a ↦
              resume_loop fuel (resume a.awaiting_coroutine e) a.next
                (called ++ a.awaiting_coroutine ∷ [])
        ]

    -- `set` once the old value is taken from the word.
    set_from : ResumeOrderPolicy → ℕ → Event World → Word → Outcome (List ℕ × Event World)
    set_from policy fuel e this = done ([], e)
    set_from policy fuel e (head p) = elim (ordered policy fuel e.store p) [
      | done (store, waiters) ↦ resume_loop fuel (record e { store = store }) waiters []
      | fault ↦ fault
      | out_of_fuel ↦ out_of_fuel
    ]

    pub set : ResumeOrderPolicy → ℕ → Event World → Outcome (List ℕ × Event World)
    set policy fuel e = set_from policy fuel (record e { state = this }) e.state
