-- ===== src/Net/Reactor/Looping.antt =====
-- net/reactor.cc, Reactor::loop: its rounds until the stop flag is set. `others` is what the other
-- threads do to the reactor in each round, after the loop has taken up the changes.
use tiny_rpc.Prelude.{
  ℕ, ◌≡◌, ap, ap₂, ◌∙◌, arith, Bool, true, false, List, [], ◌∷◌, ◌++◌, Option, none, some, ◌==◌,
  if◌then◌else◌,
}
use tiny_rpc.Net.Reactor.{Reactor, Operation, EpollEvent, round, stop, wakeup}

-- How the loop stands: it has returned, a round has faulted, or it is still going.
pub data Looping (World Task : Type 0) : Type 0 where
  returned : Reactor World Task → Looping World Task
  fault : Looping World Task
  going : Reactor World Task → Looping World Task

-- `looping_` at the end.
abbrev pub leave : {World Task : Type 0} → Looping World Task → Looping World Task
leave (returned r) = returned (record r { looping = false })
leave fault = fault
leave (going r) = going r

module _ {World Task : Type 0}
    (epoll_ctl : Operation → ℕ → Option EpollEvent → World → Bool × World)
    (run : Task → Reactor World Task → Option (Reactor World Task)) (fuel : ℕ)
    (wait : World → Option (List EpollEvent) × World) where
  loop_rounds :
      List (Reactor World Task → Reactor World Task) → Reactor World Task → Looping World Task
  loop_rounds [] r = if r.stop_flag then returned r else going r
  loop_rounds (act ∷ others) r = elim (r.stop_flag) [
    | true ↦ returned r
    | false ↦ elim (round epoll_ctl run fuel wait r) [
      | none ↦ fault
      | some r' ↦ loop_rounds others (act r')
    ]
  ]

  -- `caller` is the result of `gettid` in the calling thread.
  pub loop :
      ℕ → List (Reactor World Task → Reactor World Task) → Reactor World Task → Looping World Task
  loop caller others r =
      if r.tid == caller
      then (if r.looping
          then returned r
          else leave (loop_rounds others (record r { looping = true; stop_flag = false })))
      else fault

  -- The rounds that some others take part in go on, without a stop, from one reactor to another.
  pub data Rounds
      : List (Reactor World Task → Reactor World Task)
        → Reactor World Task
        → Reactor World Task
        → Type 0 where
    nothing : {r : Reactor World Task} → Rounds [] r r
    then_round :
        {act : Reactor World Task → Reactor World Task}
        {others : List (Reactor World Task → Reactor World Task)} {r r' s : Reactor World Task}
        → r.stop_flag ≡ false
        → round epoll_ctl run fuel wait r ≡ some r'
        → Rounds others (act r') s
        → Rounds (act ∷ others) r s

  stop_set : (r : Reactor World Task) → r.looping ≡ true → (stop r).stop_flag ≡ true
  unfolding stop wakeup
  stop_set r on = ground (arith, on)

  loop_rounds-returned :
      (others : List (Reactor World Task → Reactor World Task)) (r : Reactor World Task)
      → r.stop_flag ≡ true
      → loop_rounds others r ≡ returned r
  unfolding loop_rounds
  loop_rounds-returned [] r off = ground arith
  loop_rounds-returned (act ∷ others) r off = ground arith

  loop_rounds-round :
      (act : Reactor World Task → Reactor World Task)
      (others : List (Reactor World Task → Reactor World Task)) (r r' : Reactor World Task)
      → r.stop_flag ≡ false
      → round epoll_ctl run fuel wait r ≡ some r'
      → loop_rounds (act ∷ others) r ≡ loop_rounds others (act r')
  unfolding loop_rounds
  loop_rounds-round act others r r' on made = ground arith

  Rounds-stop :
      (before after : List (Reactor World Task → Reactor World Task)) (r s s' : Reactor World Task)
      → Rounds before r s
      → s.stop_flag ≡ false
      → round epoll_ctl run fuel wait s ≡ some s'
      → s'.looping ≡ true
      → loop_rounds (before ++ stop ∷ after) r ≡ returned (stop s')
  Rounds-stop [] after r s s' nothing on last looping =
      loop_rounds-round stop after r s' on last
      ∙ loop_rounds-returned after (stop s') (stop_set s' looping)
  Rounds-stop (act ∷ before) after r s s' (then_round {r'} on' made rounds) on last looping =
      loop_rounds-round act (before ++ stop ∷ after) r r' on' made
      ∙ Rounds-stop before after (act r') s s' rounds on last looping

  -- A loop that is called in the reactor's own thread, and not from within itself, goes on through
  -- any rounds that neither fault nor find the stop flag set, whatever other threads do in them;
  -- when another thread then calls stop in a round that does not fault, and the reactor is still
  -- looping, the loop returns after this round, however others would go on, and is not looping any
  -- more. Called from within itself it returns at once and changes nothing.
  pub loop_lem :
      (caller : ℕ) (before after : List (Reactor World Task → Reactor World Task))
      (r s s' : Reactor World Task)
      → r.tid ≡ caller
      → Rounds before (record r { looping = true; stop_flag = false }) s
      → s.stop_flag ≡ false
      → round epoll_ctl run fuel wait s ≡ some s'
      → s'.looping ≡ true
      → (r.looping ≡ false
          → loop caller (before ++ stop ∷ after) r
            ≡ returned (record (stop s') { looping = false }))
        × (r.looping ≡ true → loop caller (before ++ stop ∷ after) r ≡ returned r)
  unfolding loop
  loop_lem caller before after r s s' own rounds on last looping =
      let begun : Reactor World Task = record r { looping = true; stop_flag = false } in
      let ends = Rounds-stop before after begun s s' rounds on last looping in
      let own' : (r.tid == caller) ≡ true = ground (arith, own) in
      let branch = λ (mine : Bool) (within : Bool).
        if mine
        then (if within then returned r else leave (loop_rounds (before ++ stop ∷ after) begun))
        else fault in
      (λ idle. ap₂ branch own' idle ∙ ap leave ends, λ within. ap₂ branch own' within)
