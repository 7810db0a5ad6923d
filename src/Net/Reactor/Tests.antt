-- ===== src/Net/Reactor/Tests.antt =====
-- Runs of the reactor on concrete values, and its theorems at concrete inputs. The kernel is a list
-- of the descriptors that it watches.
use tiny_rpc.Prelude.{
  ℕ, ◌≡◌, refl, ap, sym, arith, Bool, true, false, not, ◌&&◌, List, [], ◌∷◌, ◌++◌, Option, none,
  some, ◌==◌, if◌then◌else◌,
}
use tiny_rpc.Net.FdEvent.{fd_event}
use tiny_rpc.Net.Reactor.{
  Reactor, EpollEvent, Operation, ctl_add, ctl_mod, ctl_del, contains, take_changes, run_tasks,
  round, stop,
}
use tiny_rpc.Net.Reactor.Watching.{EpollLaws, IsMirror, contains-append}
use tiny_rpc.Net.Reactor.Changes.{take_changes-IsMirror}
use tiny_rpc.Net.Reactor.Looping.{loop, returned, nothing, loop_lem}
use tiny_rpc.Net.Reactor.Running.{KeepsTasks, in_order, run_tasks_lem}

abbrev without : List ℕ → ℕ → List ℕ
without [] fd = []
without (x ∷ xs) fd = if x == fd then without xs fd else x ∷ without xs fd

abbrev kernel : Operation → ℕ → Option EpollEvent → List ℕ → Bool × List ℕ
kernel ctl_add fd event w = if contains w fd then (false, w) else (true, w ++ fd ∷ [])
kernel ctl_mod fd event w = (contains w fd, w)
kernel ctl_del fd event w = (contains w fd, without w fd)

contains-without :
    (w : List ℕ) (fd x : ℕ) → contains (without w fd) x ≡ (not (fd == x) && contains w x)
contains-without [] fd x = ground arith
contains-without (y ∷ w) fd x = ground (arith, contains-without w fd x)

kernel_laws : EpollLaws kernel contains
kernel_laws = record {
  adds = λ fd x event w. ground (arith, contains-append w (fd ∷ []) x);
  modifies = λ fd x event w. refl;
  removes = λ fd x event w e. contains-without w fd x;
}

-- A task is the descriptor that it puts into the world.
abbrev reactor : Reactor (List ℕ) ℕ
reactor = record {
  wake_fd = 3;
  tid = 100;
  stop_flag = false;
  looping = true;
  fds = 3 ∷ 8 ∷ [];
  pending_add_fds = (9, record { events = 1; user_data = 640 }) ∷ [];
  pending_del_fds = 8 ∷ [];
  pending_tasks = some 5 ∷ some 6 ∷ [];
  wakeups = 0;
  fd_events = fd_event;
  world = 3 ∷ 8 ∷ [];
}

abbrev readable_event : EpollEvent
readable_event = record { events = 1; user_data = 512 }

abbrev writable_event : EpollEvent
writable_event = record { events = 4; user_data = 512 }

reactor-IsMirror : IsMirror kernel contains reactor
reactor-IsMirror = record { same = λ x. refl; once = (refl, (refl, tt)) }

take_changes-IsMirror_example :
    (r' : Reactor (List ℕ) ℕ) × (take_changes kernel reactor ≡ some r')
    × IsMirror kernel contains r'
    × ((fd : ℕ) → contains (8 ∷ []) fd ≡ true → contains r'.world fd ≡ false)
take_changes-IsMirror_example =
    take_changes-IsMirror kernel contains kernel_laws reactor reactor-IsMirror (refl, tt) (refl, tt)

unfoldable note : ℕ → Reactor (List ℕ) ℕ → Option (Reactor (List ℕ) ℕ)
note fd r = some (record r { world = fd ∷ r.world })

note-KeepsTasks : KeepsTasks kernel note
unfolding note
note-KeepsTasks t s s' e =
    let same : record s { world = t ∷ s.world } ≡ s' = cc in
    ap (λ (r : Reactor (List ℕ) ℕ). r.pending_tasks) (sym same)

run_tasks_example :
    run_tasks kernel note 3 0 reactor ≡ in_order kernel note (some 5 ∷ some 6 ∷ []) reactor
run_tasks_example = run_tasks_lem kernel note 3 reactor note-KeepsTasks (omega arith)

-- The tasks of the reactor have run, and nothing was reported.
abbrev noting : ℕ → Reactor (List ℕ) ℕ → Option (Reactor (List ℕ) ℕ)
noting t r = some (record r { world = r.world ++ t ∷ [] })

abbrev nothing_found : List ℕ → Option (List EpollEvent) × List ℕ
nothing_found w = (none, w)

abbrev idle_reactor : Reactor (List ℕ) ℕ
idle_reactor = record reactor { looping = false }

abbrev after_tasks : Reactor (List ℕ) ℕ
after_tasks = record reactor { pending_tasks = []; world = 3 ∷ 8 ∷ 5 ∷ 6 ∷ [] }

after_tasks-round : round kernel noting 3 nothing_found reactor ≡ some after_tasks
unfolding round run_tasks
after_tasks-round = refl

loop_lem_example :
    (false ≡ false
      → loop kernel noting 3 nothing_found 100 (stop ∷ []) idle_reactor
        ≡ returned (record (stop after_tasks) { looping = false }))
    × (false ≡ true
        → loop kernel noting 3 nothing_found 100 (stop ∷ []) idle_reactor ≡ returned idle_reactor)
loop_lem_example =
    loop_lem kernel noting 3 nothing_found 100 [] [] idle_reactor reactor after_tasks refl nothing
      refl after_tasks-round refl
