-- ===== src/Net/Reactor.antt =====
-- net/reactor.h and net/reactor.cc: the descriptors that a reactor watches, the changes and tasks
-- that other threads leave for it, and a round of its loop. FdEvent objects live in a store under
-- their addresses. What is outside the process is a `World`, and the calls of `epoll_ctl` and of
-- a task are parameters. `none` is a fault: an `erase` at the end of a vector, a call of an empty
-- function, or a task that faults.
pub mod Watching
pub mod Changes
pub mod Running
pub mod Listening
pub mod Looping
mod Tests
use tiny_rpc.Prelude.{
  ℕ, zero, suc, ◌+◌, ◌-◌, ◌%◌, ◌^◌, Bool, true, false, not, ◌&&◌, ◌||◌, List, [], ◌∷◌, ◌++◌, Option,
  none, some, ltb, ◌==◌, if◌then◌else◌, get_elem?, bit_and,
}
use tiny_rpc.Prelude.Maybe.{◌>>=◌, ◌>>◌, require}
use tiny_rpc.Net.FdEvent.{FdEvent, read_event, write_event, get_callback}

pub record EpollEvent : Type 0 where
  pub events : ℕ
  -- The union: a pointer, or in its lower half a descriptor.
  pub user_data : ℕ

pub data Operation : Type 0 where
  ctl_add ctl_mod ctl_del : Operation

pub record Reactor (World Task : Type 0) : Type 0 where
  pub wake_fd : ℕ
  pub tid : ℕ
  pub stop_flag : Bool
  pub looping : Bool
  pub fds : List ℕ
  pub pending_add_fds : List (ℕ × EpollEvent)
  pub pending_del_fds : List ℕ
  pub pending_tasks : List (Option Task)
  -- The counter of the wake descriptor.
  pub wakeups : ℕ
  pub fd_events : ℕ → FdEvent Task
  pub world : World

-- The pattern of -1.
abbrev pub invalid_fd : ℕ
invalid_fd = 2 ^ 32 - 1

abbrev pub contains : List ℕ → ℕ → Bool
contains [] fd = false
contains (x ∷ xs) fd = x == fd || contains xs fd

-- `fds_.erase(it)` at the first place of the descriptor.
unfoldable pub erase_fd : List ℕ → ℕ → List ℕ
erase_fd [] fd = []
erase_fd (x ∷ xs) fd = if x == fd then xs else x ∷ erase_fd xs fd

-- `map::insert`: by rising keys, and a key that is there keeps its value.
unfoldable pub insert_event : ℕ → EpollEvent → List (ℕ × EpollEvent) → List (ℕ × EpollEvent)
insert_event fd event [] = (fd, event) ∷ []
insert_event fd event ((f, e) ∷ m) =
    if fd == f
    then (f, e) ∷ m
    else if ltb fd f
    then (fd, event) ∷ (f, e) ∷ m
    else (f, e) ∷ insert_event fd event m

module _ {World Task : Type 0} where
  unfoldable pub wakeup : Reactor World Task → Reactor World Task
  wakeup r = if r.looping then record r { wakeups = suc r.wakeups } else r

  abbrev pub wakeup_if : Bool → Reactor World Task → Reactor World Task
  wakeup_if is_wakeup r = if is_wakeup then wakeup r else r

  unfoldable pub add_task : Option Task → Bool → Reactor World Task → Reactor World Task
  add_task task is_wakeup r =
      wakeup_if is_wakeup (record r { pending_tasks = r.pending_tasks ++ task ∷ [] })

  unfoldable pub add_tasks : List (Option Task) → Bool → Reactor World Task → Reactor World Task
  add_tasks [] is_wakeup r = r
  add_tasks (task ∷ tasks) is_wakeup r =
      wakeup_if is_wakeup (record r { pending_tasks = r.pending_tasks ++ task ∷ tasks })

  unfoldable pub stop : Reactor World Task → Reactor World Task
  stop r = if not r.stop_flag && r.looping then wakeup (record r { stop_flag = true }) else r

  -- The body of one round's event handling that reaches a callback.
  unfoldable pub push_callbacks : ℕ → FdEvent Task → Reactor World Task → Reactor World Task
  push_callbacks events f r =
      let for_read =
        if bit_and events read_event == 0 then [] else get_callback read_event f ∷ [] in
      let for_write =
        if bit_and events write_event == 0 then [] else get_callback write_event f ∷ [] in
      record r { pending_tasks = (r.pending_tasks ++ for_read) ++ for_write }

  module _ (epoll_ctl : Operation → ℕ → Option EpollEvent → World → Bool × World) where
    unfoldable pub add_event_in_loop_thread :
        ℕ → EpollEvent → Reactor World Task → Reactor World Task
    add_event_in_loop_thread fd event r =
        let is_add = not (contains r.fds fd) in
        let op = if is_add then ctl_add else ctl_mod in
        let done = epoll_ctl op fd (some event) r.world in
        let fds' = if done.0 && is_add then r.fds ++ fd ∷ [] else r.fds in
        record r { fds = fds'; world = done.1 }

    unfoldable pub del_event_in_loop_thread : ℕ → Reactor World Task → Option (Reactor World Task)
    del_event_in_loop_thread fd r = do
      require (contains r.fds fd)
      some (record r { fds = erase_fd r.fds fd; world = (epoll_ctl ctl_del fd none r.world).1 })

    -- `caller` is the result of `gettid` in the calling thread.
    unfoldable pub add_event : ℕ → ℕ → EpollEvent → Bool → Reactor World Task → Reactor World Task
    add_event caller fd event is_wakeup r =
        if fd == invalid_fd
        then r
        else if r.tid == caller
        then add_event_in_loop_thread fd event r
        else wakeup_if is_wakeup
            (record r { pending_add_fds = insert_event fd event r.pending_add_fds })

    unfoldable pub del_event : ℕ → ℕ → Bool → Reactor World Task → Option (Reactor World Task)
    del_event caller fd is_wakeup r =
        if fd == invalid_fd
        then some r
        else if r.tid == caller
        then del_event_in_loop_thread fd r
        else some
            (wakeup_if is_wakeup (record r { pending_del_fds = r.pending_del_fds ++ fd ∷ [] }))

    -- One of the events that `epoll_wait` returned.
    unfoldable pub handle_one : EpollEvent → Reactor World Task → Option (Reactor World Task)
    handle_one e r =
        let f = r.fd_events e.user_data in
        if e.user_data % 2 ^ 32 == r.wake_fd && not (bit_and e.events read_event == 0)
        then some (record r { wakeups = 0 })
        else if e.user_data == 0
        then some r
        else if bit_and e.events read_event == 0 && bit_and e.events write_event == 0
        then del_event_in_loop_thread f.fd r
        else some (push_callbacks e.events f r)

    unfoldable pub handle_all : List EpollEvent → Reactor World Task → Option (Reactor World Task)
    handle_all [] r = some r
    handle_all (e ∷ es) r = do r' ← handle_one e r; handle_all es r'

    unfoldable pub add_all : List (ℕ × EpollEvent) → Reactor World Task → Reactor World Task
    add_all [] r = r
    add_all ((fd, event) ∷ m) r = add_all m (add_event_in_loop_thread fd event r)

    unfoldable pub del_all : List ℕ → Reactor World Task → Option (Reactor World Task)
    del_all [] r = some r
    del_all (fd ∷ fds) r = do r' ← del_event_in_loop_thread fd r; del_all fds r'

    -- The changes that other threads left: additions first, then removals.
    unfoldable pub take_changes : Reactor World Task → Option (Reactor World Task)
    take_changes r =
        del_all r.pending_del_fds
          (add_all r.pending_add_fds (record r { pending_add_fds = []; pending_del_fds = [] }))

    module _ (run : Task → Reactor World Task → Option (Reactor World Task)) where
      -- The task at the loop's index, and the rest of the loop; at the end the vector is cleared.
      abbrev pub run_one :
          Option (Option Task)
          → (Reactor World Task → Option (Reactor World Task))
          → Reactor World Task
          → Option (Reactor World Task)
      run_one none rest r = some (record r { pending_tasks = [] })
      run_one (some none) rest r = none
      run_one (some (some task)) rest r = run task r >>= rest

      -- The loop over the tasks reads the vector's size again each time, so that a task that is
      -- added meanwhile runs too; the fuel bounds how many run.
      unfoldable pub run_tasks : ℕ → ℕ → Reactor World Task → Option (Reactor World Task)
      run_tasks zero i r = none
      run_tasks (suc fuel) i r = run_one (get_elem? r.pending_tasks i) (run_tasks fuel (suc i)) r

      -- A round: `wait` is what `epoll_wait` returns, `none` for an error.
      unfoldable pub round :
          ℕ
          → (World → Option (List EpollEvent) × World)
          → Reactor World Task
          → Option (Reactor World Task)
      round fuel wait r = do
        r' ← run_tasks fuel 0 r
        let (found, world') = wait r'.world
        let r'' : Reactor World Task = record r' { world = world' }
        elim found [ none ↦ some r'' | some es ↦ do r3 ← handle_all es r''; take_changes r3 ]
