-- ===== src/Common/Coroutine.antt =====
-- common/coroutine/coroutine.h and coroutine.cc: the coroutines of a thread and the switches
-- between them. Coroutine objects live in a store under their addresses, which the allocator
-- gives by rising numbers; the null pointer is `none`. The call of `coctx_swap` is a parameter,
-- which gets the two addresses; the calls of the allocator for a stack are too. `none` is a
-- failed assertion, a call of an empty function, or a use of the null pointer.
pub mod Switching
pub mod Pool
use tiny_rpc.Prelude.{
  ℕ, suc, ◌+◌, ◌-◌, ◌%◌, Bool, true, false, List, [], ◌∷◌, Option, none, some, set, replicate, ◌==◌,
  if◌then◌else◌,
}
use tiny_rpc.Prelude.Maybe.{◌>>=◌, ◌>>◌, require}

-- `coctx`: the fourteen registers.
abbrev pub Coctx : Type 0
Coctx = List ℕ

abbrev pub reg_rbp : ℕ
reg_rbp = 6

abbrev pub reg_rdi : ℕ
reg_rdi = 7

abbrev pub reg_ret_addr : ℕ
reg_ret_addr = 9

abbrev pub reg_rsp : ℕ
reg_rsp = 13

pub record Coroutine (Task : Type 0) : Type 0 where
  pub cor_id : ℕ
  pub coctx : Coctx
  pub stack_size : ℕ
  pub stack_sp : Option ℕ
  pub is_in_cofunc : Bool
  pub call_back : Option Task

-- The variables of a thread, its coroutines, and what is outside.
pub record Thread (World Task : Type 0) : Type 0 where
  pub main_coroutine : Option ℕ
  pub cur_coroutine : Option ℕ
  pub coroutine_count : ℕ
  pub cur_coroutine_id : ℕ
  pub coroutines : ℕ → Coroutine Task
  pub next_address : ℕ
  pub world : World

-- Whether two pointers are the same.
unfoldable pub same_pointer : Option ℕ → Option ℕ → Bool
same_pointer none none = true
same_pointer none (some q) = false
same_pointer (some p) none = false
same_pointer (some p) (some q) = p == q

-- The registers that `setCallBack` gives; `co_function` is the address of CoFunction.
abbrev pub first_registers : ℕ → ℕ → ℕ → Coctx
first_registers co_function top p =
    set (set (set (set (replicate 14 0) reg_rsp top) reg_rbp top) reg_ret_addr co_function) reg_rdi
      p

module _ {World Task : Type 0} where
  abbrev pub set_coroutine : ℕ → Coroutine Task → Thread World Task → Thread World Task
  set_coroutine p c t = record t { coroutines = λ q. if p == q then c else t.coroutines q }

  unfoldable pub get_coroutine_index : Thread World Task → ℕ
  get_coroutine_index t = t.cur_coroutine_id

  -- A new object: its address, and the thread with the counters moved on.
  abbrev pub new_object : Coroutine Task → Thread World Task → ℕ × Thread World Task
  new_object c t = (
    t.next_address,
    record (set_coroutine t.next_address c t) {
      coroutine_count = suc t.coroutine_count;
      cur_coroutine_id = suc t.cur_coroutine_id;
      next_address = suc t.next_address;
    },
  )

  -- `Coroutine()`.
  unfoldable pub main_object : Thread World Task → ℕ × Thread World Task
  main_object t =
      new_object
        (record {
          cor_id = t.cur_coroutine_id;
          coctx = replicate 14 0;
          stack_size = 0;
          stack_sp = none;
          is_in_cofunc = false;
          call_back = none;
        })
        t

  unfoldable pub ensure_main : Thread World Task → Thread World Task
  ensure_main t = elim t.main_coroutine [
    | none ↦ let made = main_object t in record made.1 { main_coroutine = some made.0 }
    | some p ↦ t
  ]

  module _ (malloc : ℕ → World → Option ℕ × World) where
    -- `Coroutine(int size)`. Its registers are not set.
    unfoldable pub coroutine : ℕ → Coctx → Thread World Task → Option (ℕ × Thread World Task)
    coroutine size registers t =
        let t' = ensure_main t in
        let stack = malloc size t'.world in
        let t'' : Thread World Task = record t' { world = stack.1 } in
        elim stack.0 [
          | none ↦ none
          | some sp ↦ some (
              new_object
                (record {
                  cor_id = t''.cur_coroutine_id;
                  coctx = registers;
                  stack_size = size;
                  stack_sp = some sp;
                  is_in_cofunc = false;
                  call_back = none;
                })
                t'')
        ]

  unfoldable pub set_call_back :
      ℕ → ℕ → Option Task → Thread World Task → Option (Bool × Thread World Task)
  set_call_back co_function p cb t =
      let c = t.coroutines p in
      let started = do
        sp ← c.stack_sp
        let top = sp + c.stack_size
        some (
          true,
          set_coroutine p
              (record c { call_back = cb; coctx = first_registers co_function (top - top % 16) p })
              t,
        )
      in if same_pointer (some p) t.main_coroutine
        then some (false, t)
        else if c.is_in_cofunc
        then some (false, t)
        else started

  unfoldable pub get_current_coroutine : Thread World Task → ℕ × Thread World Task
  get_current_coroutine t = elim t.cur_coroutine [
    | some p ↦ (p, t)
    | none ↦
        let made = main_object t in
        (made.0, record made.1 { main_coroutine = some made.0; cur_coroutine = some made.0 })
  ]

  unfoldable pub is_main_coroutine : Thread World Task → Bool
  is_main_coroutine t = elim t.main_coroutine [
    | none ↦ true
    | some p ↦ same_pointer t.cur_coroutine (some p)
  ]

  module _ (coctx_swap : ℕ → ℕ → World → World) where
    unfoldable pub yield_coroutine : Thread World Task → Option (Thread World Task)
    yield_coroutine t = elim t.main_coroutine [
      | none ↦ some t
      | some main ↦
          let switched = do
            co ← t.cur_coroutine
            some (record t { cur_coroutine = some main; world = coctx_swap co main t.world })
          in if same_pointer t.cur_coroutine (some main) then some t else switched
    ]

    unfoldable pub resume : Option ℕ → Thread World Task → Thread World Task
    resume co t =
        if same_pointer t.cur_coroutine t.main_coroutine
        then elim t.main_coroutine [
          | none ↦ t
          | some main ↦ elim co [
            | none ↦ t
            | some p ↦ record t { cur_coroutine = some p; world = coctx_swap main p t.world }
          ]
        ]
        else t

    -- `CoFunction`, to the switch at its end: `run` is the call of the callback.
    unfoldable pub co_function :
        (Task → Thread World Task → Option (Thread World Task))
        → ℕ
        → Thread World Task
        → Option (Thread World Task)
    co_function run p t = do
      let entered = set_coroutine p (record (t.coroutines p) { is_in_cofunc = true }) t
      call ← (entered.coroutines p).call_back
      returned ← run call entered
      yield_coroutine
          (set_coroutine p (record (returned.coroutines p) { is_in_cofunc = false }) returned)
