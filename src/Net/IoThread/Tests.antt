-- ===== src/Net/IoThread/Tests.antt =====
-- Runs of a thread with two clients and of a server with two threads, and their theorems at
-- concrete inputs.
use tiny_rpc.Prelude.{
  ℕ, suc, ◌+◌, ◌<◌, ◌≡◌, refl, arith, true, false, List, [], ◌∷◌, Option, none, some, length,
  replicate, ◌==◌, if◌then◌else◌, inl,
}
use tiny_rpc.Prelude.Int.{ℤ, pos, negsuc}
use tiny_rpc.Common.Coroutine.{Thread, Coroutine, set_call_back, same_pointer, is_main_coroutine}
use tiny_rpc.Common.Coroutine.Pool.{CoroutinePool, is_free, find_free, get_coroutine_instanse}
use tiny_rpc.Net.Reactor.{Reactor, add_task, wakeup}
use tiny_rpc.Net.TimeWheel.{Wheel, holds}
use tiny_rpc.Net.TimeWheel.Expiry.{ticks}
use tiny_rpc.Net.CoroutineHook.{NetThread, Calls, received, read_hook}
use tiny_rpc.Net.TcpConnection.{
  TcpConnection, Transport, connected, closed, server_connection, server_side,
  register_to_time_wheel, input,
}
use tiny_rpc.Net.TcpConnection.Hooked.{Served, hooked, input-ticks}
use tiny_rpc.Net.IoThread.{
  IoThread, add_client, add_new, new_connection, find_client, put_client, main_loop_timer_func,
  is_dead,
}
use tiny_rpc.Net.IoThread.Sweeping.{without_closed, main_loop_timer_func_lem}
use tiny_rpc.Net.TcpServer.{TcpServer, inet, accept_rounds}
use tiny_rpc.Net.TcpServer.Accepting.{HasOneMore, accept_rounds_spread}

-- Two slots are held by the wheel.
abbrev outside : Served (Unit {0})
outside = record { outside = tt; wheel = (1 ∷ []) ∷ (2 ∷ []) ∷ [] }

abbrev reactor : Reactor (Served (Unit {0})) ℕ
reactor = record {
  wake_fd = 3;
  tid = 1;
  stop_flag = false;
  looping = true;
  fds = 3 ∷ [];
  pending_add_fds = [];
  pending_del_fds = [];
  pending_tasks = [];
  wakeups = 0;
  fd_events = λ p. record { fd = 5; read_cb = none; write_cb = none; listen_events = 0 };
  world = outside;
}

abbrev coroutine_at : ℕ → Coroutine ℕ
coroutine_at id = record {
  cor_id = id;
  coctx = replicate 14 0;
  stack_size = 1024;
  stack_sp = some 4096;
  is_in_cofunc = false;
  call_back = none;
}

-- The main coroutine, 9, runs.
abbrev cors : Thread (Unit {0}) ℕ
cors = record {
  main_coroutine = some 9;
  cur_coroutine = some 9;
  coroutine_count = 4;
  cur_coroutine_id = 4;
  coroutines = coroutine_at;
  next_address = 10;
  world = tt;
}

abbrev net : NetThread (Served (Unit {0})) ℕ
net = record { reactor = reactor; cors = cors }

abbrev calls : Calls (Served (Unit {0}))
calls = record {
  epoll_ctl = λ op fd event w. (true, w);
  get_flags = λ fd w. 0;
  set_flags = λ fd flags w. w;
  sys_read = λ fd n w. (received (4 ∷ []), w);
  sys_write = λ fd bytes w. (pos 1, w);
  sys_accept = λ fd w. (negsuc 0, w);
}

abbrev event_of : ℕ → ℕ
event_of fd = 100 + fd

abbrev resume_task : ℕ → ℕ
resume_task cor = 1000 + cor

abbrev loop_task : ℕ → ℕ
loop_task conn = 2000 + conn

abbrev no_one : NetThread (Served (Unit {0})) ℕ → Option (NetThread (Served (Unit {0})) ℕ)
no_one s = none

abbrev leave : ℕ → Served (Unit {0}) → Served (Unit {0})
leave fd w = w

-- Connection 0 has the slot 1; the connection 1 is closed.
abbrev conn_at : ℕ → TcpConnection
conn_at k = record {
  fd = 5 + k;
  state = if k == 1 then closed else connected;
  conn_type = server_connection;
  read_buffer = record { read_index = 0; write_index = 1; buffer = 7 ∷ 0 ∷ 0 ∷ 0 ∷ [] };
  write_buffer = record { read_index = 0; write_index = 0; buffer = 0 ∷ 0 ∷ [] };
  stop_flag = false;
  weak_slot = some 1;
}

abbrev io_thread : IoThread (Served (Unit {0})) ℕ
io_thread = record {
  net = net;
  pool = record {
    index = 1;
    pool_size = 4;
    stack_size = 1024;
    free_cors = (none, false) ∷ (some 1, true) ∷ (some 2, true) ∷ (some 3, false) ∷ [];
  };
  clients = (5, some 0) ∷ (6, some 1) ∷ [];
  conns = conn_at;
  loop_coroutine = λ conn. suc conn;
  next_conn = 2;
  next_slot = 3;
}

abbrev malloc : ℕ → Unit {0} → Option ℕ × Unit {0}
malloc size w = (some 4096, w)

abbrev transport : Transport (NetThread (Served (Unit {0})) ℕ)
transport = record {
  read = λ fd n s. none;
  write = λ fd bytes s. none;
  stop_writing = λ fd s. s;
  unregister = λ fd s. some s;
  close_fd = λ fd s. s;
  shutdown_fd = λ fd s. s;
  lock = λ slot s. true;
  fresh = λ slot s. some s;
}

abbrev with_client : IoThread (Served (Unit {0})) ℕ
with_client = elim (add_client transport malloc [] 77 loop_task resume_task 7 io_thread) [
  | none ↦ io_thread
  | some added ↦ added.1
]

client_added :
    add_client transport malloc [] 77 loop_task resume_task 7 io_thread ≡ some (true, with_client)
unfolding add_client add_new new_connection find_client put_client get_coroutine_instanse find_free
    is_free set_call_back same_pointer register_to_time_wheel add_task wakeup server_side
client_added = refl

main_loop_timer_func_example :
    (pool : CoroutinePool) × (main_loop_timer_func io_thread
      ≡ some (record io_thread {
        pool = pool;
        clients = without_closed conn_at ((5, some 0) ∷ (6, some 1) ∷ []);
      }))
    × (length pool.free_cors ≡ 4)
main_loop_timer_func_example = main_loop_timer_func_lem io_thread (omega arith, (omega arith, tt))

only_open_left :
    without_closed conn_at ((5, some 0) ∷ (6, some 1) ∷ []) ≡ (5, some 0) ∷ (6, none) ∷ []
unfolding is_dead
only_open_left = refl

input-ticks_example :
    (c : TcpConnection) × (s : NetThread (Served (Unit {0})) ℕ) × (gone : List ℕ) × (w : Wheel)
    × (input (hooked calls 1 event_of resume_task no_one leave leave) 1 (conn_at 0) net
        ≡ some (c, s))
    × (ticks 1 s.reactor.world.wheel ≡ some (gone, w))
    × (holds w 1 ≡ true)
unfolding hooked read_hook is_main_coroutine same_pointer
input-ticks_example =
    input-ticks calls 1 event_of resume_task no_one leave leave 1 0 1 (conn_at 0) net net (4 ∷ [])
      refl (record { ordered = omega arith; within = omega arith }) refl refl (omega arith)
      (omega arith) refl refl (omega arith)

-- A server with two threads, to which a client with the descriptor 8 comes again and again.
abbrev server : TcpServer (Served (Unit {0})) ℕ ℕ
server = record {
  family = inet;
  listen_fd = 4;
  peer_addr = none;
  tcp_counts = 0;
  io_pool = record { size = 2; index = negsuc 0 };
  reactors = λ i. reactor;
}

abbrev accept_eight : ℕ → Unit {0} → Option ((ℤ × ℕ) × Unit {0})
accept_eight fd s = some ((pos 8, 127), s)

abbrev client_task : ℕ → ℤ → ℕ
client_task i fd = 3000 + i

accept_rounds_spread_example :
    (v : TcpServer (Served (Unit {0})) ℕ ℕ) × (s : Unit {0}) × (accept_rounds accept_eight
        (λ fd s. s)
        (λ s. none)
        client_task
        2
        server
        tt
      ≡ some (v, s))
    × (v.tcp_counts ≡ 2)
    × ((j : ℕ)
        → j < 2
        → HasOneMore accept_eight (λ fd s. s) (λ s. none) client_task j reactor (v.reactors j))
accept_rounds_spread_example =
    accept_rounds_spread accept_eight (λ fd s. s) (λ s. none) client_task 1 server tt
      (λ s. (8, 127, s, refl)) refl refl (inl refl)
