-- ===== src/Net/TcpConnection/Tests.antt =====
-- Runs of a connection, a client and a server over a peer that is a list of bytes, and their
-- theorems at concrete inputs.
use tiny_rpc.Prelude.{
  ℕ, ◌<◌, ◌≡◌, ◌≤◌, refl, sym, ap, arith, true, false, List, [], ◌∷◌, ◌++◌, Option, none, some,
  length, take,
}
use tiny_rpc.Prelude.Int.{ℤ, pos, negsuc}
use tiny_rpc.Net.TcpBuffer.{TcpBuffer}
use tiny_rpc.Net.TcpBuffer.Safety.{IsValid, readable}
use tiny_rpc.Net.CoroutineHook.{Received, received}
use tiny_rpc.Net.TcpConnection.{
  TcpConnection, Transport, connected, closed, not_connected, server_connection, client_connection,
  input, output, freshen, main_server_loop,
}
use tiny_rpc.Net.TcpConnection.Input.{last, more, input_lem}
use tiny_rpc.Net.TcpConnection.Output.{IsOpenEnded, Delivers, output_lem}
use tiny_rpc.Net.TcpConnection.Closing.{main_server_loop_ends}
use tiny_rpc.Net.TcpClient.{TcpClient}

-- The chunks that the next reads give, and what has been sent.
abbrev Peer : Type 0
Peer = List (List ℕ) × List ℕ

abbrev read_peer : ℕ → ℕ → Peer → Option (Received × Peer)
read_peer fd n ([], out) = some (received [], ([], out))
read_peer fd n (chunk ∷ chunks, out) = some (received chunk, (chunks, out))

-- Two bytes at most are taken at once.
abbrev peer : Transport Peer
peer = record {
  read = read_peer;
  write = λ fd bytes p. some (pos (length (take 2 bytes)), (p.0, p.1 ++ take 2 bytes));
  stop_writing = λ fd p. p;
  unregister = λ fd p. some p;
  close_fd = λ fd p. p;
  shutdown_fd = λ fd p. p;
  lock = λ slot p. true;
  fresh = λ slot p. some p;
}

abbrev sent : Peer → List ℕ
sent p = p.1

take_two : (bytes : List ℕ) → take (length (take 2 bytes)) bytes ≡ take 2 bytes
take_two [] = refl
take_two (a ∷ []) = refl
take_two (a ∷ b ∷ bytes) = refl

two_within :
    (bytes : List ℕ)
    → 0 < length bytes
    → (0 < length (take 2 bytes)) × (length (take 2 bytes) ≤ length bytes)
two_within [] h = absurd (omega arith)
two_within (a ∷ []) h = (omega arith, omega arith)
two_within (a ∷ b ∷ bytes) h = (omega arith, omega arith)

peer-Delivers : Delivers peer sent
peer-Delivers = record {
  takes = λ fd bytes p h. (
    length (take 2 bytes),
    (p.0, p.1 ++ take 2 bytes),
    refl,
    (two_within bytes h).0,
    (two_within bytes h).1,
    ap (λ xs. p.1 ++ xs) (sym (take_two bytes)),
  );
  quiet = λ fd p. refl;
}

-- One byte is readable and three places are free; and three bytes to send.
abbrev in_buffer : TcpBuffer
in_buffer = record { read_index = 0; write_index = 1; buffer = 7 ∷ 0 ∷ 0 ∷ 0 ∷ [] }

abbrev out_buffer : TcpBuffer
out_buffer = record { read_index = 0; write_index = 3; buffer = 1 ∷ 2 ∷ 3 ∷ 0 ∷ [] }

in_buffer-IsValid : IsValid in_buffer
in_buffer-IsValid = record { ordered = omega arith; within = omega arith }

out_buffer-IsOpenEnded : IsOpenEnded out_buffer
out_buffer-IsOpenEnded = record {
  valid = record { ordered = omega arith; within = omega arith };
  free_end = omega arith;
}

abbrev server_conn : TcpConnection
server_conn = record {
  fd = 5;
  state = connected;
  conn_type = server_connection;
  read_buffer = in_buffer;
  write_buffer = out_buffer;
  stop_flag = false;
  weak_slot = some 1;
}

abbrev client_conn : TcpConnection
client_conn = record server_conn { conn_type = client_connection; weak_slot = none }

-- The first chunk fills the three places, and is lost; the second does not.
abbrev two_chunks : Peer
two_chunks = ((10 ∷ 11 ∷ 12 ∷ []) ∷ (13 ∷ []) ∷ [], [])

input_example :
    (b : TcpBuffer) × (input peer 2 server_conn two_chunks
      ≡ freshen peer (record server_conn { read_buffer = b }) ([], []))
    × IsValid b
    × (readable b ≡ 7 ∷ 13 ∷ [])
input_example =
    input_lem peer 1 2 server_conn two_chunks ((13 ∷ []) ∷ [], []) ([], []) (13 ∷ []) refl
      in_buffer-IsValid (omega arith)
      (more 0 two_chunks ((13 ∷ []) ∷ [], []) ((13 ∷ []) ∷ [], []) (10 ∷ 11 ∷ 12 ∷ []) refl refl
        (last ((13 ∷ []) ∷ [], [])))
      (omega arith) (omega arith) refl

output_example :
    (b : TcpBuffer) × (p : Peer) × (output peer 4 server_conn ([], [])
      ≡ some (record server_conn { write_buffer = b }, p))
    × IsOpenEnded b
    × (readable b ≡ [])
    × (sent p ≡ 1 ∷ 2 ∷ 3 ∷ [])
output_example =
    output_lem peer sent peer-Delivers 4 server_conn ([], []) refl out_buffer-IsOpenEnded
      (omega arith)

abbrev quiet_callback : TcpConnection → Peer → Option (TcpConnection × Peer)
quiet_callback c p = some (c, p)

main_server_loop_ends_example :
    (b : TcpBuffer) × (main_server_loop peer quiet_callback quiet_callback 1 2 server_conn ([], [])
      ≡ some (record server_conn { read_buffer = b; stop_flag = true; state = closed }, ([], [])))
main_server_loop_ends_example =
    main_server_loop_ends peer quiet_callback quiet_callback 0 0 server_conn ([], []) ([], [])
      ([], []) (λ c p is_closed. refl) (λ c p is_closed. refl) refl refl in_buffer-IsValid
      (omega arith) refl refl

-- A peer that answers each request with the same byte.
abbrev echo : Transport Peer
echo = record peer { read = λ fd n p. some (received (9 ∷ []), p) }

abbrev client : TcpClient
client = record { fd = 5; max_retry = 3; stop_flag = false; connection = client_conn }

abbrev refuse : ℕ → Peer → Option (ℤ × Peer)
refuse fd p = some (negsuc 0, p)

abbrev unconnected : TcpClient
unconnected = record client { connection = record client_conn { state = not_connected } }

-- A peer that notes each attempt by a byte.
abbrev note_refusal : ℕ → Peer → Option (ℤ × Peer)
note_refusal fd p = some (negsuc 0, (p.0, 0 ∷ p.1))
