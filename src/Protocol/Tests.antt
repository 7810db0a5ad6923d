-- ===== src/Protocol/Tests.antt =====
-- Runs of the codec on concrete values, and its theorems at concrete inputs.
use tiny_rpc.Prelude.{ℕ, ◌≡◌, refl, arith, List, [], ◌∷◌, ◌++◌}
use mathlib.Core.List.{foldl}
use tiny_rpc.Protocol.Endian.{should_swap, promote, shift_right, swap16, swap32}
use tiny_rpc.Protocol.Endian.Memory.{
  little, big, store, load, big_bytes, little_bytes, little_value,
}
use tiny_rpc.Protocol.Stream.{good, bad, write, read}
use tiny_rpc.Protocol.Archive.{
  put_pod, get_pod, pod_archive, put_container, get_container, put_elements, container_archive,
  put_string, read_or_throw,
}
use tiny_rpc.Protocol.Archive.BuiltIn.{short, int, uint, swap, IsPortable}
use tiny_rpc.Protocol.Archive.Containers.{push_end}
use tiny_rpc.Protocol.Archive.Format.{container_bytes, pod_bytes}
use tiny_rpc.Protocol.Archive.Instances.{vector-Lawful, ContainerFits}
use tiny_rpc.Protocol.Archive.Primitive.{pod-Lawful}
use tiny_rpc.Protocol.Archive.RoundTrip.{
  written, get_pod-put_pod, put_pod_big_endian, get_vector-put_vector,
}
use tiny_rpc.Protocol.Archive.Throwing.{ok, malformed, ◌>>=◌}
use tiny_rpc.Protocol.Rpc.{call, for_each_put, for_each_get}
use tiny_rpc.Protocol.Rpc.Exchange.{LawfulField, fields, procedure, exchange, call_truncated}

-- An int goes out with its highest byte first.
put_int : put_pod little int 0x01020304 (good []) ≡ good (1 ∷ 2 ∷ 3 ∷ 4 ∷ [])
unfolding put_pod write store little_bytes swap swap32 swap16 should_swap promote shift_right
put_int = refl

-- The short 200 is read back as 0xffc8, which is -56.
get_short_200 : get_pod little short 0 (put_pod little short 200 (good [])) ≡ ok 0xffc8 (good [])
unfolding get_pod read_or_throw read put_pod write store load little_bytes little_value swap swap16
    should_swap promote shift_right
get_short_200 = refl

get_pod-put_pod_example :
    get_pod big int 7 (good (written (put_pod little int 0x01020304) ++ (9 ∷ [])))
    ≡ ok 0x01020304 (good (9 ∷ []))
get_pod-put_pod_example = get_pod-put_pod little big int 0x01020304 7 (9 ∷ []) (omega arith)

put_pod_big_endian_example :
    put_pod little uint 0x01020304 (good (9 ∷ [])) ≡ write (good (9 ∷ [])) (big_bytes 4 0x01020304)
put_pod_big_endian_example = put_pod_big_endian little uint 0x01020304 (good (9 ∷ [])) (omega arith)

get_vector-put_vector_example :
    get_container big
      (pod_archive big int)
      push_end
      (1 ∷ [])
      (good (written (put_container little (pod_archive little int) (2 ∷ 3 ∷ [])) ++ (5 ∷ [])))
    ≡ ok (1 ∷ 2 ∷ 3 ∷ []) (good (5 ∷ []))
get_vector-put_vector_example =
    get_vector-put_vector (pod-Lawful little big int) little big (2 ∷ 3 ∷ []) (1 ∷ []) (5 ∷ [])
      (omega arith) (omega arith)

two_ints :
    written (put_container little (pod_archive little int) (2 ∷ 3 ∷ []))
    ≡ (0 ∷ 0 ∷ 0 ∷ 2 ∷ 0 ∷ []) ++ (0 ∷ 0 ∷ 2 ∷ 0 ∷ 0 ∷ 0 ∷ 3 ∷ [])
unfolding put_container put_elements put_pod write store little_bytes swap swap32 swap16 should_swap
    promote shift_right
two_ints = refl

one_char : written (put_string little (b'h' ∷ [])) ≡ (0 ∷ 0 ∷ []) ++ (0 ∷ 1 ∷ b'h' ∷ [])
unfolding put_string put_pod write store little_bytes swap swap32 swap16 should_swap promote
    shift_right
one_char = refl

-- A struct with an int and a vector of ints, and a procedure on it.
record Query : Type 0 where
  user_id : ℕ
  class_id : List ℕ

abbrev user_id_field : LawfulField Query
user_id_field = record {
  field = record {
    Value = ℕ;
    name = "user_id";
    load = λ q. q.user_id;
    store = λ q v. record q { user_id = v };
    archive = λ h. pod_archive h int;
  };
  bytes = pod_bytes int;
  Fits = IsPortable int;
  merge = λ old v. v;
  law = λ from to. pod-Lawful from to int;
}

abbrev class_id_field : LawfulField Query
class_id_field = record {
  field = record {
    Value = List ℕ;
    name = "class_id";
    load = λ q. q.class_id;
    store = λ q v. record q { class_id = v };
    archive = λ h. container_archive h (pod_archive h int) push_end;
  };
  bytes = container_bytes (pod_bytes int);
  Fits = ContainerFits (pod-Lawful little big int) little big (λ vs. Unit {0});
  merge = foldl push_end;
  law = λ from to. vector-Lawful (pod-Lawful from to int) from to;
}

abbrev query_fields : List (LawfulField Query)
query_fields = user_id_field ∷ class_id_field ∷ []

abbrev no_query : Query
no_query = record { user_id = 0; class_id = [] }

abbrev query : Query
query = record { user_id = 42; class_id = 7 ∷ 8 ∷ [] }

-- The handler gives the next user's number.
abbrev next_user : Query → Query
next_user q = record q { user_id = 43 }

exchange_example :
    (call big (procedure query_fields query_fields no_query next_user) >>= λ u.
    for_each_get little (fields query_fields) no_query)
      (good (written (for_each_put little (fields query_fields) query)))
    ≡ ok (next_user query) (good [])
unfolding push_end
exchange_example =
    exchange query_fields query_fields no_query next_user little big query no_query (omega arith)
      refl (omega arith) refl

cut_request :
    written (for_each_put little (fields query_fields) query)
    ≡ (0 ∷ 0 ∷ 0 ∷ 42 ∷ 0 ∷ 0 ∷ 0 ∷ []) ++ (2 ∷ 0 ∷ 0 ∷ 0 ∷ 7 ∷ 0 ∷ 0 ∷ 0 ∷ 8 ∷ [])
unfolding for_each_put put_container put_elements put_pod write store little_bytes swap swap32
    swap16 should_swap promote shift_right
cut_request = refl

call_truncated_example :
    call big
      (procedure query_fields query_fields no_query next_user)
      (good (0 ∷ 0 ∷ 0 ∷ 42 ∷ 0 ∷ 0 ∷ 0 ∷ []))
    ≡ malformed bad
call_truncated_example =
    call_truncated query_fields query_fields no_query next_user little big query
      (0 ∷ 0 ∷ 0 ∷ 42 ∷ 0 ∷ 0 ∷ 0 ∷ []) (0 ∷ 0 ∷ 0 ∷ 7 ∷ 0 ∷ 0 ∷ 0 ∷ 8 ∷ []) 2 (omega arith)
      cut_request
