-- ===== src/Protocol/Archive/RoundTrip.antt =====
-- Writing and reading back, for every type that protocol/archive.hpp serializes.
use tiny_rpc.Prelude.{ℕ, ◌<◌, ◌^◌, ◌≡◌, ◌≢◌, ap, sym, ◌∙◌, List, [], ◌∷◌, ◌++◌, length, All, Bool}
use mathlib.Core.List.{foldl}
use native.Mathlib.Nat.{le_refl}
use tiny_rpc.Protocol.Endian.Memory.{Host}
use tiny_rpc.Protocol.Stream.{Stream, good, bad, write, write-good}
use tiny_rpc.Protocol.Archive.{
  Archive, put_pod, get_pod, put_container, get_container, put_array, get_array, put_string,
  get_string, read_chunks,
}
use tiny_rpc.Protocol.Archive.BuiltIn.{Pod, uint, IsPortable}
use tiny_rpc.Protocol.Archive.Containers.{
  push_end, insert_unique, insert_equal, IsAscending, IsNondescending, foldl-push_end,
  foldl-insert_unique, foldl-insert_equal,
}
use tiny_rpc.Protocol.Archive.Format.{
  Lawful, Writes, Reads, pod_bytes, container_bytes, string_bytes,
}
use tiny_rpc.Protocol.Archive.Primitive.{put_pod-Writes, get_pod-Reads, get_pod-ne-stuck}
use tiny_rpc.Protocol.Archive.Sequence.{
  put_container-Writes, get_container-Reads, get_container-Throws, put_array-Writes,
  get_array-Reads, merge_each,
}
use tiny_rpc.Protocol.Archive.Text.{
  put_string-Writes, get_string-Reads, get_string-Throws, read_chunks-ne-stuck,
}
use tiny_rpc.Protocol.Archive.Throwing.{ok, malformed, stuck, Reader, >>=-ne-stuck}

-- What a writer leaves in a fresh stream.
abbrev pub written : (Stream → Stream) → List ℕ
written put = (put (good [])).unread

written-Writes {ℓ} :
    {A : Type ℓ} (put : A → Stream → Stream) (bytes : A → List ℕ) (v : A)
    → Writes put bytes v
    → written (put v) ≡ bytes v
written-Writes put bytes v h = ap (λ (s : Stream). s.unread) (h (good []) ∙ write-good [] (bytes v))

-- A writer and a reader of the same bytes undo one another.
trip {ℓ} :
    {A : Type ℓ} (put : A → Stream → Stream) (get : Reader A) (bytes : A → List ℕ) (v w : A)
    → Writes put bytes v
    → Reads get (bytes v) w
    → (rest : List ℕ) → get (good (written (put v) ++ rest)) ≡ ok w (good rest)
trip put get bytes v w hw hr rest = rw (written-Writes put bytes v hw) (hr rest)

-- A number of a built-in type whose pattern can be turned round comes back from the wire, whatever
-- the byte orders of the two machines, whatever the object held, and whatever follows on the wire.
pub get_pod-put_pod :
    (from to : Host) (p : Pod) (v old : ℕ) (rest : List ℕ)
    → IsPortable p v
    → get_pod to p old (good (written (put_pod from p v) ++ rest)) ≡ ok v (good rest)
get_pod-put_pod from to p v old rest f =
    trip (put_pod from p) (get_pod to p old) (pod_bytes p) v v (put_pod-Writes from p v f)
      (get_pod-Reads to p v old f) rest

-- Both kinds of machine put the same bytes of a portable pattern on the wire, with the highest byte
-- first, behind what the stream holds.
pub put_pod_big_endian :
    (h : Host) (p : Pod) (v : ℕ) (s : Stream)
    → IsPortable p v
    → put_pod h p v s ≡ write s (pod_bytes p v)
put_pod_big_endian h p v s f = put_pod-Writes h p v f s

-- A text of less than 2 ^ 32 bytes comes back, and replaces the old text.
pub get_string-put_string :
    (from to : Host) (v old rest : List ℕ)
    → length v < 2 ^ 32
    → get_string to old (good (written (put_string from v) ++ rest)) ≡ ok v (good rest)
get_string-put_string from to v old rest f =
    trip (put_string from) (get_string to old) string_bytes v v (put_string-Writes from v f)
      (get_string-Reads to v old f) rest

module _ {ℓ} {A : Type ℓ} {out inn : Archive A} {bytes : A → List ℕ} {Fits : A → Type 0}
    {merge : A → A → A} (law : Lawful out inn bytes Fits merge) (from to : Host) where
  container_trip :
      (insert : List A → A → List A) (vs old : List A) (more : List ℕ)
      → All Fits vs
      → length vs < 2 ^ 32
      → get_container to inn insert old (good (written (put_container from out vs) ++ more))
        ≡ ok (foldl insert old vs) (good more)
  container_trip insert vs old more f n =
      trip (put_container from out) (get_container to inn insert old) (container_bytes bytes) vs
        (foldl insert old vs) (put_container-Writes law from vs f n)
        (get_container-Reads law to insert vs old f n) more

  -- If the element type keeps to the wire format, the elements fit it and are fewer than 2 ^ 32, a
  -- vector, deque or list comes back, behind the elements that the object held.
  pub get_vector-put_vector :
      (vs old : List A) (rest : List ℕ)
      → All Fits vs
      → length vs < 2 ^ 32
      → get_container to inn push_end old (good (written (put_container from out vs) ++ rest))
        ≡ ok (old ++ vs) (good rest)
  get_vector-put_vector vs old rest f n =
      container_trip push_end vs old rest f n ∙ ap (λ t. ok t (good rest)) (foldl-push_end vs old)

  -- On the same conditions a set or map whose elements are in the strict order of its comparison
  -- comes back into an empty one.
  pub get_set-put_set :
      (less : A → A → Bool) (vs : List A) (rest : List ℕ)
      → All Fits vs
      → length vs < 2 ^ 32
      → IsAscending less vs
      → get_container to inn
          (insert_unique less)
          []
          (good (written (put_container from out vs) ++ rest))
        ≡ ok vs (good rest)
  get_set-put_set less vs rest f n asc =
      container_trip (insert_unique less) vs [] rest f n
      ∙ ap (λ t. ok t (good rest)) (foldl-insert_unique less vs asc)

  -- On the same conditions a multiset or multimap, in which no element is less than an earlier one,
  -- comes back into an empty one.
  pub get_multiset-put_multiset :
      (less : A → A → Bool) (vs : List A) (rest : List ℕ)
      → All Fits vs
      → length vs < 2 ^ 32
      → IsNondescending less vs
      → get_container to inn
          (insert_equal less)
          []
          (good (written (put_container from out vs) ++ rest))
        ≡ ok vs (good rest)
  get_multiset-put_multiset less vs rest f n asc =
      container_trip (insert_equal less) vs [] rest f n
      ∙ ap (λ t. ok t (good rest)) (foldl-insert_equal less vs asc)

  -- On the same conditions an array is read into an array of the same length, each element into the
  -- element at its place.
  pub get_array-put_array :
      (vs olds : List A) (rest : List ℕ)
      → All Fits vs
      → length vs < 2 ^ 32
      → length olds ≡ length vs
      → get_array to inn olds (good (written (put_array from out vs) ++ rest))
        ≡ ok (merge_each law olds vs) (good rest)
  get_array-put_array vs olds rest f n e =
      trip (put_array from out) (get_array to inn olds) (container_bytes bytes) vs
        (merge_each law olds vs) (put_array-Writes law from vs f n)
        (get_array-Reads law to vs olds f n e) rest

  -- On the same conditions a container's message that is cut short anywhere is refused, whatever
  -- the object holds.
  pub get_container_truncated :
      (insert : List A → A → List A) (vs old : List A) (front back : List ℕ) (x : ℕ)
      → All Fits vs
      → length vs < 2 ^ 32
      → written (put_container from out vs) ≡ front ++ (x ∷ back)
      → get_container to inn insert old (good front) ≡ malformed bad
  get_container_truncated insert vs old front back x f n e =
      get_container-Throws law to insert vs old f n front back x (
        sym (
          written-Writes (put_container from out) (container_bytes bytes) vs
            (put_container-Writes law from vs f n))
        ∙ e)

-- The message of a text of less than 2 ^ 32 bytes that is cut short anywhere is refused.
pub get_string_truncated :
    (from to : Host) (v old front back : List ℕ) (x : ℕ)
    → length v < 2 ^ 32
    → written (put_string from v) ≡ front ++ (x ∷ back)
    → get_string to old (good front) ≡ malformed bad
get_string_truncated from to v old front back x f e =
    get_string-Throws to v old f front back x
      (sym (written-Writes (put_string from) string_bytes v (put_string-Writes from v f)) ∙ e)

-- On every stream, well formed or not, the reading loop of a text ends.
pub get_string-ne-stuck : (h : Host) (old : List ℕ) (s : Stream) → get_string h old s ≢ stuck
unfolding get_string
get_string-ne-stuck h old s =
    >>=-ne-stuck (get_pod h uint 0) (λ len. read_chunks len len []) s (get_pod-ne-stuck h uint 0 s)
      (λ len s'. read_chunks-ne-stuck len len [] s' (le_refl len))
