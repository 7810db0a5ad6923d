-- ===== src/Protocol/Archive/Text.antt =====
-- protocol/archive.hpp: std::string, written whole and read in rounds of at most 4096 bytes.
use tiny_rpc.Prelude.{
  ℕ, zero, suc, ◌-◌, ◌^◌, ◌<◌, ◌≤◌, ◌≡◌, refl, ap, sym, subst, ◌∙◌, arith, List, [], ◌∷◌, ◌++◌,
  length, take, drop, min, Bool-cases, ◌==◌, inl, inr, append_assoc, append-nil, length-take,
  length-drop, take-append-drop, take_all, ==_iff, ◌≢◌,
}
use tiny_rpc.Protocol.Endian.Memory.{Host, big_bytes}
use tiny_rpc.Protocol.Stream.{good, write-write, Stream}
use tiny_rpc.Protocol.Archive.{get_pod, put_string, get_string, read_chunks, read_or_throw}
use tiny_rpc.Protocol.Archive.BuiltIn.{uint}
use tiny_rpc.Protocol.Archive.Format.{Writes, Reads, Throws, Reads-bind, Throws-bind, string_bytes}
use tiny_rpc.Protocol.Archive.Primitive.{
  put_pod-Writes, get_pod-Reads, get_pod-Throws, read_or_throw-Reads, read_or_throw-Throws,
  read_or_throw-ne-stuck,
}
use tiny_rpc.Protocol.Archive.Sequence.{mod_small}
use tiny_rpc.Protocol.Archive.Throwing.{ok, stuck, Reader, >>=-ne-stuck, ◌>>=◌}

abbrev chunk_size : ℕ → ℕ
chunk_size n = min n 4096

next_chunk : ℕ → ℕ → List ℕ → List ℕ → Reader (List ℕ)
next_chunk fuel n v chunk = read_chunks fuel (n - chunk_size n) (v ++ chunk)

-- One round of the loop.
read_chunks_step :
    (fuel n : ℕ) (v : List ℕ) (s : Stream)
    → n ≢ 0
    → read_chunks (suc fuel) n v s ≡ (read_or_throw (chunk_size n) >>= next_chunk fuel n v) s
unfolding read_chunks next_chunk
read_chunks_step fuel n v s h = elim (Bool-cases (n == 0)) [
  | inl e ↦ absurd (h ((==_iff n 0).0 e))
  | inr e ↦ rw e
]

read_chunks_none : (fuel : ℕ) (v : List ℕ) (s : Stream) → read_chunks fuel 0 v s ≡ ok v s
unfolding read_chunks
read_chunks_none zero v s = refl
read_chunks_none (suc fuel) v s = refl

-- A text that is not empty falls into its first chunk and the rest.
module _ (bs : List ℕ) where
  abbrev chunk : List ℕ
  chunk = take (chunk_size (length bs)) bs

  abbrev remainder : List ℕ
  remainder = drop (chunk_size (length bs)) bs

  length-chunk : length chunk ≡ chunk_size (length bs)
  length-chunk = omega (arith, length-take (chunk_size (length bs)) bs)

  length-remainder : length remainder ≡ length bs - chunk_size (length bs)
  length-remainder = length-drop (chunk_size (length bs)) bs

-- What a round does, from what the rounds after it do.
module _ (fuel : ℕ) (text v : List ℕ) (some_left : length text ≢ 0) where
  abbrev later : Reader (List ℕ)
  later = read_chunks fuel (length (remainder text)) (v ++ chunk text)

  later-next_chunk : next_chunk fuel (length text) v (chunk text) ≡ later
  unfolding next_chunk
  later-next_chunk = rw (length-remainder text)

  first_chunk : Reads (read_or_throw (chunk_size (length text))) (chunk text) (chunk text)
  first_chunk = read_or_throw-Reads (chunk text) (chunk_size (length text)) (length-chunk text)

  abbrev round : Reader (List ℕ)
  round = read_or_throw (chunk_size (length text)) >>= next_chunk fuel (length text) v

  round-Reads :
      (w : List ℕ)
      → Reads later (remainder text) w
      → Reads (read_chunks (suc fuel) (length text) v) text w
  round-Reads w h rest =
      read_chunks_step fuel (length text) v (good (text ++ rest)) some_left
      ∙ subst (λ t. round (good (t ++ rest)) ≡ ok w (good rest))
          (take-append-drop (chunk_size (length text)) text)
          (Reads-bind (read_or_throw (chunk_size (length text))) (next_chunk fuel (length text) v)
            (chunk text) (remainder text) (chunk text) w first_chunk (rw later-next_chunk h) rest)

  round-Throws :
      Throws later (remainder text) → Throws (read_chunks (suc fuel) (length text) v) text
  round-Throws h front back x e =
      read_chunks_step fuel (length text) v (good front) some_left
      ∙ Throws-bind (read_or_throw (chunk_size (length text))) (next_chunk fuel (length text) v)
          (chunk text) (remainder text) (chunk text) first_chunk
          (read_or_throw-Throws (chunk text) (chunk_size (length text)) (length-chunk text))
          (rw later-next_chunk h) front back x
          (take-append-drop (chunk_size (length text)) text ∙ e)

-- `length bs` rounds are enough, since each reads a byte at least.
read_chunks-Reads :
    (fuel : ℕ) (bs v : List ℕ)
    → length bs ≤ fuel
    → Reads (read_chunks fuel (length bs) v) bs (v ++ bs)
read_chunks-Reads fuel [] v h =
    λ rest. read_chunks_none fuel v (good rest) ∙ ap (λ t. ok t (good rest)) (sym (append-nil v))
read_chunks-Reads zero (b ∷ bs) v h = absurd (omega arith)
read_chunks-Reads (suc fuel) (b ∷ bs) v h =
    round-Reads fuel (b ∷ bs) v (omega arith) (v ++ (b ∷ bs)) (
      subst (λ t. Reads (later fuel (b ∷ bs) v (omega arith)) (remainder (b ∷ bs)) t)
        (append_assoc v (chunk (b ∷ bs)) (remainder (b ∷ bs))
          ∙ ap (◌++◌ v) (take-append-drop (chunk_size (length (b ∷ bs))) (b ∷ bs)))
        (read_chunks-Reads fuel (remainder (b ∷ bs)) (v ++ chunk (b ∷ bs))
          (omega (arith, length-remainder (b ∷ bs)))))

read_chunks-Throws :
    (fuel : ℕ) (bs v : List ℕ) → length bs ≤ fuel → Throws (read_chunks fuel (length bs) v) bs
read_chunks-Throws fuel [] v h [] back x e = cc
read_chunks-Throws fuel [] v h (y ∷ front) back x e = cc
read_chunks-Throws zero (b ∷ bs) v h front back x e = absurd (omega arith)
read_chunks-Throws (suc fuel) (b ∷ bs) v h front back x e =
    round-Throws fuel (b ∷ bs) v (omega arith)
      (read_chunks-Throws fuel (remainder (b ∷ bs)) (v ++ chunk (b ∷ bs))
        (omega (arith, length-remainder (b ∷ bs))))
      front back x e

pub put_string-Writes :
    (h : Host) (v : List ℕ) → length v < 2 ^ 32 → Writes (put_string h) string_bytes v
unfolding put_string
put_string-Writes h v f s =
    rw
      (
        mod_small (length v) f,
        take_all v (length v) (omega arith),
        put_pod-Writes h uint (length v) f s,
      )
      (write-write s (big_bytes 4 (length v)) v)

pub get_string-Reads :
    (h : Host) (v old : List ℕ) → length v < 2 ^ 32 → Reads (get_string h old) (string_bytes v) v
unfolding get_string
get_string-Reads h v old f =
    Reads-bind (get_pod h uint 0) (λ len. read_chunks len len []) (big_bytes 4 (length v)) v
      (length v) v (get_pod-Reads h uint (length v) 0 f)
      (read_chunks-Reads (length v) v [] (omega arith))

pub get_string-Throws :
    (h : Host) (v old : List ℕ) → length v < 2 ^ 32 → Throws (get_string h old) (string_bytes v)
unfolding get_string
get_string-Throws h v old f =
    Throws-bind (get_pod h uint 0) (λ len. read_chunks len len []) (big_bytes 4 (length v)) v
      (length v) (get_pod-Reads h uint (length v) 0 f) (get_pod-Throws h uint (length v) 0)
      (read_chunks-Throws (length v) v [] (omega arith))

-- The loop ends on every stream.
pub read_chunks-ne-stuck :
    (fuel n : ℕ) (v : List ℕ) (s : Stream) → n ≤ fuel → read_chunks fuel n v s ≢ stuck
unfolding next_chunk
read_chunks-ne-stuck fuel zero v s h e = ground (arith, read_chunks_none fuel v s)
read_chunks-ne-stuck zero (suc n) v s h e = absurd (omega arith)
read_chunks-ne-stuck (suc fuel) (suc n) v s h e =
    >>=-ne-stuck (read_or_throw (chunk_size (suc n))) (next_chunk fuel (suc n) v) s
      (read_or_throw-ne-stuck (chunk_size (suc n)) s)
      (λ chunk s'.
        read_chunks-ne-stuck fuel (suc n - chunk_size (suc n)) (v ++ chunk) s' (omega arith))
      (sym (read_chunks_step fuel (suc n) v s (omega arith)) ∙ e)
