-- ===== src/Net/TcpBuffer/Fifo.antt =====
-- net/tcp_buffer.cc, writeToBuffer and readFromBuffer: the buffer seen as a queue of bytes.
use tiny_rpc.Prelude.{
  ℕ, ◌+◌, ◌^◌, ◌≤◌, ◌<◌, ◌≡◌, refl, ap, sym, ◌∙◌, arith, min, List, [], ◌++◌, some, length, take,
  drop, ltb, ◌==◌, Bool-cases, inl, inr, true, if◌then◌else◌, take_all, drop-min, take-min, eq-nil,
  zero, suc,
}
use tiny_rpc.Net.TcpBuffer.{
  TcpBuffer, read_able, write_able, grown_size, make_room, write_to_buffer, take_out,
  read_from_buffer,
}
use tiny_rpc.Net.TcpBuffer.Memory.{copy_out_fits, segment, segment_inner, take-take}
use tiny_rpc.Net.TcpBuffer.Safety.{
  IsValid, readable, length-readable, Yields, adjust_buffer-Yields, append_bytes-Yields, moved_to,
  moved_to-IsValid, readable-moved_to, resize_buffer_lem, write_able-moved_to,
}

drop-nil : (n : ℕ) → ◌≡◌ {A = List ℕ} (drop n []) []
drop-nil zero = refl
drop-nil (suc n) = refl

-- After `make_room` the bytes fit, and nothing readable is lost.
make_room_lem :
    (b : TcpBuffer) (n : ℕ)
    → IsValid b
    → grown_size b n < 2 ^ 31
    → (b' : TcpBuffer) × (make_room b n ≡ some b')
      × IsValid b'
      × (readable b' ≡ readable b)
      × (n ≤ write_able b')
unfolding make_room
make_room_lem b n v small = elim (Bool-cases (ltb (write_able b) n)) [
  | inl full ↦ (
    moved_to (grown_size b n) (readable b),
    rw (full, fits31)
        (resize_buffer_lem b (grown_size b n) v
          ∙ ap (λ t. some (moved_to (grown_size b n) t)) kept),
    moved_to-IsValid (grown_size b n) (readable b) (omega (arith, length-readable b v)),
    readable-moved_to (grown_size b n) (readable b),
    omega (
      arith,
      length-readable b v,
      write_able-moved_to (grown_size b n) (readable b) (omega (arith, length-readable b v)),
    ),
  )
  | inr roomy ↦ (b, rw roomy, v, refl, ground arith)
]
  where
    fits31 : ltb (grown_size b n) (2 ^ 31) ≡ true
    fits31 = ground arith

    kept : take (grown_size b n) (readable b) ≡ readable b
    kept = take_all (readable b) (grown_size b n) (omega (arith, length-readable b v))

-- `writeToBuffer` on a valid buffer does not fault, if the size that it would grow to is an `int`;
-- the bytes become readable behind what was readable, and the buffer is valid.
pub write_to_buffer-Yields :
    (b : TcpBuffer) (bytes : List ℕ)
    → IsValid b
    → grown_size b (length bytes) < 2 ^ 31
    → Yields (write_to_buffer b bytes) (readable b ++ bytes)
unfolding write_to_buffer
write_to_buffer-Yields b bytes v small =
    let (b', e, v', same, fits) = make_room_lem b (length bytes) v small in
    rw (e, ← same) (append_bytes-Yields b' bytes v' fits)

-- The readable bytes once some have been taken.
abbrev pub advance : TcpBuffer → ℕ → TcpBuffer
advance b n = record b { read_index = b.read_index + n }

pub readable-advance :
    (b : TcpBuffer) (n : ℕ) → n ≤ read_able b → readable (advance b n) ≡ drop n (readable b)
readable-advance b n h =
    ap (λ k. segment b.buffer (b.read_index + n) k) (omega arith)
    ∙ segment_inner b.buffer b.read_index n (read_able b) h

-- A read of `k` bytes, no more than there are.
read_some :
    (b : TcpBuffer) (k : ℕ)
    → IsValid b
    → k ≤ read_able b
    → (b' : TcpBuffer) × (take_out b k ≡ some (take k (readable b), b'))
      × IsValid b'
      × (readable b' ≡ drop k (readable b))
unfolding take_out
read_some b k v h =
    let valid : IsValid (advance b k) = record { ordered = omega arith; within = v.within } in
    let (b', e, v', same) = adjust_buffer-Yields (advance b k) valid in
    (
      b',
      rw (copy_out_fits b.buffer b.read_index k (omega arith), e, front),
      v',
      same ∙ readable-advance b k h,
    )
  where
    front : segment b.buffer b.read_index k ≡ take k (readable b)
    front =
        let e : k ≡ min k (read_able b) = omega arith in
        ap (λ j. take j (drop b.read_index b.buffer)) e
        ∙ sym (take-take k (read_able b) (drop b.read_index b.buffer))

-- `readFromBuffer` on a valid buffer does not fault; it hands over the first `size` readable
-- bytes, or all if there are fewer, and the others stay readable in a valid buffer. With nothing
-- readable the caller's vector stays as it was.
pub read_from_buffer_lem :
    (b : TcpBuffer) (re : List ℕ) (size : ℕ)
    → IsValid b
    → (b' : TcpBuffer) × (read_from_buffer b re size
        ≡ some (if read_able b == 0 then re else take size (readable b), b'))
      × IsValid b'
      × (readable b' ≡ drop size (readable b))
unfolding read_from_buffer
read_from_buffer_lem b re size v = elim (Bool-cases (read_able b == 0)) [
  | inl e ↦ (
    b,
    rw e,
    v,
    rw (eq-nil (readable b) (ground (arith, length-readable b v))) (sym (drop-nil size)),
  )
  | inr e ↦
      let (b', r, v', same) = read_some b k v (omega arith) in
      (b', rw (e, amount, r) (ap (λ t. some (t, b')) first_bytes), v', same ∙ rest_bytes)
]
  where
    k : ℕ
    k = min size (read_able b)

    amount : (if ltb size (read_able b) then size else read_able b) ≡ k
    amount = ground arith

    first_bytes : take k (readable b) ≡ take size (readable b)
    first_bytes =
        ap (λ j. take (min size j) (readable b)) (sym (length-readable b v))
        ∙ take-min size (readable b)

    rest_bytes : drop k (readable b) ≡ drop size (readable b)
    rest_bytes =
        ap (λ j. drop (min size j) (readable b)) (sym (length-readable b v))
        ∙ drop-min size (readable b)
