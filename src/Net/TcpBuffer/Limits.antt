-- ===== src/Net/TcpBuffer/Limits.antt =====
-- net/tcp_buffer.cc, recycleRead and recycleWrite: how the indices move after a system call, inside
-- the vector and at its end.
use tiny_rpc.Prelude.{ℕ, ◌+◌, ◌-◌, ◌≤◌, ◌<◌, ◌≡◌, refl, ap, ◌∙◌, arith, ◌++◌, drop, leb, false}
use tiny_rpc.Prelude.Int.{pos, move}
use tiny_rpc.Net.TcpBuffer.{TcpBuffer, read_able, write_able, get_size, recycle_read, recycle_write}
use tiny_rpc.Net.TcpBuffer.Memory.{segment, segment_plus}
use tiny_rpc.Net.TcpBuffer.Safety.{IsValid, readable, Yields, adjust_buffer-Yields}
use tiny_rpc.Net.TcpBuffer.Fifo.{advance, readable-advance}

-- `recycleRead(n)` on a valid buffer, for no more bytes than are readable and an index that stays
-- before the vector's end: the first `n` readable bytes are gone, and the buffer is valid.
pub recycle_read-Yields :
    (b : TcpBuffer) (n : ℕ)
    → IsValid b
    → n ≤ read_able b
    → b.read_index + n < get_size b
    → Yields (recycle_read b (pos n)) (drop n (readable b))
unfolding recycle_read move
recycle_read-Yields b n v h inside =
    let valid : IsValid (advance b n) = record { ordered = omega arith; within = v.within } in
    let below : leb (get_size b) (b.read_index + n) ≡ false = ground arith in
    let (b', e, v', same) = adjust_buffer-Yields (advance b n) valid in
    (b', rw below e, v', same ∙ readable-advance b n h)

-- On a valid buffer whose readable bytes reach the vector's end, `recycleRead` of all of them
-- leaves all of them readable.
pub recycle_read_at_end :
    (b : TcpBuffer)
    → IsValid b
    → b.write_index ≡ get_size b
    → Yields (recycle_read b (pos (read_able b))) (readable b)
unfolding recycle_read move
recycle_read_at_end b v h = (b, ground arith, v, refl)

-- `recycleWrite(n)` on a valid buffer, with an index that stays before the vector's end: the `n`
-- bytes behind the readable ones become readable after them, and the buffer is valid.
pub recycle_write-Yields :
    (b : TcpBuffer) (n : ℕ)
    → IsValid b
    → b.write_index + n < get_size b
    → Yields (recycle_write b (pos n)) (readable b ++ segment b.buffer b.write_index n)
unfolding recycle_write move
recycle_write-Yields b n v inside =
    let longer : TcpBuffer = record b { write_index = b.write_index + n } in
    let valid : IsValid longer = record { ordered = omega arith; within = omega arith } in
    let below : leb (get_size b) (b.write_index + n) ≡ false = ground arith in
    let (b', e, v', same) = adjust_buffer-Yields longer valid in (b', rw below e, v', same ∙ joined)
  where
    joined :
        segment b.buffer b.read_index (b.write_index + n - b.read_index)
        ≡ readable b ++ segment b.buffer b.write_index n
    joined =
        let split : b.write_index + n - b.read_index ≡ read_able b + n = omega arith in
        let place : b.read_index + read_able b ≡ b.write_index = omega arith in
        ap (λ k. segment b.buffer b.read_index k) split
        ∙ segment_plus b.buffer b.read_index (read_able b) n
        ∙ ap (λ k. readable b ++ segment b.buffer k n) place

-- On a valid buffer `recycleWrite` of as many bytes as fit behind the readable ones makes none of
-- them readable.
pub recycle_write_at_end :
    (b : TcpBuffer) → IsValid b → Yields (recycle_write b (pos (write_able b))) (readable b)
unfolding recycle_write move
recycle_write_at_end b v = (b, ground arith, v, refl)
