-- ===== src/Net/TcpBuffer/Safety.antt =====
-- net/tcp_buffer.cc: what a valid buffer is, and the operations that move its bytes.
use tiny_rpc.Prelude.{
  ℕ, ◌+◌, ◌-◌, ◌/◌, ◌≤◌, ◌≡◌, refl, ap, ◌∙◌, arith, min, List, ◌++◌, Option, some, length,
  replicate, length-replicate, take, drop, length-take, ltb, Bool-cases, inl, inr, if◌then◌else◌,
}
use tiny_rpc.Net.TcpBuffer.{
  TcpBuffer, read_able, write_able, get_size, resize_buffer, append_bytes, adjust_buffer,
}
use tiny_rpc.Net.TcpBuffer.Memory.{
  copy_in, copy_out_fits, copy_in_fits, overlay, length-overlay, segment, length-segment,
  segment-overlay, segment-overlay_front, take-take,
}

-- 0 ≤ read index ≤ write index ≤ size.
pub record IsValid (b : TcpBuffer) : Type 0 where
  pub ordered : b.read_index ≤ b.write_index
  pub within : b.write_index ≤ length b.buffer

-- What has been written and not yet read, oldest first.
abbrev pub readable : TcpBuffer → List ℕ
readable b = segment b.buffer b.read_index (read_able b)

-- The bytes moved to the front of a vector of zeros.
abbrev pub moved_to : ℕ → List ℕ → TcpBuffer
moved_to size bytes = record {
  read_index = 0;
  write_index = length bytes;
  buffer = overlay (replicate size 0) 0 bytes;
}

pub moved_to-IsValid :
    (size : ℕ) (bytes : List ℕ) → length bytes ≤ size → IsValid (moved_to size bytes)
moved_to-IsValid size bytes h = record {
  ordered = omega arith;
  within = omega (
    arith,
    length-overlay (replicate size 0) 0 bytes (omega (arith, length-replicate {0} {A = ℕ} size 0)),
    length-replicate {0} {A = ℕ} size 0,
  );
}

pub readable-moved_to : (size : ℕ) (bytes : List ℕ) → readable (moved_to size bytes) ≡ bytes
readable-moved_to size bytes =
    ap (λ k. segment (overlay (replicate size 0) 0 bytes) 0 k) (omega arith)
    ∙ segment-overlay_front (replicate size 0) bytes

pub length-readable : (b : TcpBuffer) → IsValid b → length (readable b) ≡ read_able b
length-readable b v = length-segment b.buffer b.read_index (read_able b) (omega arith)

pub write_able-moved_to :
    (size : ℕ) (bytes : List ℕ)
    → length bytes ≤ size
    → write_able (moved_to size bytes) ≡ size - length bytes
write_able-moved_to size bytes h = omega (
  arith,
  length-overlay (replicate size 0) 0 bytes (omega (arith, length-replicate {0} {A = ℕ} size 0)),
  length-replicate {0} {A = ℕ} size 0,
)

copy_to_front :
    (size : ℕ) (bytes : List ℕ)
    → length bytes ≤ size
    → copy_in (replicate size 0) 0 bytes ≡ some (overlay (replicate size 0) 0 bytes)
copy_to_front size bytes h =
    copy_in_fits (replicate size 0) 0 bytes (omega (arith, length-replicate {0} {A = ℕ} size 0))

-- `resizeBuffer` keeps as much as fits.
pub resize_buffer_lem :
    (b : TcpBuffer) (size : ℕ)
    → IsValid b
    → resize_buffer b size ≡ some (moved_to size (take size (readable b)))
unfolding resize_buffer
resize_buffer_lem b size v = rw (
  copy_out_fits b.buffer b.read_index c (omega arith),
  copy_to_front size (segment b.buffer b.read_index c) (omega (arith, taken)),
  take-take size (read_able b) (drop b.read_index b.buffer),
  taken,
)
  where
    c : ℕ
    c = min size (read_able b)

    taken : length (segment b.buffer b.read_index c) ≡ c
    taken = length-segment b.buffer b.read_index c (omega arith)

-- `adjustBuffer` keeps what is readable.
pub adjust_buffer_lem :
    (b : TcpBuffer)
    → IsValid b
    → adjust_buffer b
      ≡ some (if ltb (get_size b / 3) b.read_index then moved_to (get_size b) (readable b) else b)
unfolding adjust_buffer
adjust_buffer_lem b v =
    rw
      (
        copy_out_fits b.buffer b.read_index (read_able b) (omega arith),
        copy_to_front (get_size b) (readable b) (omega (arith, length-readable b v)),
        length-readable b v,
      )
      (ground arith)

-- What an operation promises: it does not fault, and its result is valid and holds these bytes.
abbrev pub Yields : Option TcpBuffer → List ℕ → Type 0
Yields r bytes = (b : TcpBuffer) × (r ≡ some b) × IsValid b × (readable b ≡ bytes)

-- `resizeBuffer` on a valid buffer does not fault; the first `size` readable bytes, or all if there
-- are fewer, stay readable, and the buffer is valid.
pub resize_buffer-Yields :
    (b : TcpBuffer) (size : ℕ) → IsValid b → Yields (resize_buffer b size) (take size (readable b))
resize_buffer-Yields b size v = (
  moved_to size (take size (readable b)),
  resize_buffer_lem b size v,
  moved_to-IsValid size (take size (readable b)) (omega (arith, length-take size (readable b))),
  readable-moved_to size (take size (readable b)),
)

-- `adjustBuffer` on a valid buffer does not fault; the readable bytes stay as they are, and the
-- buffer is valid.
pub adjust_buffer-Yields : (b : TcpBuffer) → IsValid b → Yields (adjust_buffer b) (readable b)
adjust_buffer-Yields b v = elim (Bool-cases (ltb (get_size b / 3) b.read_index)) [
  | inl far ↦ (
    moved_to (get_size b) (readable b),
    adjust_buffer_lem b v ∙ rw far,
    moved_to-IsValid (get_size b) (readable b) (omega (arith, length-readable b v)),
    readable-moved_to (get_size b) (readable b),
  )
  | inr near ↦ (b, adjust_buffer_lem b v ∙ rw near, v, refl)
]

pub append_bytes-Yields :
    (b : TcpBuffer) (bytes : List ℕ)
    → IsValid b
    → length bytes ≤ write_able b
    → Yields (append_bytes bytes b) (readable b ++ bytes)
unfolding append_bytes
append_bytes-Yields b bytes v fits = (
  record b { write_index = w + length bytes; buffer = overlay b.buffer w bytes },
  rw (copy_in_fits b.buffer w bytes (omega arith)),
  record {
    ordered = omega arith;
    within = omega (arith, length-overlay b.buffer w bytes (omega arith));
  },
  ap (λ k. segment (overlay b.buffer w bytes) b.read_index k) same
      ∙ segment-overlay b.buffer b.read_index w bytes v.ordered v.within,
)
  where
    w : ℕ
    w = b.write_index

    same : w + length bytes - b.read_index ≡ w - b.read_index + length bytes
    same = omega arith
