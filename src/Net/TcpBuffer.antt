-- ===== src/Net/TcpBuffer.antt =====
-- net/tcp_buffer.h and net/tcp_buffer.cc: the byte buffer of a connection.
-- `none` is a fault: a copy outside a vector, an index below zero, or an `int` past its range.
pub mod Memory
pub mod Safety
pub mod Fifo
pub mod Limits
use tiny_rpc.Prelude.{
  ℕ, ◌+◌, ◌-◌, ◌*◌, ◌/◌, ◌^◌, min, List, [], ◌++◌, Option, none, some, length, replicate, ltb, leb,
  ◌==◌, if◌then◌else◌,
}
use tiny_rpc.Prelude.Int.{ℤ, pos, negsuc, move}
use tiny_rpc.Prelude.Maybe.{◌>>=◌, ◌>>◌, require}
use Memory.{copy_out, copy_in}

pub record TcpBuffer : Type 0 where
  pub read_index : ℕ
  pub write_index : ℕ
  pub buffer : List ℕ

-- `TcpBuffer(int size)`: `resize` fills the vector with zeros.
unfoldable pub tcp_buffer : ℕ → TcpBuffer
tcp_buffer size = record { read_index = 0; write_index = 0; buffer = replicate size 0 }

-- `readAble`, `writeAble` and `getSize`. The first two are differences that a valid buffer keeps at
-- zero or above; where the source's difference is below zero it is 0 here.
abbrev pub read_able : TcpBuffer → ℕ
read_able b = b.write_index - b.read_index

abbrev pub get_size : TcpBuffer → ℕ
get_size b = length b.buffer

abbrev pub write_able : TcpBuffer → ℕ
write_able b = get_size b - b.write_index

unfoldable pub resize_buffer : TcpBuffer → ℕ → Option TcpBuffer
resize_buffer b size = do
  let c = min size (read_able b)
  bytes ← copy_out b.buffer b.read_index c
  tmp ← copy_in (replicate size 0) 0 bytes
  some (record { read_index = 0; write_index = c; buffer = tmp })

-- The last two statements of `writeToBuffer`.
unfoldable pub append_bytes : List ℕ → TcpBuffer → Option TcpBuffer
append_bytes bytes b = do
  tmp ← copy_in b.buffer b.write_index bytes
  some (record b { write_index = b.write_index + length bytes; buffer = tmp })

-- `(int)(1.5 * (write_index_ + size))`.
abbrev pub grown_size : TcpBuffer → ℕ → ℕ
grown_size b size = (b.write_index + size) * 3 / 2

unfoldable pub make_room : TcpBuffer → ℕ → Option TcpBuffer
make_room b size =
    if ltb (write_able b) size
    then require (ltb (grown_size b size) (2 ^ 31)) >> resize_buffer b (grown_size b size)
    else some b

unfoldable pub write_to_buffer : TcpBuffer → List ℕ → Option TcpBuffer
write_to_buffer b bytes = do b' ← make_room b (length bytes); append_bytes bytes b'

unfoldable pub adjust_buffer : TcpBuffer → Option TcpBuffer
adjust_buffer b =
    if ltb (get_size b / 3) b.read_index
    then (do
      bytes ← copy_out b.buffer b.read_index (read_able b)
      tmp ← copy_in (replicate (get_size b) 0) 0 bytes
      some (record { read_index = 0; write_index = read_able b; buffer = tmp }))
    else some b

-- The copy into `tmp`, which becomes the caller's vector, and the statements after it.
unfoldable pub take_out : TcpBuffer → ℕ → Option (List ℕ × TcpBuffer)
take_out b read_size = do
  bytes ← copy_out b.buffer b.read_index read_size
  b' ← adjust_buffer (record b { read_index = b.read_index + read_size })
  some (bytes, b')

-- `re` is the caller's vector, which an empty buffer leaves alone.
unfoldable pub read_from_buffer : TcpBuffer → List ℕ → ℕ → Option (List ℕ × TcpBuffer)
read_from_buffer b re size =
    if read_able b == 0
    then some (re, b)
    else take_out b (if ltb size (read_able b) then size else read_able b)

unfoldable pub clear_buffer : TcpBuffer → TcpBuffer
clear_buffer b = record { read_index = 0; write_index = 0; buffer = [] }

-- The callers pass the result of a system call, which may be negative.
unfoldable pub recycle_read : TcpBuffer → ℤ → Option TcpBuffer
recycle_read b index = do
  j ← move b.read_index index
  if leb (get_size b) j then some b else adjust_buffer (record b { read_index = j })

unfoldable pub recycle_write : TcpBuffer → ℤ → Option TcpBuffer
recycle_write b index = do
  j ← move b.write_index index
  if leb (get_size b) j then some b else adjust_buffer (record b { write_index = j })
