-- ===== src/Net/TcpConnection/Input.antt =====
-- net/tcp_connection.cc, input: which of the bytes that arrive become readable.
use tiny_rpc.Prelude.{
  ℕ, zero, suc, ◌+◌, ◌-◌, ◌*◌, ◌≤◌, ◌<◌, min, true, false, List, ◌++◌, some, length, take, drop,
  ◌==◌, take-append, ◌≡◌, refl, ap, sym, ◌∙◌, arith, subst, take_all,
}
use tiny_rpc.Prelude.Int.{pos, move}
use tiny_rpc.Net.TcpBuffer.{
  TcpBuffer, read_able, write_able, get_size, recycle_write, resize_buffer,
}
use tiny_rpc.Net.TcpBuffer.Memory.{
  copy_in_fits, overlay, length-overlay, segment, segment-overlay, take-take,
}
use tiny_rpc.Net.TcpBuffer.Safety.{IsValid, readable, length-readable, Yields, resize_buffer-Yields}
use tiny_rpc.Net.TcpBuffer.Limits.{recycle_write-Yields}
use tiny_rpc.Net.CoroutineHook.{received, amount, is_positive}
use tiny_rpc.Net.TcpConnection.{
  TcpConnection, Transport, is_below, ensure_room, store, read_all, input, freshen, is_idle,
}

-- A buffer with these bytes behind its write index.
abbrev pub with_stored : TcpBuffer → List ℕ → TcpBuffer
with_stored b bytes = record b { buffer = overlay b.buffer b.write_index bytes }

module _ (b : TcpBuffer) (bytes : List ℕ) (v : IsValid b) (fits : length bytes ≤ write_able b) where
  pub store_lem : store (received bytes) b ≡ some (with_stored b bytes)
  unfolding store
  store_lem = rw (copy_in_fits b.buffer b.write_index bytes (omega (arith, v.within))) refl

  pub size-with_stored : get_size (with_stored b bytes) ≡ get_size b
  size-with_stored = length-overlay b.buffer b.write_index bytes (omega (arith, v.within))

  pub with_stored-IsValid : IsValid (with_stored b bytes)
  with_stored-IsValid = record {
    ordered = v.ordered;
    within = omega (arith, size-with_stored, v.within);
  }

  pub readable-with_stored : readable (with_stored b bytes) ≡ readable b
  readable-with_stored =
      let n = read_able b in
      let tail = drop b.read_index (overlay b.buffer b.write_index bytes) in
      let short : n ≡ min n (n + length bytes) = omega arith in
      ap (λ k. take k tail) short
      ∙ sym (take-take n (n + length bytes) tail)
      ∙ ap (take n) (segment-overlay b.buffer b.read_index b.write_index bytes v.ordered v.within)
      ∙ take-append (readable b) bytes n (length-readable b v)

  stored_behind : segment (with_stored b bytes).buffer b.write_index (length bytes) ≡ bytes
  stored_behind =
      let w = b.write_index in
      let here : length bytes ≡ w - w + length bytes = omega arith in
      let nothing : w - w ≡ 0 = omega arith in
      ap (λ k. segment (with_stored b bytes).buffer w k) here
      ∙ segment-overlay b.buffer w w bytes (omega arith) v.within
      ∙ ap (λ k. segment b.buffer w k ++ bytes) nothing

-- Reads that fill all of the room, one after the other.
pub data FullReads {S : Type 0} (t : Transport S) (fd room : ℕ) : ℕ → S → S → Type 0 where
  last : (s : S) → FullReads t fd room 0 s s
  more :
      (n : ℕ) (s s' s'' : S) (bytes : List ℕ)
      → t.read fd room s ≡ some (received bytes, s')
      → length bytes ≡ room
      → FullReads t fd room n s' s''
      → FullReads t fd room (suc n) s s''

pub ensure_room_idle : (b : TcpBuffer) → 0 < write_able b → ensure_room b ≡ some b
unfolding ensure_room
ensure_room_idle b room = ground arith

recycle_full :
    (b : TcpBuffer) (n : ℕ) → get_size b ≤ b.write_index + n → recycle_write b (pos n) ≡ some b
unfolding recycle_write move
recycle_full b n end = ground arith

-- A full buffer of some size is doubled, and keeps what is readable.
pub ensure_room-Yields :
    (b : TcpBuffer) → IsValid b → write_able b ≡ 0 → Yields (ensure_room b) (readable b)
unfolding ensure_room
ensure_room-Yields b v full =
    let test : (write_able b == 0) ≡ true = ground arith in
    let all : take (2 * get_size b) (readable b) ≡ readable b =
      take_all (readable b) (2 * get_size b) (omega (arith, length-readable b v, v.within)) in
    rw test (
      subst (Yields (resize_buffer b (2 * get_size b))) all
        (resize_buffer-Yields b (2 * get_size b) v))

module _ {S : Type 0} (t : Transport S) where
  full_read :
      (fuel : ℕ) (c : TcpConnection) (s s' : S) (bytes : List ℕ)
      → IsValid c.read_buffer
      → 0 < write_able c.read_buffer
      → t.read c.fd (write_able c.read_buffer) s ≡ some (received bytes, s')
      → length bytes ≡ write_able c.read_buffer
      → read_all t (suc fuel) c s
        ≡ read_all t fuel (record c { read_buffer = with_stored c.read_buffer bytes }) s'
  unfolding read_all
  full_read fuel c s s' bytes v room got full =
      let b = c.read_buffer in
      let fits : length bytes ≤ write_able b = omega arith in
      let positive : is_positive (amount (received bytes)) ≡ true = ground arith in
      let whole : is_below (amount (received bytes)) (write_able b) ≡ false = ground arith in
      rw
        (
          ensure_room_idle b room,
          got,
          store_lem b bytes v fits,
          recycle_full (with_stored b bytes) (length bytes)
              (omega (arith, size-with_stored b bytes v fits)),
          positive,
          whole,
        )
        refl

  partial_read :
      (fuel : ℕ) (c : TcpConnection) (s s' : S) (bytes : List ℕ)
      → IsValid c.read_buffer
      → 0 < length bytes
      → length bytes < write_able c.read_buffer
      → t.read c.fd (write_able c.read_buffer) s ≡ some (received bytes, s')
      → (b' : TcpBuffer) × (read_all t (suc fuel) c s
          ≡ some (false, (record c { read_buffer = b' }, s')))
        × IsValid b'
        × (readable b' ≡ readable c.read_buffer ++ bytes)
  unfolding read_all
  partial_read fuel c s s' bytes v some_bytes short got =
      let b = c.read_buffer in
      let fits : length bytes ≤ write_able b = omega arith in
      let positive : is_positive (amount (received bytes)) ≡ true = ground arith in
      let part : is_below (amount (received bytes)) (write_able b) ≡ true = ground arith in
      let (b', moved, v', same) =
        recycle_write-Yields (with_stored b bytes) (length bytes)
          (with_stored-IsValid b bytes v fits) (omega (arith, size-with_stored b bytes v fits)) in
      (
        b',
        rw (ensure_room_idle b (omega arith), got, store_lem b bytes v fits, moved, positive, part)
            refl,
        v',
        same
            ∙ ap (λ k. k ++ segment (with_stored b bytes).buffer b.write_index (length bytes))
                (readable-with_stored b bytes v fits)
            ∙ ap (λ k. readable b ++ k) (stored_behind b bytes v fits),
      )

  -- Each time the room is full the loop reads into the same place again.
  read_all_lem :
      (n fuel : ℕ) (c : TcpConnection) (s s' s'' : S) (bytes : List ℕ)
      → IsValid c.read_buffer
      → n < fuel
      → FullReads t c.fd (write_able c.read_buffer) n s s'
      → 0 < length bytes
      → length bytes < write_able c.read_buffer
      → t.read c.fd (write_able c.read_buffer) s' ≡ some (received bytes, s'')
      → (b' : TcpBuffer) × (read_all t fuel c s
          ≡ some (false, (record c { read_buffer = b' }, s'')))
        × IsValid b'
        × (readable b' ≡ readable c.read_buffer ++ bytes)
  read_all_lem n zero c s s' s'' bytes v enough reads some_bytes short got = absurd (omega arith)
  read_all_lem zero (suc fuel) c s s' s'' bytes v enough (last _) some_bytes short got =
      partial_read fuel c s s'' bytes v some_bytes short got
  read_all_lem (suc n) (suc fuel) c s s' s'' bytes v enough (more _ _ s1 _ lost first full reads)
        some_bytes short got =
      let b = c.read_buffer in
      let fits : length lost ≤ write_able b = omega arith in
      let c1 : TcpConnection = record c { read_buffer = with_stored b lost } in
      let room : write_able b ≡ write_able (with_stored b lost) =
        omega (arith, size-with_stored b lost v fits) in
      let (b', done, v', same) =
        read_all_lem n fuel c1 s1 s' s'' bytes (with_stored-IsValid b lost v fits) (omega arith)
          (subst (λ k. FullReads t c.fd k n s1 s') room reads) some_bytes (omega (arith, room))
          (ap (λ k. t.read c.fd k s') (sym room) ∙ got) in
      (
        b',
        full_read fuel c s s1 lost v (omega arith) first full ∙ done,
        v',
        same ∙ ap (λ k. k ++ bytes) (readable-with_stored b lost v fits),
      )

  -- A connection that is neither closed nor unconnected, with a valid buffer: if `n` reads each
  -- fill the room behind the readable bytes, and the next read gives some bytes but fewer, then
  -- with fuel above `n` `input` does not fault before it refreshes the slot; only the bytes of
  -- the last read become readable, behind those that were, and all that the reads before it gave
  -- are lost.
  pub input_lem :
      (n fuel : ℕ) (c : TcpConnection) (s s' s'' : S) (bytes : List ℕ)
      → is_idle c.state ≡ false
      → IsValid c.read_buffer
      → n < fuel
      → FullReads t c.fd (write_able c.read_buffer) n s s'
      → 0 < length bytes
      → length bytes < write_able c.read_buffer
      → t.read c.fd (write_able c.read_buffer) s' ≡ some (received bytes, s'')
      → (b' : TcpBuffer) × (input t fuel c s ≡ freshen t (record c { read_buffer = b' }) s'')
        × IsValid b'
        × (readable b' ≡ readable c.read_buffer ++ bytes)
  unfolding input
  input_lem n fuel c s s' s'' bytes busy v enough reads some_bytes short got =
      let (b', done, v', same) =
        read_all_lem n fuel c s s' s'' bytes v enough reads some_bytes short got in
      (b', rw (busy, done) refl, v', same)
