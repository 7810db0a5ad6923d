-- ===== src/Net/TcpConnection/Output.antt =====
-- net/tcp_connection.cc, output: the loop sends what is readable in the write buffer.
use tiny_rpc.Prelude.{
  ℕ, zero, suc, ◌+◌, ◌≤◌, ◌<◌, true, false, List, [], ◌++◌, some, length, take, drop, length-drop,
  leb, ltb, ◌==◌, if◌then◌else◌, ◌≡◌, refl, ap, sym, ◌∙◌, arith, Bool-cases, inl, inr,
  take-append-drop, append_assoc, append-nil, eq-nil, ◌/◌, ap₂, replicate, length-replicate,
}
use tiny_rpc.Prelude.Int.{pos, move}
use tiny_rpc.Net.TcpBuffer.{TcpBuffer, read_able, get_size, recycle_read}
use tiny_rpc.Net.TcpBuffer.Memory.{copy_out, copy_out_fits, length-overlay}
use tiny_rpc.Net.TcpBuffer.Safety.{
  IsValid, readable, length-readable, adjust_buffer_lem, moved_to, moved_to-IsValid,
  readable-moved_to,
}
use tiny_rpc.Net.TcpBuffer.Fifo.{advance, readable-advance}
use tiny_rpc.Net.TcpConnection.{TcpConnection, Transport, output, is_connected}

-- A valid buffer whose last place is free.
pub record IsOpenEnded (b : TcpBuffer) : Type 0 where
  pub valid : IsValid b
  pub free_end : b.write_index < get_size b

moved_open : (size : ℕ) (bytes : List ℕ) → length bytes < size → IsOpenEnded (moved_to size bytes)
moved_open size bytes h = record {
  valid = moved_to-IsValid size bytes (omega arith);
  free_end = omega (
    arith,
    length-overlay (replicate size 0) 0 bytes (omega (arith, length-replicate {0} {A = ℕ} size 0)),
    length-replicate {0} {A = ℕ} size 0,
  );
}

recycled :
    (b : TcpBuffer) (n : ℕ)
    → IsOpenEnded b
    → n ≤ read_able b
    → (b' : TcpBuffer) × (recycle_read b (pos n) ≡ some b')
      × IsOpenEnded b'
      × (readable b' ≡ drop n (readable b))
unfolding recycle_read move
recycled b n o h =
    let v : IsValid (advance b n) = record { ordered = omega arith; within = o.valid.within } in
    let below : leb (get_size b) (b.read_index + n) ≡ false = ground (arith, o.free_end) in
    let adjusted = adjust_buffer_lem (advance b n) v in
    let rest = readable-advance b n h in
    elim (Bool-cases (ltb (get_size b / 3) (b.read_index + n))) [
      | inl far ↦ (
        moved_to (get_size b) (readable (advance b n)),
        rw below (adjusted ∙ rw far refl),
        moved_open (get_size b) (readable (advance b n))
            (omega (arith, length-readable (advance b n) v, o.free_end)),
        readable-moved_to (get_size b) (readable (advance b n)) ∙ rest,
      )
      | inr near ↦ (
        advance b n,
        rw below (adjusted ∙ rw near refl),
        record { valid = v; free_end = o.free_end },
        rest,
      )
    ]

-- One round of the loop in which the write gives `k`.
output_step :
    {S : Type 0} (t : Transport S) (fuel k : ℕ) (c : TcpConnection) (s s1 : S) (bytes : List ℕ)
    (b1 : TcpBuffer)
    → is_connected c.state ≡ true
    → (read_able c.write_buffer == 0) ≡ false
    → copy_out c.write_buffer.buffer c.write_buffer.read_index (read_able c.write_buffer)
      ≡ some bytes
    → t.write c.fd bytes s ≡ some (pos k, s1)
    → recycle_read c.write_buffer (pos k) ≡ some b1
    → output t (suc fuel) c s ≡ (
        if read_able b1 == 0
        then some (record c { write_buffer = b1 }, t.stop_writing c.fd s1)
        else output t fuel (record c { write_buffer = b1 }) s1)
unfolding output
output_step t fuel k c s s1 bytes b1 on some_left copied written moved =
    rw (on, some_left, copied, written, moved) refl

-- The socket takes at least one byte of each write; `sent` is what it has taken.
pub record Delivers {S : Type 0} (t : Transport S) (sent : S → List ℕ) : Type 0 where
  pub takes :
      (fd : ℕ) (bytes : List ℕ) (s : S)
      → 0 < length bytes
      → (k : ℕ) × (s' : S) × (t.write fd bytes s ≡ some (pos k, s'))
        × (0 < k)
        × (k ≤ length bytes)
        × (sent s' ≡ sent s ++ take k bytes)
  pub quiet : (fd : ℕ) (s : S) → sent (t.stop_writing fd s) ≡ sent s

module _ {S : Type 0} (t : Transport S) (sent : S → List ℕ) (d : Delivers t sent) where
  send_some :
      (fuel : ℕ) (c : TcpConnection) (s : S)
      → is_connected c.state ≡ true
      → IsOpenEnded c.write_buffer
      → (read_able c.write_buffer == 0) ≡ false
      → (b : TcpBuffer) × (s' : S) × (output t (suc fuel) c s ≡ (
          if read_able b == 0
          then some (record c { write_buffer = b }, t.stop_writing c.fd s')
          else output t fuel (record c { write_buffer = b }) s'))
        × IsOpenEnded b
        × (read_able b < read_able c.write_buffer)
        × (sent s' ++ readable b ≡ sent s ++ readable c.write_buffer)
  send_some fuel c s on o some_left =
      let b = c.write_buffer in
      let count = length-readable b o.valid in
      let (k, s1, written, positive, within, taken) =
        d.takes c.fd (readable b) s (ground (arith, count)) in
      let (b1, moved, o1, left) = recycled b k o (omega (arith, count)) in
      let copied =
        copy_out_fits b.buffer b.read_index (read_able b)
          (omega (arith, o.valid.ordered, o.valid.within)) in
      (
        b1,
        s1,
        output_step t fuel k c s s1 (readable b) b1 on some_left copied written moved,
        o1,
        omega
            (arith, count, length-readable b1 o1.valid, ap length left, length-drop k (readable b)),
        ap₂ (λ x y. x ++ y) taken left
            ∙ append_assoc (sent s) (take k (readable b)) (drop k (readable b))
            ∙ ap (λ x. sent s ++ x) (take-append-drop k (readable b)),
      )

  nothing_readable : (b : TcpBuffer) → IsOpenEnded b → (read_able b == 0) ≡ true → readable b ≡ []
  nothing_readable b o none_left = eq-nil (readable b) (ground (arith, length-readable b o.valid))

  -- On a connected connection whose write buffer is valid and does not reach the end of its
  -- vector, over a socket that takes at least one byte of each write, `output` ends, with fuel
  -- above the number of readable bytes, and does not fault: it has sent all of them in their
  -- order, and none is left. All else in the connection stays as it was.
  pub output_lem :
      (fuel : ℕ) (c : TcpConnection) (s : S)
      → is_connected c.state ≡ true
      → IsOpenEnded c.write_buffer
      → read_able c.write_buffer < fuel
      → (b : TcpBuffer) × (s' : S) × (output t fuel c s ≡ some (record c { write_buffer = b }, s'))
        × IsOpenEnded b
        × (readable b ≡ [])
        × (sent s' ≡ sent s ++ readable c.write_buffer)
  unfolding output
  output_lem zero c s on o enough = absurd (omega arith)
  output_lem (suc fuel) c s on o enough = elim (Bool-cases (read_able c.write_buffer == 0)) [
    | inl none_left ↦
        let empty = nothing_readable c.write_buffer o none_left in
        (c.write_buffer, s, rw (on, none_left) refl, o, empty, rw empty (sym (append-nil (sent s))))
    | inr some_left ↦
        let (b, s1, step, o1, fewer, whole) = send_some fuel c s on o some_left in
        elim (Bool-cases (read_able b == 0)) [
          | inl done ↦
              let empty = nothing_readable b o1 done in
              (
                b,
                t.stop_writing c.fd s1,
                step ∙ rw done refl,
                o1,
                empty,
                d.quiet c.fd s1
                    ∙ sym (append-nil (sent s1))
                    ∙ ap (λ x. sent s1 ++ x) (sym empty)
                    ∙ whole,
              )
          | inr more ↦
              let (b2, s2, rest, o2, empty, all) =
                output_lem fuel (record c { write_buffer = b }) s1 on o1 (omega (arith, fewer)) in
              (b2, s2, step ∙ rw more rest, o2, empty, all ∙ whole)
        ]
  ]
