-- ===== src/Common/Grisu/Prettify.antt =====
-- common/string.hpp, Prettify and dtoa_grisu2: a double as text. The text is the characters that
-- are written before the final zero byte; a double is its bit pattern.
pub mod Reading
pub mod RoundTrip
mod Tests
use tiny_rpc.Prelude.{
  ℕ, suc, ◌+◌, ◌-◌, ◌*◌, ◌/◌, ◌%◌, ◌^◌, Bool, true, false, not, ◌&&◌, Option, none, some, List, [],
  ◌∷◌, ◌++◌, length, take, drop, replicate, leb, ◌==◌, if◌then◌else◌,
}
use tiny_rpc.Prelude.Int.{ℤ, pos, negsuc, pos_part, neg_part, leb_ℤ, ◌+ℤ◌, ◌-ℤ◌}
use tiny_rpc.Prelude.Maybe.{◌>>=◌, ◌>>◌, require}
use tiny_rpc.Common.Grisu.Digits.{grisu2}
use tiny_rpc.Common.Grisu.Exponent.{write_exponent}

-- The last two branches, with an exponent.
pub scientific : List ℕ → ℤ → List ℕ
scientific ds kk =
    if length ds == 1
    then ds ++ b'e' ∷ write_exponent (kk -ℤ pos 1)
    else take 1 ds ++ (b'.' ∷ (drop 1 ds ++ b'e' ∷ write_exponent (kk -ℤ pos 1)))

-- The branches, on the number of the digits before the point.
pub layout : List ℕ → ℤ → List ℕ
layout ds kk =
    if leb_ℤ (pos (length ds)) kk && leb_ℤ kk (pos 21)
    then ds ++ (replicate (pos_part kk - length ds) b'0' ++ b'.' ∷ b'0' ∷ [])
    else if leb_ℤ (pos 1) kk && leb_ℤ kk (pos 21)
    then take (pos_part kk) ds ++ b'.' ∷ drop (pos_part kk) ds
    else if leb_ℤ (negsuc 4) kk && leb_ℤ kk (pos 0)
    then b'0' ∷ b'.' ∷ (replicate (neg_part kk) b'0' ++ ds)
    else scientific ds kk

pub prettify : List ℕ → ℤ → List ℕ
prettify ds k = layout ds (pos (length ds) +ℤ k)

-- The text, and what the function returns.
pub dtoa_grisu2 : (ℤ → ℕ) → ℕ → Option (List ℕ × ℕ)
dtoa_grisu2 ceil_dk value = do
  let size = value % 2 ^ 63
  let sign = if value / 2 ^ 63 == 0 then [] else b'-' ∷ []
  require (not (size / 2 ^ 52 == 2047))
  let digits = grisu2 ceil_dk size
  if size == 0
      then some (b'0' ∷ b'.' ∷ b'0' ∷ [], 4)
      else (digits >>= λ (ds, k). some (sign ++ prettify ds k, length sign + length ds))
