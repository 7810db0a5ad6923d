-- ===== src/Protocol/Endian/Memory.antt =====
-- How a machine keeps a number of w bytes: the lowest byte first, or the highest.
use tiny_rpc.Prelude.{
  ℕ, zero, suc, ◌+◌, ◌*◌, ◌/◌, ◌%◌, ◌^◌, ◌<◌, ◌≡◌, refl, ap, arith, List, [], ◌∷◌, length, All,
}

pub data Host : Type 0 where
  little big : Host

unfoldable pub little_bytes : ℕ → ℕ → List ℕ
little_bytes zero v = []
little_bytes (suc w) v = v % 256 ∷ little_bytes w (v / 256)

unfoldable pub big_bytes : ℕ → ℕ → List ℕ
big_bytes zero v = []
big_bytes (suc w) v = v / 256 ^ w % 256 ∷ big_bytes w v

unfoldable pub little_value : List ℕ → ℕ
little_value [] = 0
little_value (b ∷ bs) = b + 256 * little_value bs

-- Each byte read so far is worth 256 times the next.
unfoldable pub big_value : ℕ → List ℕ → ℕ
big_value acc [] = acc
big_value acc (b ∷ bs) = big_value (acc * 256 + b) bs

-- The bytes of a w-byte object at rising addresses, and the object made of such bytes.
unfoldable pub store : Host → ℕ → ℕ → List ℕ
unfolding little_bytes big_bytes
store little w v = little_bytes w v
store big w v = big_bytes w v

unfoldable pub load : Host → List ℕ → ℕ
unfolding little_value big_value
load little bs = little_value bs
load big bs = big_value 0 bs

abbrev pub get_byte : List ℕ → ℕ → ℕ
get_byte [] i = 0
get_byte (b ∷ bs) zero = b
get_byte (b ∷ bs) (suc i) = get_byte bs i

abbrev pub IsByte : ℕ → Type 0
IsByte b = b < 256

pub length-big_bytes : (w v : ℕ) → length (big_bytes w v) ≡ w
unfolding big_bytes
length-big_bytes zero v = refl
length-big_bytes (suc w) v = ap suc (length-big_bytes w v)

length-little_bytes : (w v : ℕ) → length (little_bytes w v) ≡ w
unfolding little_bytes
length-little_bytes zero v = refl
length-little_bytes (suc w) v = ap suc (length-little_bytes w (v / 256))

pub length-store : (h : Host) (w v : ℕ) → length (store h w v) ≡ w
unfolding store
length-store little w v = length-little_bytes w v
length-store big w v = length-big_bytes w v

pub big_bytes-IsByte : (w v : ℕ) → All IsByte (big_bytes w v)
unfolding big_bytes
big_bytes-IsByte zero v = tt
big_bytes-IsByte (suc w) v = (omega arith, big_bytes-IsByte w v)
