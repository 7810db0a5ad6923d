-- ===== src/Protocol/Archive.antt =====
-- protocol/archive.hpp, class codec::Binary: writing values to a stream and reading them back.
-- `operator&` has an overload for each kind of type; here each overload is an `Archive`.
pub mod BuiltIn
pub mod ByteOrder
pub mod Throwing
pub mod Containers
pub mod Format
pub mod Primitive
pub mod Sequence
pub mod Pair
pub mod Text
pub mod Instances
pub mod RoundTrip
pub mod Shorts
use tiny_rpc.Prelude.{
  ℕ, zero, suc, ◌+◌, ◌-◌, ◌%◌, ◌^◌, List, [], ◌∷◌, ◌++◌, length, ◌==◌, if◌then◌else◌, take, min,
}
use tiny_rpc.Protocol.Endian.Memory.{Host, store, load}
use tiny_rpc.Protocol.Stream.{Stream, write, read}
use BuiltIn.{Pod, uint, sizeof, swap}
use Throwing.{Outcome, ok, malformed, stuck, Reader, ◌>>=◌, pure}

-- What `operator&` does with a value of one type. `initial` is the value of `T value;`, and `get`
-- is given the object that the reference names.
pub record Archive {ℓ} (A : Type ℓ) : Type ℓ where
  pub initial : A
  pub put : A → Stream → Stream
  pub get : A → Reader A

-- A failed read throws `std::runtime_error("malformed data")`.
unfoldable pub read_or_throw : ℕ → Reader (List ℕ)
read_or_throw n s = let r = read s n in if r.1.failed then malformed r.1 else ok r.0 r.1

-- The section's parameter is the machine that runs the codec.
module _ (h : Host) where
  unfoldable pub put_pod : Pod → ℕ → Stream → Stream
  put_pod p v s = write s (store h (sizeof p) (swap h p v))

  unfoldable pub get_pod : Pod → ℕ → Reader ℕ
  get_pod p old = do bytes ← read_or_throw (sizeof p); pure (swap h p (load h bytes))

  abbrev pub pod_archive : Pod → Archive ℕ
  pod_archive p = record { initial = 0; put = put_pod p; get = get_pod p }

-- The loop over the elements of a container, in its order.
unfoldable pub put_elements {ℓ} : {A : Type ℓ} → Archive A → List A → Stream → Stream
put_elements a [] s = s
put_elements a (v ∷ vs) s = put_elements a vs (a.put v s)

-- `for (i = 0; i < len; ++i) { T value; *this & value; v.insert(v.end(), value); }`
unfoldable pub get_elements {ℓ} :
    {A : Type ℓ} → Archive A → (List A → A → List A) → ℕ → List A → Reader (List A)
get_elements a insert zero acc = pure acc
get_elements a insert (suc n) acc = do v ← a.get a.initial; get_elements a insert n (insert acc v)

-- `for (i = 0; i < N; ++i) *this & v[i];` on the elements of an array.
unfoldable pub get_each {ℓ} : {A : Type ℓ} → Archive A → List A → Reader (List A)
get_each a [] = pure []
get_each a (old ∷ olds) = do v ← a.get old; vs ← get_each a olds; pure (v ∷ vs)

module _ {ℓ} (h : Host) {A : Type ℓ} (a : Archive A) where
  -- `uint32_t len = v.size()` is cut to 32 bits; all the elements are written.
  unfoldable pub put_container : List A → Stream → Stream
  put_container vs s = put_elements a vs (put_pod h uint (length vs % 2 ^ 32) s)

  unfoldable pub get_container : (List A → A → List A) → List A → Reader (List A)
  get_container insert old = do len ← get_pod h uint 0; get_elements a insert len old

  -- An array writes its length too; the reader skips it, and goes by its own `N`.
  unfoldable pub put_array : List A → Stream → Stream
  put_array vs s = put_elements a vs (put_pod h uint (length vs % 2 ^ 32) s)

  unfoldable pub get_array : List A → Reader (List A)
  get_array old = do len ← get_pod h uint 0; get_each a old

  -- vector, deque, list, set, multiset, map, multimap: by the container's `insert`.
  abbrev pub container_archive : (List A → A → List A) → Archive (List A)
  container_archive insert = record {
    initial = [];
    put = put_container;
    get = get_container insert;
  }

module _ {ℓ κ} {A : Type ℓ} {B : Type κ} (a : Archive A) (b : Archive B) where
  unfoldable pub put_pair : A × B → Stream → Stream
  put_pair (x, y) s = b.put y (a.put x s)

  unfoldable pub get_pair : A × B → Reader (A × B)
  get_pair old = do x ← a.get old.0; y ← b.get old.1; pure (x, y)

  abbrev pub pair_archive : Archive (A × B)
  pair_archive = record { initial = (a.initial, b.initial); put = put_pair; get = get_pair }

-- `while (toRead != 0)`: at most 4096 bytes a round.
unfoldable pub read_chunks : ℕ → ℕ → List ℕ → Reader (List ℕ)
read_chunks zero to_read v = if to_read == 0 then pure v else λ s. stuck
read_chunks (suc fuel) to_read v =
    let rest = do
      chunk ← read_or_throw (min to_read 4096)
      read_chunks fuel (to_read - min to_read 4096) (v ++ chunk)
    in if to_read == 0 then pure v else rest

module _ (h : Host) where
  unfoldable pub put_string : List ℕ → Stream → Stream
  put_string v s = let len = length v % 2 ^ 32 in write (put_pod h uint len s) (take len v)

  -- Each round reads a byte at least, so `len` rounds are enough.
  unfoldable pub get_string : List ℕ → Reader (List ℕ)
  get_string old = do len ← get_pod h uint 0; read_chunks len len []

  abbrev pub string_archive : Archive (List ℕ)
  string_archive = record { initial = []; put = put_string; get = get_string }
