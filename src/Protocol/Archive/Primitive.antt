-- ===== src/Protocol/Archive/Primitive.antt =====
-- protocol/archive.hpp, SERIALIZER_FOR_POD: the built-in types and the wire format.
use tiny_rpc.Prelude.{
  ℕ, ◌≡◌, ◌≢◌, Bool-cases, inl, inr, refl, ap, ◌∙◌, arith, List, [], ◌∷◌, length, length-append,
}
use tiny_rpc.Protocol.Endian.Memory.{Host, load, length-big_bytes}
use tiny_rpc.Protocol.Stream.{Stream, good, read, read_prefix, read_short}
use tiny_rpc.Protocol.Archive.{read_or_throw, put_pod, get_pod, pod_archive}
use tiny_rpc.Protocol.Archive.BuiltIn.{Pod, sizeof, swap, IsPortable}
use tiny_rpc.Protocol.Archive.ByteOrder.{store-swap, swap-load}
use tiny_rpc.Protocol.Archive.Format.{Lawful, pod_bytes, Writes, Reads, Throws}
use tiny_rpc.Protocol.Archive.Throwing.{ok, stuck, >>=-ne-stuck, Reader, pure, ◌>>=◌}

pub read_or_throw-Reads : (bs : List ℕ) (n : ℕ) → length bs ≡ n → Reads (read_or_throw n) bs bs
unfolding read_or_throw
read_or_throw-Reads bs n e rest = rw (read_prefix bs rest n e)

pub read_or_throw-Throws : (bs : List ℕ) (n : ℕ) → length bs ≡ n → Throws (read_or_throw n) bs
unfolding read_or_throw
read_or_throw-Throws bs n e front back x p =
    rw (read_short front n (omega (arith, ap length p, length-append front (x ∷ back))))

pub read_or_throw-ne-stuck : (n : ℕ) (s : Stream) → read_or_throw n s ≢ stuck
unfolding read_or_throw
read_or_throw-ne-stuck n s e = elim (Bool-cases (read s n).1.failed) [
  | inl failed ↦ cc (rw failed at e)
  | inr fine ↦ cc (rw fine at e)
]

pub get_pod-ne-stuck : (h : Host) (p : Pod) (old : ℕ) (s : Stream) → get_pod h p old s ≢ stuck
unfolding get_pod
get_pod-ne-stuck h p old s =
    >>=-ne-stuck (read_or_throw (sizeof p)) (λ bs. pure (swap h p (load h bs))) s
      (read_or_throw-ne-stuck (sizeof p) s) (λ bs s' e. cc)

pub pure-Throws {ℓ} : {A : Type ℓ} (a : A) → Throws (pure a) []
pure-Throws a [] back x e = cc
pure-Throws a (y ∷ front) back x e = cc

-- A reader that ends by `pure` takes the bytes of what stands before.
module _ {ℓ κ} {A : Type ℓ} {B : Type κ} (m : Reader A) (f : A → B) where
  pub Reads-map : (bs : List ℕ) (a : A) → Reads m bs a → Reads (m >>= λ x. pure (f x)) bs (f a)
  Reads-map bs a hm rest = rw (hm rest, ◌>>=◌)

  pub Throws-map : (bs : List ℕ) → Throws m bs → Throws (m >>= λ x. pure (f x)) bs
  Throws-map bs tm front back x e = rw (tm front back x e, ◌>>=◌)

pub put_pod-Writes :
    (h : Host) (p : Pod) (v : ℕ) → IsPortable p v → Writes (put_pod h p) (pod_bytes p) v
unfolding put_pod
put_pod-Writes h p v f s = rw (store-swap h p v f)

pub get_pod-Reads :
    (h : Host) (p : Pod) (v old : ℕ) → IsPortable p v → Reads (get_pod h p old) (pod_bytes p v) v
unfolding get_pod
get_pod-Reads h p v old f rest =
    Reads-map (read_or_throw (sizeof p)) _ (pod_bytes p v) (pod_bytes p v)
      (read_or_throw-Reads (pod_bytes p v) (sizeof p) (length-big_bytes (sizeof p) v)) rest
    ∙ ap (λ t. ok t (good rest)) (swap-load h p v f)

pub get_pod-Throws : (h : Host) (p : Pod) (v old : ℕ) → Throws (get_pod h p old) (pod_bytes p v)
unfolding get_pod
get_pod-Throws h p v old =
    Throws-map (read_or_throw (sizeof p)) _ (pod_bytes p v)
      (read_or_throw-Throws (pod_bytes p v) (sizeof p) (length-big_bytes (sizeof p) v))

-- A number written on one machine is read on another, byte by byte as `pod_bytes` describes; the
-- object's old value does not matter.
pub pod-Lawful :
    (from to : Host) (p : Pod)
    → Lawful (pod_archive from p) (pod_archive to p) (pod_bytes p) (IsPortable p) (λ old v. v)
pod-Lawful from to p = record {
  writes = put_pod-Writes from p;
  reads = λ v f old. get_pod-Reads to p v old f;
  throws = λ v f old. get_pod-Throws to p v old;
  merges = λ v f. refl;
}
