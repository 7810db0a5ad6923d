-- ===== src/Protocol/Archive/Sequence.antt =====
-- protocol/archive.hpp, SERIALIZER_FOR_STL, SERIALIZER_FOR_STL2, arrays and pairs, over the
-- contract of the element types.
use tiny_rpc.Prelude.{ℕ, ◌%◌, ◌^◌, ◌<◌, ◌≡◌, refl, ap, sym, ◌∙◌, arith, List, [], ◌∷◌, length, All}
use mathlib.Core.List.{foldl}
use tiny_rpc.Protocol.Endian.Memory.{Host, big_bytes}
use tiny_rpc.Protocol.Stream.{good, write-write, write-nil}
use tiny_rpc.Protocol.Archive.{
  Archive, put_pod, get_pod, put_elements, get_elements, get_each, put_container, get_container,
  put_array, get_array,
}
use tiny_rpc.Protocol.Archive.BuiltIn.{uint}
use tiny_rpc.Protocol.Archive.Format.{
  Lawful, Writes, Reads, Throws, Reads-bind, Throws-bind, concat_map, container_bytes,
}
use tiny_rpc.Protocol.Archive.Primitive.{
  put_pod-Writes, get_pod-Reads, get_pod-Throws, pure-Throws, Reads-map, Throws-map,
}
use tiny_rpc.Protocol.Archive.Throwing.{ok, pure, ◌>>=◌}

pub mod_small : (n : ℕ) → n < 2 ^ 32 → n % 2 ^ 32 ≡ n
mod_small n h = omega arith

module _ {ℓ} {A : Type ℓ} {out inn : Archive A} {bytes : A → List ℕ} {Fits : A → Type 0}
    {merge : A → A → A} (law : Lawful out inn bytes Fits merge) where
  put_elements-Writes :
      (vs : List A) → All Fits vs → Writes (put_elements out) (concat_map bytes) vs
  unfolding put_elements
  put_elements-Writes [] f s = sym (write-nil s)
  put_elements-Writes (v ∷ vs) f s =
      put_elements-Writes vs f.1 (out.put v s)
      ∙ rw (law.writes v f.0 s) (write-write s (bytes v) (concat_map bytes vs))

  one-Reads : (v : A) → Fits v → Reads (inn.get inn.initial) (bytes v) v
  one-Reads v f rest = law.reads v f inn.initial rest ∙ ap (λ t. ok t (good rest)) (law.merges v f)

  module _ (insert : List A → A → List A) where
    get_elements-Reads :
        (vs : List A) (acc : List A)
        → All Fits vs
        → Reads
            (get_elements inn insert (length vs) acc)
            (concat_map bytes vs)
            (foldl insert acc vs)
    unfolding get_elements
    get_elements-Reads [] acc f = λ rest. refl
    get_elements-Reads (v ∷ vs) acc f =
        Reads-bind (inn.get inn.initial) (λ x. get_elements inn insert (length vs) (insert acc x))
          (bytes v) (concat_map bytes vs) v (foldl insert (insert acc v) vs) (one-Reads v f.0)
          (get_elements-Reads vs (insert acc v) f.1)

    get_elements-Throws :
        (vs : List A) (acc : List A)
        → All Fits vs
        → Throws (get_elements inn insert (length vs) acc) (concat_map bytes vs)
    unfolding get_elements
    get_elements-Throws [] acc f = pure-Throws acc
    get_elements-Throws (v ∷ vs) acc f =
        Throws-bind (inn.get inn.initial) (λ x. get_elements inn insert (length vs) (insert acc x))
          (bytes v) (concat_map bytes vs) v (one-Reads v f.0) (law.throws v f.0 inn.initial)
          (get_elements-Throws vs (insert acc v) f.1)

  -- Into an array of the same length, each element is read over the old one.
  abbrev pub merge_each : List A → List A → List A
  merge_each [] vs = []
  merge_each (o ∷ os) [] = o ∷ os
  merge_each (o ∷ os) (v ∷ vs) = merge o v ∷ merge_each os vs

  get_each-Reads :
      (vs olds : List A)
      → All Fits vs
      → length olds ≡ length vs
      → Reads (get_each inn olds) (concat_map bytes vs) (merge_each olds vs)
  unfolding get_each
  get_each-Reads [] [] f e = λ rest. refl
  get_each-Reads [] (o ∷ olds) f e = absurd (omega arith)
  get_each-Reads (v ∷ vs) [] f e = absurd (omega arith)
  get_each-Reads (v ∷ vs) (o ∷ olds) f e =
      Reads-bind (inn.get o) (λ x. get_each inn olds >>= λ xs. pure (x ∷ xs)) (bytes v)
        (concat_map bytes vs) (merge o v) (merge o v ∷ merge_each olds vs) (law.reads v f.0 o)
        (Reads-map (get_each inn olds) (λ xs. merge o v ∷ xs) (concat_map bytes vs)
          (merge_each olds vs) (get_each-Reads vs olds f.1 (omega arith)))

  get_each-Throws :
      (vs olds : List A)
      → All Fits vs
      → length olds ≡ length vs
      → Throws (get_each inn olds) (concat_map bytes vs)
  unfolding get_each
  get_each-Throws [] [] f e = pure-Throws []
  get_each-Throws [] (o ∷ olds) f e = absurd (omega arith)
  get_each-Throws (v ∷ vs) [] f e = absurd (omega arith)
  get_each-Throws (v ∷ vs) (o ∷ olds) f e =
      Throws-bind (inn.get o) (λ x. get_each inn olds >>= λ xs. pure (x ∷ xs)) (bytes v)
        (concat_map bytes vs) (merge o v) (law.reads v f.0 o) (law.throws v f.0 o)
        (Throws-map (get_each inn olds) (λ xs. merge o v ∷ xs) (concat_map bytes vs)
          (get_each-Throws vs olds f.1 (omega arith)))

  module _ (to : Host) where
    pub get_container-Reads :
        (insert : List A → A → List A) (vs old : List A)
        → All Fits vs
        → length vs < 2 ^ 32
        → Reads (get_container to inn insert old) (container_bytes bytes vs) (foldl insert old vs)
    unfolding get_container
    get_container-Reads insert vs old f fits =
        Reads-bind (get_pod to uint 0) (λ n. get_elements inn insert n old)
          (big_bytes 4 (length vs)) (concat_map bytes vs) (length vs) (foldl insert old vs)
          (get_pod-Reads to uint (length vs) 0 fits) (get_elements-Reads insert vs old f)

    pub get_container-Throws :
        (insert : List A → A → List A) (vs old : List A)
        → All Fits vs
        → length vs < 2 ^ 32
        → Throws (get_container to inn insert old) (container_bytes bytes vs)
    unfolding get_container
    get_container-Throws insert vs old f fits =
        Throws-bind (get_pod to uint 0) (λ n. get_elements inn insert n old)
          (big_bytes 4 (length vs)) (concat_map bytes vs) (length vs)
          (get_pod-Reads to uint (length vs) 0 fits) (get_pod-Throws to uint (length vs) 0)
          (get_elements-Throws insert vs old f)

    pub get_array-Reads :
        (vs olds : List A)
        → All Fits vs
        → length vs < 2 ^ 32
        → length olds ≡ length vs
        → Reads (get_array to inn olds) (container_bytes bytes vs) (merge_each olds vs)
    unfolding get_array
    get_array-Reads vs olds f fits e =
        Reads-bind (get_pod to uint 0) (λ n. get_each inn olds) (big_bytes 4 (length vs))
          (concat_map bytes vs) (length vs) (merge_each olds vs)
          (get_pod-Reads to uint (length vs) 0 fits) (get_each-Reads vs olds f e)

    pub get_array-Throws :
        (vs olds : List A)
        → All Fits vs
        → length vs < 2 ^ 32
        → length olds ≡ length vs
        → Throws (get_array to inn olds) (container_bytes bytes vs)
    unfolding get_array
    get_array-Throws vs olds f fits e =
        Throws-bind (get_pod to uint 0) (λ n. get_each inn olds) (big_bytes 4 (length vs))
          (concat_map bytes vs) (length vs) (get_pod-Reads to uint (length vs) 0 fits)
          (get_pod-Throws to uint (length vs) 0) (get_each-Throws vs olds f e)

  module _ (from : Host) where
    pub put_container-Writes :
        (vs : List A)
        → All Fits vs
        → length vs < 2 ^ 32
        → Writes (put_container from out) (container_bytes bytes) vs
    unfolding put_container
    put_container-Writes vs f fits s = rw (mod_small (length vs) fits) (
        put_elements-Writes vs f (put_pod from uint (length vs) s)
        ∙ rw (put_pod-Writes from uint (length vs) fits s)
            (write-write s (big_bytes 4 (length vs)) (concat_map bytes vs)))

    pub put_array-Writes :
        (vs : List A)
        → All Fits vs
        → length vs < 2 ^ 32
        → Writes (put_array from out) (container_bytes bytes) vs
    unfolding put_array put_container
    put_array-Writes vs f fits = put_container-Writes vs f fits
