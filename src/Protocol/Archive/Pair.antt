-- ===== src/Protocol/Archive/Pair.antt =====
-- protocol/archive.hpp: std::pair, and the contract of its two components.
use tiny_rpc.Prelude.{ℕ, ap₂, ◌∙◌, List, ◌++◌}
use tiny_rpc.Protocol.Stream.{write-write}
use tiny_rpc.Protocol.Archive.{Archive, put_pair, get_pair, pair_archive}
use tiny_rpc.Protocol.Archive.Format.{Lawful, Writes, Reads, Throws, Reads-bind, Throws-bind}
use tiny_rpc.Protocol.Archive.Primitive.{Reads-map, Throws-map}
use tiny_rpc.Protocol.Archive.Throwing.{pure, ◌>>=◌}

module _ {ℓ κ} {A : Type ℓ} {B : Type κ} {out₁ inn₁ : Archive A} {out₂ inn₂ : Archive B}
    {bytes₁ : A → List ℕ} {bytes₂ : B → List ℕ} {Fits₁ : A → Type 0} {Fits₂ : B → Type 0}
    {merge₁ : A → A → A} {merge₂ : B → B → B} (first : Lawful out₁ inn₁ bytes₁ Fits₁ merge₁)
    (second : Lawful out₂ inn₂ bytes₂ Fits₂ merge₂) where
  abbrev pub pair_bytes : A × B → List ℕ
  pair_bytes v = bytes₁ v.0 ++ bytes₂ v.1

  abbrev pub PairFits : A × B → Type 0
  PairFits v = Fits₁ v.0 × Fits₂ v.1

  abbrev pub merge_pair : A × B → A × B → A × B
  merge_pair old v = (merge₁ old.0 v.0, merge₂ old.1 v.1)

  put_pair-Writes : (v : A × B) → PairFits v → Writes (put_pair out₁ out₂) pair_bytes v
  unfolding put_pair
  put_pair-Writes (x, y) f s =
      second.writes y f.1 (out₁.put x s)
      ∙ rw (first.writes x f.0 s) (write-write s (bytes₁ x) (bytes₂ y))

  get_pair-Reads :
      (v : A × B)
      → PairFits v
      → (old : A × B) → Reads (get_pair inn₁ inn₂ old) (pair_bytes v) (merge_pair old v)
  unfolding get_pair
  get_pair-Reads (x, y) f old =
      Reads-bind (inn₁.get old.0) (λ a. inn₂.get old.1 >>= λ b. pure (a, b)) (bytes₁ x) (bytes₂ y)
        (merge₁ old.0 x) (merge_pair old (x, y)) (first.reads x f.0 old.0)
        (Reads-map (inn₂.get old.1) (λ b. (merge₁ old.0 x, b)) (bytes₂ y) (merge₂ old.1 y)
          (second.reads y f.1 old.1))

  get_pair-Throws :
      (v : A × B) → PairFits v → (old : A × B) → Throws (get_pair inn₁ inn₂ old) (pair_bytes v)
  unfolding get_pair
  get_pair-Throws (x, y) f old =
      Throws-bind (inn₁.get old.0) (λ a. inn₂.get old.1 >>= λ b. pure (a, b)) (bytes₁ x) (bytes₂ y)
        (merge₁ old.0 x) (first.reads x f.0 old.0) (first.throws x f.0 old.0)
        (Throws-map (inn₂.get old.1) (λ b. (merge₁ old.0 x, b)) (bytes₂ y)
          (second.throws y f.1 old.1))

  pub pair-Lawful :
      Lawful (pair_archive out₁ out₂) (pair_archive inn₁ inn₂) pair_bytes PairFits merge_pair
  pair-Lawful = record {
    writes = put_pair-Writes;
    reads = get_pair-Reads;
    throws = get_pair-Throws;
    merges = λ v f. ap₂ (λ a b. (a, b)) (first.merges v.0 f.0) (second.merges v.1 f.1);
  }
