-- ===== src/Protocol/Archive/Instances.antt =====
-- The contract for strings and containers, so that it passes on to containers of containers.
use tiny_rpc.Prelude.{ℕ, ◌<◌, ◌^◌, ◌≡◌, refl, List, [], length, All, Bool}
use mathlib.Core.List.{foldl}
use tiny_rpc.Protocol.Endian.Memory.{Host}
use tiny_rpc.Protocol.Archive.{Archive, container_archive, string_archive}
use tiny_rpc.Protocol.Archive.Containers.{
  push_end, insert_unique, insert_equal, IsAscending, IsNondescending, foldl-push_end,
  foldl-insert_unique, foldl-insert_equal,
}
use tiny_rpc.Protocol.Archive.Format.{Lawful, container_bytes, string_bytes}
use tiny_rpc.Protocol.Archive.Sequence.{
  put_container-Writes, get_container-Reads, get_container-Throws,
}
use tiny_rpc.Protocol.Archive.Text.{put_string-Writes, get_string-Reads, get_string-Throws}

pub string-Lawful :
    (from to : Host)
    → Lawful
        (string_archive from)
        (string_archive to)
        string_bytes
        (λ v. length v < 2 ^ 32)
        (λ old v. v)
string-Lawful from to = record {
  writes = put_string-Writes from;
  reads = λ v f old. get_string-Reads to v old f;
  throws = λ v f old. get_string-Throws to v old f;
  merges = λ v f. refl;
}

module _ {ℓ} {A : Type ℓ} {out inn : Archive A} {bytes : A → List ℕ} {Fits : A → Type 0}
    {merge : A → A → A} (law : Lawful out inn bytes Fits merge) (from to : Host) where
  abbrev pub ContainerFits : (List A → Type 0) → List A → Type 0
  ContainerFits Sorted vs = All Fits vs × (length vs < 2 ^ 32) × Sorted vs

  -- A container that keeps the order of what it writes is rebuilt by its insertions.
  container-Lawful :
      (insert : List A → A → List A) (Sorted : List A → Type 0)
      → ((vs : List A) → Sorted vs → foldl insert [] vs ≡ vs)
      → Lawful
          (container_archive from out insert)
          (container_archive to inn insert)
          (container_bytes bytes)
          (ContainerFits Sorted)
          (foldl insert)
  container-Lawful insert Sorted keep = record {
    writes = λ v f. put_container-Writes law from v f.0 f.1;
    reads = λ v f old. get_container-Reads law to insert v old f.0 f.1;
    throws = λ v f old. get_container-Throws law to insert v old f.0 f.1;
    merges = λ v f. keep v f.2;
  }

  pub vector-Lawful :
      Lawful
        (container_archive from out push_end)
        (container_archive to inn push_end)
        (container_bytes bytes)
        (ContainerFits (λ vs. Unit {0}))
        (foldl push_end)
  vector-Lawful = container-Lawful push_end (λ vs. Unit {0}) (λ vs u. foldl-push_end vs [])

  module _ (less : A → A → Bool) where
    pub set-Lawful :
        Lawful
          (container_archive from out (insert_unique less))
          (container_archive to inn (insert_unique less))
          (container_bytes bytes)
          (ContainerFits (IsAscending less))
          (foldl (insert_unique less))
    set-Lawful = container-Lawful (insert_unique less) (IsAscending less) (foldl-insert_unique less)

    pub multiset-Lawful :
        Lawful
          (container_archive from out (insert_equal less))
          (container_archive to inn (insert_equal less))
          (container_bytes bytes)
          (ContainerFits (IsNondescending less))
          (foldl (insert_equal less))
    multiset-Lawful =
        container-Lawful (insert_equal less) (IsNondescending less) (foldl-insert_equal less)
