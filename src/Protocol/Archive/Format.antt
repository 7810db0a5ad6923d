-- ===== src/Protocol/Archive/Format.antt =====
-- The bytes on the wire, described apart from the code, and what it means that an overload of
-- `operator&` keeps to them. The writer and the reader may run on different machines.
use tiny_rpc.Prelude.{ℕ, ◌≡◌, refl, List, [], ◌∷◌, ◌++◌, length, ◌⊎◌, inl, inr, append_assoc, ◌∙◌}
use tiny_rpc.Protocol.Endian.Memory.{big_bytes}
use tiny_rpc.Protocol.Stream.{Stream, good, bad, write}
use tiny_rpc.Protocol.Archive.{Archive}
use tiny_rpc.Protocol.Archive.BuiltIn.{Pod, sizeof}
use tiny_rpc.Protocol.Archive.Throwing.{ok, malformed, Reader, ◌>>=◌, >>=-ok, >>=-malformed}

-- A number is written with its highest byte first.
abbrev pub pod_bytes : Pod → ℕ → List ℕ
pod_bytes p v = big_bytes (sizeof p) v

abbrev pub concat_map {ℓ} : {A : Type ℓ} → (A → List ℕ) → List A → List ℕ
concat_map f [] = []
concat_map f (x ∷ xs) = f x ++ concat_map f xs

-- A container: the count in four bytes, and the elements in their order.
abbrev pub container_bytes {ℓ} : {A : Type ℓ} → (A → List ℕ) → List A → List ℕ
container_bytes f xs = big_bytes 4 (length xs) ++ concat_map f xs

abbrev pub string_bytes : List ℕ → List ℕ
string_bytes v = big_bytes 4 (length v) ++ v

-- A writer appends the bytes of the value to its stream.
abbrev pub Writes {ℓ} : {A : Type ℓ} → (A → Stream → Stream) → (A → List ℕ) → A → Type 0
Writes put f v = (s : Stream) → put v s ≡ write s (f v)

-- A reader takes exactly these bytes and returns the value.
abbrev pub Reads {ℓ} : {A : Type ℓ} → Reader A → List ℕ → A → Type ℓ
Reads get bs v = (rest : List ℕ) → get (good (bs ++ rest)) ≡ ok v (good rest)

-- On a proper prefix of these bytes it throws.
abbrev pub Throws {ℓ} : {A : Type ℓ} → Reader A → List ℕ → Type ℓ
Throws get bs =
    (front back : List ℕ) (x : ℕ) → bs ≡ front ++ (x ∷ back) → get (good front) ≡ malformed bad

-- The contract of an overload, on the values that fit. `merge old v` is the object that held `old`
-- after `v` has been read into it.
pub record Lawful {ℓ} {A : Type ℓ} (out inn : Archive A) (bytes : A → List ℕ) (Fits : A → Type 0)
    (merge : A → A → A) : Type ℓ where
  pub writes : (v : A) → Fits v → Writes out.put bytes v
  pub reads : (v : A) → Fits v → (old : A) → Reads (inn.get old) (bytes v) (merge old v)
  pub throws : (v : A) → Fits v → (old : A) → Throws (inn.get old) (bytes v)
  pub merges : (v : A) → Fits v → merge inn.initial v ≡ v

-- A cut of two joined pieces falls into the first, or behind it.
pub cut-append :
    (a b front back : List ℕ) (x : ℕ)
    → a ++ b ≡ front ++ (x ∷ back)
    → ((t : List ℕ) × (y : ℕ) × (a ≡ front ++ (y ∷ t)))
      ⊎ ((t : List ℕ) × (front ≡ a ++ t) × (b ≡ t ++ (x ∷ back)))
cut-append [] b front back x e = inr (front, refl, e)
cut-append (y ∷ a) b [] back x e = inl (a, y, refl)
cut-append (y ∷ a) b (z ∷ front) back x e = elim (cut-append a b front back x (cc)) [
  | inl (t, w, p) ↦ inl (t, w, cc)
  | inr (t, p, q) ↦ inr (t, cc, q)
]

-- Readers in a row.
module _ {ℓ κ} {A : Type ℓ} {B : Type κ} (m : Reader A) (f : A → Reader B) where
  pub Reads-bind :
      (bs cs : List ℕ) (a : A) (b : B)
      → Reads m bs a
      → Reads (f a) cs b
      → Reads (m >>= f) (bs ++ cs) b
  Reads-bind bs cs a b hm hf rest =
      rw (append_assoc bs cs rest) (>>=-ok m f (hm (cs ++ rest)) ∙ hf rest)

  pub Throws-bind :
      (bs cs : List ℕ) (a : A)
      → Reads m bs a
      → Throws m bs
      → Throws (f a) cs
      → Throws (m >>= f) (bs ++ cs)
  Throws-bind bs cs a hm tm tf front back x e = elim (cut-append bs cs front back x e) [
    | inl (t, y, p) ↦ >>=-malformed m f (tm front t y p)
    | inr (t, p, q) ↦ rw p (>>=-ok m f (hm t) ∙ tf t back x q)
  ]
