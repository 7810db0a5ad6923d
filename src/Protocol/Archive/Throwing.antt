-- ===== src/Protocol/Archive/Throwing.antt =====
-- The outcome of a read: a value, the exception, or (no C++ outcome) a loop that ran out of fuel.
use tiny_rpc.Prelude.{◌≡◌, ◌≢◌, refl}
use tiny_rpc.Protocol.Stream.{Stream}

-- The exception leaves the stream as the failed read left it.
pub data Outcome {ℓ} (A : Type ℓ) : Type ℓ where
  ok : A → Stream → Outcome A
  malformed : Stream → Outcome A
  stuck : Outcome A

abbrev pub Reader {ℓ} : Type ℓ → Type ℓ
Reader A = Stream → Outcome A

abbrev pub pure {ℓ} : {A : Type ℓ} → A → Reader A
pure a s = ok a s

infixl 5 ◌>>=◌
abbrev pub ◌>>=◌ {ℓ κ} : {A : Type ℓ} {B : Type κ} → Reader A → (A → Reader B) → Reader B
◌>>=◌ m f s = elim (m s) [ ok a s' ↦ f a s' | malformed s' ↦ malformed s' | stuck ↦ stuck ]

-- The parts of a chain, one at a time.
module _ {ℓ κ} {A : Type ℓ} {B : Type κ} (m : Reader A) (f : A → Reader B) {s : Stream} where
  pub >>=-ok : {a : A} {s' : Stream} → m s ≡ ok a s' → (m >>= f) s ≡ f a s'
  >>=-ok e = rw (e, ◌>>=◌)

  pub >>=-malformed : {s' : Stream} → m s ≡ malformed s' → (m >>= f) s ≡ malformed s'
  >>=-malformed e = rw (e, ◌>>=◌)

pub >>=-ne-stuck {ℓ κ} :
    {A : Type ℓ} {B : Type κ} (m : Reader A) (f : A → Reader B) (s : Stream)
    → m s ≢ stuck
    → ((a : A) (s' : Stream) → f a s' ≢ stuck)
    → (m >>= f) s ≢ stuck
>>=-ne-stuck {A} {B} m f s hm hf e = ends (m s) hm e
  where
    ends :
        (r : Outcome A)
        → r ≢ stuck
        → ¬ (
            elim r as (λ _. Outcome B) [
              | ok a s' ↦ f a s'
              | malformed s' ↦ malformed s'
              | stuck ↦ stuck
            ]
            ≡ stuck)
    ends (ok a s') n q = hf a s' q
    ends (malformed s') n q = cc
    ends stuck n q = n refl
