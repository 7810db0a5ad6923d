-- ===== src/Common/Grisu/Powers.antt =====
-- common/string.hpp, GetCachedPower: how near the table's entries are to the powers of ten.
use tiny_rpc.Prelude.{
  ℕ, zero, suc, ◌+◌, ◌*◌, ◌/◌, ◌^◌, ◌≤◌, ◌<◌, ◌≡◌, refl, arith, Bool, true, false, ◌&&◌, List, [],
  ◌∷◌, some, leb, ltb, get_elem?, length, subst,
}
use tiny_rpc.Prelude.Int.{ℤ, pos, pos_part, neg_part, ◌-ℤ◌}
use tiny_rpc.Common.Grisu.{DiyFp, get_cached_power}
use tiny_rpc.Common.Grisu.Table.{cached_powers_f, cached_powers_e}

-- c = f * 2 ^ e lies within half a unit of its last place of 10 ^ -k: both numbers are multiplied
-- by the powers in their denominators.
abbrev pub scaled : DiyFp → ℤ → ℕ
scaled c k = c.f * 2 ^ pos_part c.e * 10 ^ pos_part k

abbrev pub power : DiyFp → ℤ → ℕ
power c k = 10 ^ neg_part k * 2 ^ neg_part c.e

abbrev pub unit_in_last_place : DiyFp → ℤ → ℕ
unit_in_last_place c k = 2 ^ pos_part c.e * 10 ^ pos_part k

pub record IsNearest (c : DiyFp) (k : ℤ) : Type 0 where
  pub normal : (2 ^ 63 ≤ c.f) × (c.f < 2 ^ 64)
  pub above : 2 * scaled c k ≤ 2 * power c k + unit_in_last_place c k
  pub below : 2 * power c k ≤ 2 * scaled c k + unit_in_last_place c k

is_nearest : DiyFp → ℤ → Bool
is_nearest c k =
    (leb (2 ^ 63) c.f && ltb c.f (2 ^ 64))
    && (leb (2 * scaled c k) (2 * power c k + unit_in_last_place c k)
        && leb (2 * power c k) (2 * scaled c k + unit_in_last_place c k))

is_nearest_sound : (c : DiyFp) (k : ℤ) → is_nearest c k ≡ true → IsNearest c k
unfolding is_nearest
is_nearest_sound c k h = ground arith

all_nearest : ℕ → List ℕ → List ℤ → Bool
all_nearest i [] es = true
all_nearest i (f ∷ fs) [] = false
all_nearest i (f ∷ fs) (e ∷ es) =
    is_nearest (record { f = f; e = e }) (pos 348 -ℤ pos (i * 2 ^ 3)) && all_nearest (suc i) fs es

table_checked : all_nearest 0 cached_powers_f cached_powers_e ≡ true
unfolding all_nearest is_nearest
table_checked = refl

entry-IsNearest :
    (fs : List ℕ) (es : List ℤ) (i j : ℕ)
    → all_nearest i fs es ≡ true
    → j < length fs
    → (f : ℕ) × (e : ℤ) × (get_elem? fs j ≡ some f)
      × (get_elem? es j ≡ some e)
      × IsNearest (record { f = f; e = e }) (pos 348 -ℤ pos ((i + j) * 2 ^ 3))
unfolding all_nearest
entry-IsNearest [] es i j h l = absurd (omega arith)
entry-IsNearest (f ∷ fs) [] i j h l = absurd (cc)
entry-IsNearest (f ∷ fs) (e ∷ es) i zero h l =
    let here : i + 0 ≡ i = omega arith in
    (
      f,
      e,
      refl,
      refl,
      rw here
          (is_nearest_sound (record { f = f; e = e }) (pos 348 -ℤ pos (i * 2 ^ 3)) (ground arith)),
    )
entry-IsNearest (f ∷ fs) (e ∷ es) i (suc j) h l =
    let there : i + suc j ≡ suc i + j = omega arith in
    rw there (entry-IsNearest fs es (suc i) j (ground arith) (omega arith))

-- Where the index is inside the table, `GetCachedPower` returns a power c and a number K such that
-- c is 10 ^ -K rounded to the nearest normal 64-bit significand.
pub get_cached_power_lem :
    (ceil_dk : ℤ → ℕ) (e : ℤ)
    → ceil_dk e < 688
    → (c : DiyFp) × (k : ℤ) × (get_cached_power ceil_dk e ≡ some (c, k)) × IsNearest c k
unfolding get_cached_power
get_cached_power_lem ceil_dk e h =
    let index = ceil_dk e / 2 ^ 3 + 1 in
    let (f, e', at_f, at_e, near) =
      entry-IsNearest cached_powers_f cached_powers_e 0 index table_checked (omega arith) in
    let same : 0 + index ≡ index = omega arith in
    (
      record { f = f; e = e' },
      pos 348 -ℤ pos (index * 2 ^ 3),
      rw (at_f, at_e) refl,
      subst (λ n. IsNearest (record { f = f; e = e' }) (pos 348 -ℤ pos (n * 2 ^ 3))) same near,
    )
