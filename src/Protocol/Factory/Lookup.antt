-- ===== src/Protocol/Factory/Lookup.antt =====
-- protocol/factory.hpp: what `create` finds after `set`.
use tiny_rpc.Prelude.{◌≡◌, refl, [], ◌∷◌, some, if◌then◌else◌, arith}
use text.Mathlib.Text.{◌==◌}
use text.Mathlib.TextEquality.{eq_iff}
use Prim.Native.String.{String}
use tiny_rpc.Protocol.Factory.{
  Constructor, ConstructorMap, find, set_constructor, create, register_class,
}

module _ {ℓ} {O : Type ℓ} where
  pub find-set_constructor :
      (k name : String) (c : Constructor O) (m : ConstructorMap O)
      → find k (set_constructor name c m) ≡ (if name == k then some c else find k m)
  unfolding find set_constructor
  find-set_constructor k name c [] = refl
  find-set_constructor k name c ((n, d) ∷ m) =
      ground (arith, eq_iff name k, eq_iff n name, eq_iff n k, find-set_constructor k name c m)

  -- After a registration `create` of that name calls the constructor that was registered last, and
  -- `create` of any other name does what it did before.
  pub create-register_class :
      (k name : String) (new : Unit {0} → O) (m : ConstructorMap O)
      → create k (register_class name new m) ≡ (if name == k then some (new tt) else create k m)
  unfolding create register_class
  create-register_class k name new m =
      ground (arith, find-set_constructor k name (some new) m, eq_iff name k)
