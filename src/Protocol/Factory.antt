-- ===== src/Protocol/Factory.antt =====
-- protocol/factory.hpp: the registry of constructors by class name, and `register_class`.
-- A constructor is what the code calls through a function pointer; it may be null.
pub mod Lookup
use tiny_rpc.Prelude.{List, [], ◌∷◌, Option, none, some, if◌then◌else◌}
use text.Mathlib.Text.{◌==◌}
use Prim.Native.String.{String}

abbrev pub Constructor {ℓ} : Type ℓ → Type ℓ
Constructor O = Option (Unit {0} → O)

-- `constructorMap()`, in the order of insertion, which no operation shows.
abbrev pub ConstructorMap {ℓ} : Type ℓ → Type ℓ
ConstructorMap O = List (String × Constructor O)

module _ {ℓ} {O : Type ℓ} where
  unfoldable pub find : String → ConstructorMap O → Option (Constructor O)
  find name [] = none
  find name ((n, c) ∷ m) = if n == name then some c else find name m

  -- `constructorMap()[name] = constructor`.
  unfoldable pub set_constructor : String → Constructor O → ConstructorMap O → ConstructorMap O
  set_constructor name c [] = (name, c) ∷ []
  set_constructor name c ((n, d) ∷ m) =
      if n == name then (n, c) ∷ m else (n, d) ∷ set_constructor name c m

  -- `none` is the null pointer: the name is unknown, or its constructor is null.
  unfoldable pub create : String → ConstructorMap O → Option O
  create name m = elim (find name m) [
    | none ↦ none
    | some c ↦ elim c [ none ↦ none | some f ↦ some (f tt) ]
  ]

  -- `register_class(class_name, class_type)`: a static object registers `new class_type`.
  unfoldable pub register_class : String → (Unit {0} → O) → ConstructorMap O → ConstructorMap O
  register_class name new m = set_constructor name (some new) m
