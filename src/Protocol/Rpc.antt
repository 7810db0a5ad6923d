-- ===== src/Protocol/Rpc.antt =====
-- protocol/schema.hpp and protocol/rpc.hpp: the fields that `message` exports of a struct, the loop
-- over them, and the body that the macro `rpc` gives to a remote procedure.
pub mod Exchange
use tiny_rpc.Prelude.{List, [], ◌∷◌, Option}
use Prim.Native.String.{String}
use tiny_rpc.Protocol.Endian.Memory.{Host}
use tiny_rpc.Protocol.Stream.{Stream}
use tiny_rpc.Protocol.Archive.{Archive}
use tiny_rpc.Protocol.Archive.Throwing.{Outcome, ok, malformed, stuck, Reader, ◌>>=◌, pure}
use tiny_rpc.Protocol.Factory.{ConstructorMap, create}

-- `export(field)`: the name and the pointer to the member, as a way to read and to write it, with
-- the overload of `operator&` for the member's type on each machine.
pub record Field (S : Type 0) : Type 1 where
  pub Value : Type 0
  pub name : String
  pub load : S → Value
  pub store : S → Value → S
  pub archive : Host → Archive Value

module _ {S : Type 0} where
  -- `for_each(resp, [&](auto&&, auto&& value) { codec << value; })`.
  unfoldable pub for_each_put : Host → List (Field S) → S → Stream → Stream
  for_each_put h [] obj s = s
  for_each_put h (f ∷ fs) obj s = for_each_put h fs obj ((f.archive h).put (f.load obj) s)

  -- `for_each(req, [&](auto&&, auto&& value) { codec >> value; })`.
  unfoldable pub for_each_get : Host → List (Field S) → S → Reader S
  for_each_get h [] obj = pure obj
  for_each_get h (f ∷ fs) obj = do
    v ← (f.archive h).get (f.load obj)
    for_each_get h fs (f.store obj v)

-- `rpc(request, response, handler, codec)`: the struct `__remote__handler`.
pub record Procedure (Request Response : Type 0) : Type 1 where
  pub request : List (Field Request)
  pub response : List (Field Response)
  -- `request req;`
  pub fresh : Request
  pub handler : Request → Response

module _ {Request Response : Type 0} (h : Host) (p : Procedure Request Response) where
  unfoldable pub call : Reader (Unit {0})
  call = do
    req ← for_each_get h p.request p.fresh
    λ s. pure tt (for_each_put h p.response (p.handler req) s)

-- `dispatch(method_str, codec)`: the null pointer if the name is not registered.
unfoldable pub dispatch : String → ConstructorMap (Reader (Unit {0})) → Option (Reader (Unit {0}))
dispatch method m = create method m
