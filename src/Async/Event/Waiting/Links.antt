-- ===== src/Async/Event/Waiting/Links.antt =====
-- Words of an event, and the awaiters that are linked from an address.
use tiny_rpc.Prelude.{ℕ, ◌≡◌, refl, sym, ap, ◌∙◌, arith, true, Option, none, some, [], ◌∷◌}
use tiny_rpc.Async.Event.{Ptr, Awaiter, Store, Word, this, head}
use tiny_rpc.Async.Event.Chain.{Cells, has, first, awaiter, Linked}
use tiny_rpc.Async.Event.Waiting.{same_word}

pub word_head : (w : Word) (r : Ptr) → same_word w (head r) ≡ true → w ≡ head r
word_head this r e = absurd (cc)
word_head (head p) r e = ground arith

pub head_path : {p r : Ptr} → head p ≡ head r → p ≡ r
head_path e = cc

pub next_path : {c d : ℕ} {p r : Ptr} → some (awaiter c p) ≡ some (awaiter d r) → p ≡ r
next_path e = cc

-- Two lists of awaiters that are linked from the same address are the same list.
pub Linked-unique :
    (store : Store) (cells others : Cells)
    → Linked store cells
    → Linked store others
    → first cells ≡ first others
    → (q : Ptr) → has q cells ≡ has q others
Linked-unique store [] [] l m e q = refl
Linked-unique store [] ((r, d) ∷ others) l m e q = absurd (m.0 (sym e))
Linked-unique store ((p, c) ∷ cells) [] l m e q = absurd (l.0 e)
Linked-unique store ((p, c) ∷ cells) ((r, d) ∷ others) l m e q =
    ground
      (arith, Linked-unique store cells others l.3 m.3 (next_path (sym l.1 ∙ ap store e ∙ m.1)) q)

abbrev pub next_of : Option Awaiter → Option Ptr
next_of none = none
next_of (some a) = some a.next

pub next_of-some :
    (o : Option Awaiter) (r : Ptr)
    → next_of o ≡ some r
    → (a : Awaiter) × (o ≡ some a) × (a.next ≡ r)
next_of-some none r e = absurd (cc)
next_of-some (some a) r e = (a, refl, cc)
