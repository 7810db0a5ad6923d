-- ===== src/Protocol/Rpc/Exchange.antt =====
-- protocol/rpc.hpp: a request written by a client, the procedure called on it by a server, and the
-- answer read by the client, the two on machines of either byte order.
use tiny_rpc.Prelude.{ℕ, ◌≡◌, refl, sym, ap, ◌∙◌, List, [], ◌∷◌, ◌++◌, append-nil}
use tiny_rpc.Protocol.Endian.Memory.{Host}
use tiny_rpc.Protocol.Stream.{Stream, good, bad, write-write, write-nil, write-good}
use tiny_rpc.Protocol.Rpc.{Field, for_each_put, for_each_get, Procedure, call}
use tiny_rpc.Protocol.Archive.Format.{Lawful, Writes, Reads, Throws, Reads-bind, Throws-bind}
use tiny_rpc.Protocol.Archive.Primitive.{pure-Throws}
use tiny_rpc.Protocol.Archive.RoundTrip.{written}
use tiny_rpc.Protocol.Archive.Throwing.{ok, malformed, Reader, pure, ◌>>=◌, >>=-ok, >>=-malformed}

-- A field whose type's overload keeps to the wire format.
pub record LawfulField (S : Type 0) : Type 1 where
  pub field : Field S
  pub open field use *
  pub bytes : Value → List ℕ
  pub Fits : Value → Type 0
  pub merge : Value → Value → Value
  pub law : (from to : Host) → Lawful (archive from) (archive to) bytes Fits merge

module _ {S : Type 0} where
  abbrev pub fields : List (LawfulField S) → List (Field S)
  fields [] = []
  fields (f ∷ fs) = f.field ∷ fields fs

  -- The message: the fields' bytes in the order of `message`, with nothing between them.
  abbrev pub struct_bytes : List (LawfulField S) → S → List ℕ
  struct_bytes [] obj = []
  struct_bytes (f ∷ fs) obj = f.bytes (f.load obj) ++ struct_bytes fs obj

  abbrev pub StructFits : List (LawfulField S) → S → Type 0
  StructFits [] obj = Unit {0}
  StructFits (f ∷ fs) obj = f.Fits (f.load obj) × StructFits fs obj

  -- `into` after the fields of `obj` have been read into it.
  abbrev pub transfer : List (LawfulField S) → S → S → S
  transfer [] into obj = into
  transfer (f ∷ fs) into obj = transfer fs (f.store into (f.merge (f.load into) (f.load obj))) obj

  pub for_each_put-Writes :
      (h : Host) (fs : List (LawfulField S)) (obj : S)
      → StructFits fs obj
      → Writes (for_each_put h (fields fs)) (struct_bytes fs) obj
  unfolding for_each_put
  for_each_put-Writes h [] obj ok_fields s = sym (write-nil s)
  for_each_put-Writes h (f ∷ fs) obj ok_fields s =
      for_each_put-Writes h fs obj ok_fields.1 ((f.archive h).put (f.load obj) s)
      ∙ rw ((f.law h h).writes (f.load obj) ok_fields.0 s)
          (write-write s (f.bytes (f.load obj)) (struct_bytes fs obj))

  pub for_each_get-Reads :
      (h : Host) (fs : List (LawfulField S)) (obj into : S)
      → StructFits fs obj
      → Reads (for_each_get h (fields fs) into) (struct_bytes fs obj) (transfer fs into obj)
  unfolding for_each_get
  for_each_get-Reads h [] obj into ok_fields = λ rest. refl
  for_each_get-Reads h (f ∷ fs) obj into ok_fields =
      let now = f.merge (f.load into) (f.load obj) in
      Reads-bind ((f.archive h).get (f.load into))
        (λ v. for_each_get h (fields fs) (f.store into v)) (f.bytes (f.load obj))
        (struct_bytes fs obj) now (transfer fs (f.store into now) obj)
        ((f.law h h).reads (f.load obj) ok_fields.0 (f.load into))
        (for_each_get-Reads h fs obj (f.store into now) ok_fields.1)

  pub for_each_get-Throws :
      (h : Host) (fs : List (LawfulField S)) (obj into : S)
      → StructFits fs obj
      → Throws (for_each_get h (fields fs) into) (struct_bytes fs obj)
  unfolding for_each_get
  for_each_get-Throws h [] obj into ok_fields = pure-Throws into
  for_each_get-Throws h (f ∷ fs) obj into ok_fields =
      let now = f.merge (f.load into) (f.load obj) in
      Throws-bind ((f.archive h).get (f.load into))
        (λ v. for_each_get h (fields fs) (f.store into v)) (f.bytes (f.load obj))
        (struct_bytes fs obj) now ((f.law h h).reads (f.load obj) ok_fields.0 (f.load into))
        ((f.law h h).throws (f.load obj) ok_fields.0 (f.load into))
        (for_each_get-Throws h fs obj (f.store into now) ok_fields.1)

written-for_each_put :
    {S : Type 0} (h : Host) (fs : List (LawfulField S)) (obj : S)
    → StructFits fs obj
    → written (for_each_put h (fields fs) obj) ≡ struct_bytes fs obj
written-for_each_put h fs obj f =
    ap (λ (s : Stream). s.unread)
      (for_each_put-Writes h fs obj f (good []) ∙ write-good [] (struct_bytes fs obj))

module _ {Request Response : Type 0} (request : List (LawfulField Request))
    (response : List (LawfulField Response)) (fresh : Request) (handler : Request → Response) where
  -- The procedure that `rpc` declares for these structs and this handler.
  abbrev pub procedure : Procedure Request Response
  procedure = record {
    request = fields request;
    response = fields response;
    fresh = fresh;
    handler = handler;
  }

  -- Called on a request that a client wrote, the procedure takes it whole from the stream and
  -- leaves the handler's answer there. `transfer request fresh r ≡ r` says that the fields make
  -- up the struct, so that reading them all into a fresh object gives `r`.
  pub call_lem :
      (client server : Host) (r : Request)
      → StructFits request r
      → transfer request fresh r ≡ r
      → StructFits response (handler r)
      → call server procedure (good (written (for_each_put client (fields request) r)))
        ≡ ok tt (good (written (for_each_put server (fields response) (handler r))))
  unfolding call
  call_lem client server r fits whole answer_fits =
      rw (written-for_each_put client request r fits, ← append-nil (struct_bytes request r))
        (>>=-ok (for_each_get server (fields request) fresh) answer
            (for_each_get-Reads server request r fresh fits [] ∙ ap (λ t. ok t (good [])) whole)
          ∙ ap (ok tt) (
              for_each_put-Writes server response (handler r) answer_fits (good [])
              ∙ rw (written-for_each_put server response (handler r) answer_fits)
                  (write-good [] _)))
    where
      answer : Request → Reader (Unit {0})
      answer req s = pure tt (for_each_put server (fields response) (handler req) s)

  -- The whole exchange: if request and answer fit the wire format and their fields make up the
  -- structs, a call on the written request leaves an answer from which the client reads exactly
  -- what the handler returned, and nothing is left on the stream.
  pub exchange :
      (client server : Host) (r : Request) (into : Response)
      → StructFits request r
      → transfer request fresh r ≡ r
      → StructFits response (handler r)
      → transfer response into (handler r) ≡ handler r
      → (call server procedure >>= λ u. for_each_get client (fields response) into)
          (good (written (for_each_put client (fields request) r)))
        ≡ ok (handler r) (good [])
  exchange client server r into fits whole answer_fits answer_whole =
      >>=-ok (call server procedure) (λ u. for_each_get client (fields response) into)
        (call_lem client server r fits whole answer_fits)
      ∙ rw
          (
            written-for_each_put server response (handler r) answer_fits,
            ← append-nil (struct_bytes response (handler r)),
          )
          (for_each_get-Reads client response (handler r) into answer_fits []
            ∙ ap (λ t. ok t (good [])) answer_whole)

  -- On a request that fits the wire format and is cut short anywhere the procedure throws, and
  -- writes no answer.
  pub call_truncated :
      (client server : Host) (r : Request) (front back : List ℕ) (x : ℕ)
      → StructFits request r
      → written (for_each_put client (fields request) r) ≡ front ++ (x ∷ back)
      → call server procedure (good front) ≡ malformed bad
  unfolding call
  call_truncated client server r front back x fits e =
      >>=-malformed (for_each_get server (fields request) fresh)
        (λ req s. pure tt (for_each_put server (fields response) (handler req) s))
        (for_each_get-Throws server request r fresh fits front back x
          (sym (written-for_each_put client request r fits) ∙ e))
