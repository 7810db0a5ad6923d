-- ===== src/Protocol/Stream.antt =====
-- The byte stream under a codec, as the code uses it: a std::stringstream. `unread` is what a read
-- will return next; `failed` is the stream's failbit, after which reads and writes do nothing.
use tiny_rpc.Prelude.{
  ℕ, ◌<◌, ◌≡◌, refl, arith, Bool, true, false, List, [], ◌++◌, leb, if◌then◌else◌, length, take,
  drop, take-append, drop-append, length-append, append-nil, append_assoc,
}

pub record Stream : Type 0 where
  pub unread : List ℕ
  pub failed : Bool

abbrev pub good : List ℕ → Stream
good bs = record { unread = bs; failed = false }

abbrev pub bad : Stream
bad = record { unread = []; failed = true }

unfoldable pub write : Stream → List ℕ → Stream
write s bs = if s.failed then s else record s { unread = s.unread ++ bs }

-- A short read takes what there is and sets the failbit.
unfoldable pub read : Stream → ℕ → List ℕ × Stream
read s n =
    if s.failed
    then ([], s)
    else if leb n (length s.unread)
    then (take n s.unread, record s { unread = drop n s.unread })
    else (s.unread, bad)

pub write-good : (old bs : List ℕ) → write (good old) bs ≡ good (old ++ bs)
unfolding write
write-good old bs = refl

pub write-write : (s : Stream) (a b : List ℕ) → write (write s a) b ≡ write s (a ++ b)
unfolding write
write-write s a b = ground (arith, append_assoc s.unread a b)

pub write-nil : (s : Stream) → write s [] ≡ s
unfolding write
write-nil s = ground (arith, append-nil s.unread)

pub read_prefix :
    (bs rest : List ℕ) (n : ℕ) → length bs ≡ n → read (good (bs ++ rest)) n ≡ (bs, good rest)
unfolding read
read_prefix bs rest n e =
    ground (arith, take-append bs rest n e, drop-append bs rest n e, length-append bs rest)

pub read_short : (bs : List ℕ) (n : ℕ) → length bs < n → read (good bs) n ≡ (bs, bad)
unfolding read
read_short bs n h = ground arith
