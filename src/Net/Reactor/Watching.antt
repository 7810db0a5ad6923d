-- ===== src/Net/Reactor/Watching.antt =====
-- net/reactor.cc: the vector `fds_` beside the kernel's own list of watched descriptors.
use tiny_rpc.Prelude.{
  ℕ, ◌≡◌, refl, sym, ◌∙◌, arith, Bool, true, false, not, ◌&&◌, ◌||◌, List, [], ◌∷◌, ◌++◌, Option,
  none, some, ◌==◌, Bool-cases, inl, inr,
}
use tiny_rpc.Net.Reactor.{
  Reactor, EpollEvent, Operation, ctl_add, ctl_mod, ctl_del, contains, erase_fd,
  add_event_in_loop_thread, del_event_in_loop_thread,
}

abbrev pub IsDistinct : List ℕ → Type 0
IsDistinct [] = Unit {0}
IsDistinct (x ∷ xs) = (contains xs x ≡ false) × IsDistinct xs

pub contains-append :
    (xs ys : List ℕ) (x : ℕ) → contains (xs ++ ys) x ≡ (contains xs x || contains ys x)
contains-append [] ys x = refl
contains-append (y ∷ xs) ys x = ground (arith, contains-append xs ys x)

append-IsDistinct :
    (xs : List ℕ) (x : ℕ) → IsDistinct xs → contains xs x ≡ false → IsDistinct (xs ++ x ∷ [])
append-IsDistinct [] x d e = (refl, tt)
append-IsDistinct (y ∷ xs) x d e =
    (ground (arith, contains-append xs (x ∷ []) y), append-IsDistinct xs x d.1 (ground arith))

-- In a vector without repetitions nothing but the erased descriptor goes.
contains-erase_fd :
    (xs : List ℕ) (fd x : ℕ)
    → IsDistinct xs
    → contains (erase_fd xs fd) x ≡ (not (fd == x) && contains xs x)
unfolding erase_fd
contains-erase_fd [] fd x d = ground arith
contains-erase_fd (y ∷ xs) fd x d = ground (arith, contains-erase_fd xs fd x d.1)

erase_fd-IsDistinct : (xs : List ℕ) (fd : ℕ) → IsDistinct xs → IsDistinct (erase_fd xs fd)
unfolding erase_fd
erase_fd-IsDistinct [] fd d = tt
erase_fd-IsDistinct (y ∷ xs) fd d = elim (Bool-cases (y == fd)) [
  | inl e ↦ rw e d.1
  | inr e ↦ rw e (ground (arith, contains-erase_fd xs fd y d.1), erase_fd-IsDistinct xs fd d.1)
]

module _ {World : Type 0} (epoll_ctl : Operation → ℕ → Option EpollEvent → World → Bool × World)
    (watched : World → ℕ → Bool) where
  -- What the manual of epoll_ctl says: an addition that succeeds makes the descriptor watched, one
  -- that fails changes nothing; a modification leaves the watched descriptors as they are; removing
  -- a watched descriptor takes it away.
  pub record EpollLaws : Type 0 where
    pub adds :
        (fd x : ℕ) (event : Option EpollEvent) (w : World)
        → watched (epoll_ctl ctl_add fd event w).1 x
          ≡ ((epoll_ctl ctl_add fd event w).0 && fd == x || watched w x)
    pub modifies :
        (fd x : ℕ) (event : Option EpollEvent) (w : World)
        → watched (epoll_ctl ctl_mod fd event w).1 x ≡ watched w x
    pub removes :
        (fd x : ℕ) (event : Option EpollEvent) (w : World)
        → watched w fd ≡ true
        → watched (epoll_ctl ctl_del fd event w).1 x ≡ (not (fd == x) && watched w x)

  -- `fds_` has exactly the descriptors that the kernel watches, each once.
  pub record IsMirror {Task : Type 0} (r : Reactor World Task) : Type 0 where
    pub same : (x : ℕ) → contains r.fds x ≡ watched r.world x
    pub once : IsDistinct r.fds

  module _ {Task : Type 0} (laws : EpollLaws) where
    -- If `epoll_ctl` does as its manual says and `fds_` has exactly the watched descriptors, each
    -- once, so it is after `addEventInLoopThread`, whether `epoll_ctl` succeeds or not.
    pub add_event_in_loop_thread-IsMirror :
        (fd : ℕ) (event : EpollEvent) (r : Reactor World Task)
        → IsMirror r
        → IsMirror (add_event_in_loop_thread epoll_ctl fd event r)
    unfolding add_event_in_loop_thread
    add_event_in_loop_thread-IsMirror fd event r m = elim (Bool-cases (contains r.fds fd)) [
      | inl there ↦ record {
        same = λ x. ground (arith, m.same x, laws.modifies fd x (some event) r.world);
        once = ground (arith, m.once);
      }
      | inr new ↦ elim (Bool-cases (epoll_ctl ctl_add fd (some event) r.world).0) [
        | inl done ↦ record {
          same = λ x. ground (
            arith,
            m.same x,
            laws.adds fd x (some event) r.world,
            contains-append r.fds (fd ∷ []) x,
          );
          once = rw (new, done) (append-IsDistinct r.fds fd m.once new);
        }
        | inr failed ↦ record {
          same = λ x. ground (arith, m.same x, laws.adds fd x (some event) r.world);
          once = rw (new, failed) m.once;
        }
      ]
    ]

    -- On the same conditions `delEventInLoopThread` of a descriptor in `fds_` does not fault,
    -- `fds_` has exactly the watched descriptors again, each once, and loses that one only.
    pub del_event_in_loop_thread-IsMirror :
        (fd : ℕ) (r : Reactor World Task)
        → IsMirror r
        → contains r.fds fd ≡ true
        → (r' : Reactor World Task) × (del_event_in_loop_thread epoll_ctl fd r ≡ some r')
          × IsMirror r'
          × ((x : ℕ) → contains r'.fds x ≡ (not (fd == x) && contains r.fds x))
    unfolding del_event_in_loop_thread
    del_event_in_loop_thread-IsMirror fd r m e = (
      record r { fds = erase_fd r.fds fd; world = (epoll_ctl ctl_del fd none r.world).1 },
      rw e refl,
      record {
        same = λ x. ground (
          arith,
          contains-erase_fd r.fds fd x m.once,
          laws.removes fd x none r.world (sym (m.same fd) ∙ e),
          m.same x,
        );
        once = erase_fd-IsDistinct r.fds fd m.once;
      },
      λ x. contains-erase_fd r.fds fd x m.once,
    )
