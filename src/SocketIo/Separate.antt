-- ===== src/SocketIo/Separate.antt =====
-- What the code relies on where a process has several connections: a call on one descriptor leaves the
-- others alone, and a new descriptor is none that is open.
use multisim.Base.{ℕ, ◌≡◌, ◌≢◌, ◌∙◌, refl, true, Bool, List, Bytes, some}
use multisim.Os.{Os, Events}
use multisim.SocketIo.Stream.{IsStream}

module _ (os : Os) (stream : IsStream os) where
  -- The connection `fd` is open in `w'` too, and nothing has passed on it since `w`.
  pub record Kept (is_open : os.World → ℕ → Bool) (fd : ℕ) (w w' : os.World) : Type 0 where
    pub sent_same : stream.sent w' fd ≡ stream.sent w fd
    pub got_same : stream.got w' fd ≡ stream.got w fd
    pub still_open : is_open w' fd ≡ true

  pub record IsSeparate : Type 0 where
    pub is_open : os.World → ℕ → Bool
    pub send_open :
        (w : os.World) (fd : ℕ) (buf : Bytes)
        → is_open w fd ≡ true
        → is_open (os.send w fd buf).1 fd ≡ true
    pub read_open :
        (w : os.World) (fd n : ℕ) → is_open w fd ≡ true → is_open (os.read w fd n).1 fd ≡ true
    pub send_kept :
        (w : os.World) (fd other : ℕ) (buf : Bytes)
        → is_open w fd ≡ true
        → other ≢ fd
        → Kept is_open fd w (os.send w other buf).1
    pub read_kept :
        (w : os.World) (fd other n : ℕ)
        → is_open w fd ≡ true
        → other ≢ fd
        → Kept is_open fd w (os.read w other n).1
    pub wait_kept :
        (w : os.World) (fd other : ℕ) (ev : Events)
        → is_open w fd ≡ true
        → Kept is_open fd w (os.wait w other ev)
    pub close_kept :
        (w : os.World) (fd other : ℕ)
        → is_open w fd ≡ true
        → other ≢ fd
        → Kept is_open fd w (os.close w other)
    pub nonblock_kept :
        (w : os.World) (fd other : ℕ)
        → is_open w fd ≡ true
        → Kept is_open fd w (os.set_nonblock w other)
    pub poll_kept :
        (w : os.World) (fd : ℕ) (fds : List ℕ)
        → is_open w fd ≡ true
        → Kept is_open fd w (os.poll_in w fds).1
    pub accept_kept :
        (w : os.World) (fd listening : ℕ)
        → is_open w fd ≡ true
        → Kept is_open fd w (os.accept w listening).1
    pub accept_new :
        (w : os.World) (fd listening : ℕ)
        → is_open w fd ≡ true
        → (os.accept w listening).0 ≢ some fd

  pub Kept-refl :
      (is_open : os.World → ℕ → Bool) (fd : ℕ) (w : os.World)
      → is_open w fd ≡ true
      → Kept is_open fd w w
  Kept-refl is_open fd w h = record { sent_same = refl; got_same = refl; still_open = h }

  pub Kept-trans :
      (is_open : os.World → ℕ → Bool) (fd : ℕ) (w w1 w2 : os.World)
      → Kept is_open fd w w1
      → Kept is_open fd w1 w2
      → Kept is_open fd w w2
  Kept-trans is_open fd w w1 w2 a b = record {
    sent_same = b.sent_same ∙ a.sent_same;
    got_same = b.got_same ∙ a.got_same;
    still_open = b.still_open;
  }
