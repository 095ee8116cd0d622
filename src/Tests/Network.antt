-- ===== src/Tests/Network.antt =====
-- A small system with a connection for each descriptor: a send is taken whole, a read gives what has
-- arrived, and no client asks for a connection.
use multisim.Base.{
  IsByte, ◌%◌, All, List, suc, ℕ, ◌≤◌, ◌≡◌, ◌≢◌, refl, sym, ap, true, false, Bool, [], ◌∷◌, ◌++◌,
  Bytes, length, take, drop, length-take, take_all, none, arith,
}
use multisim.Os.{Os, count, Errno, eagain, Input, bytes, no_bytes}
use multisim.MultisimServer.{update}
use multisim.MultisimServer.Start.{update_self, update_ne}
use multisim.SocketIo.Stream.{IsStream}
use multisim.SocketIo.Separate.{IsSeparate, Kept}

pub record Connection : Type 0 where
  pub out : Bytes
  pub taken : Bytes
  pub inbox : Bytes

abbrev pub Net : Type 0
Net = ℕ → Connection

-- What a read hands out are bytes.
abbrev pub bytes_of : List ℕ → Bytes
bytes_of [] = []
bytes_of (x ∷ xs) = x % 256 ∷ bytes_of xs

abbrev pub give : Net → ℕ → ℕ → Bytes → Input × Net
give w fd n [] = (no_bytes eagain, w)
give w fd n (b ∷ bs) = (
  bytes (bytes_of (take n (b ∷ bs))),
  update w fd (record (w fd) { taken = (w fd).taken ++ take n (b ∷ bs); inbox = drop n (b ∷ bs) }),
)

abbrev pub network : Os
network = record {
  World = Net;
  send = λ w fd buf. (count (length buf), update w fd (record (w fd) { out = (w fd).out ++ buf }));
  read = λ w fd n. give w fd n (w fd).inbox;
  comes_back = λ w fd ev. true;
  wait = λ w fd ev. w;
  close = λ w fd. w;
  socket_inet = λ w. (none, w);
  socket_unix = λ w. (none, w);
  set_nonblock = λ w fd. w;
  bind_inet = λ w fd p. (false, w);
  bind_unix = λ w fd path. (false, w);
  listen = λ w fd. (false, w);
  poll_in = λ w fds. (none, w);
  accept = λ w fd. (none, w);
  interfaces = λ w. (none, w);
  mkdir = λ w path. w;
  realpath = λ w path. (none, w);
  unlink = λ w path. w;
  open_dir = λ w path. (none, w);
  write_file = λ w path text. (false, w);
  read_file = λ w path. (none, w);
  append_file = λ w path text. (false, w);
  connect_unix = λ w fd path. (false, w);
  connect_inet = λ w fd ip port. (false, w);
  inet_pton = λ ip. true;
  sleep = λ w. w;
  set_blocking = λ w fd. w;
  getpid = λ w. 42;
}

length-bytes_of : (xs : List ℕ) → length (bytes_of xs) ≡ length xs
length-bytes_of [] = refl
length-bytes_of (x ∷ xs) = ap suc (length-bytes_of xs)

bytes_of-append : (xs ys : List ℕ) → bytes_of (xs ++ ys) ≡ bytes_of xs ++ bytes_of ys
bytes_of-append [] ys = refl
bytes_of-append (x ∷ xs) ys = ap (λ v. x % 256 ∷ v) (bytes_of-append xs ys)

pub bytes_of-IsByte : (xs : List ℕ) → All IsByte (bytes_of xs)
bytes_of-IsByte [] = tt
bytes_of-IsByte (x ∷ xs) = (omega arith, bytes_of-IsByte xs)

pub give_bytes :
    (w : Net) (fd n : ℕ) (inbox bs : Bytes)
    → (give w fd n inbox).0 ≡ bytes bs
    → (length bs ≤ n) × (bytes_of ((give w fd n inbox).1 fd).taken ≡ bytes_of (w fd).taken ++ bs)
give_bytes w fd n [] bs e = cc
give_bytes w fd n (b ∷ rest) bs e =
    let m : bytes_of (take n (b ∷ rest)) ≡ bs = cc in
    rw (← m) (
      omega (arith, length-bytes_of (take n (b ∷ rest)), length-take n (b ∷ rest)),
      rw (update_self w fd _) (bytes_of-append (w fd).taken (take n (b ∷ rest))),
    )

pub give_failed :
    (w : Net) (fd n : ℕ) (inbox : Bytes) (er : Errno)
    → (give w fd n inbox).0 ≡ no_bytes er
    → ((give w fd n inbox).1 fd).taken ≡ (w fd).taken
give_failed w fd n [] er e = refl
give_failed w fd n (b ∷ rest) er e = cc

pub give_out : (w : Net) (fd n : ℕ) (inbox : Bytes) → ((give w fd n inbox).1 fd).out ≡ (w fd).out
give_out w fd n [] = refl
give_out w fd n (b ∷ rest) = rw (update_self w fd _) refl

pub give_other :
    (w : Net) (fd other n : ℕ) (inbox : Bytes) → other ≢ fd → (give w other n inbox).1 fd ≡ w fd
give_other w fd other n [] d = refl
give_other w fd other n (b ∷ rest) d = update_ne w other fd _ (λ e. d (sym e))

unfoldable pub network-IsStream : IsStream network
network-IsStream = record {
  sent = λ w fd. (w fd).out;
  got = λ w fd. bytes_of (w fd).taken;
  send_count = λ w fd buf k e.
      let n : length buf ≡ k = cc in
      (
        omega arith,
        rw (update_self w fd _) (ap (λ x. (w fd).out ++ x) (sym (take_all k buf (omega arith)))),
      );
  send_failed = λ w fd buf er e. cc;
  send_got = λ w fd buf. rw (update_self w fd _) refl;
  read_bytes = λ w fd n bs e. give_bytes w fd n (w fd).inbox bs e;
  read_failed = λ w fd n er e. ap bytes_of (give_failed w fd n (w fd).inbox er e);
  read_sent = λ w fd n. give_out w fd n (w fd).inbox;
  wait_sent = λ w fd ev. refl;
  wait_got = λ w fd ev. refl;
}

abbrev pub always_open : Net → ℕ → Bool
always_open w fd = true

pub same-Kept :
    (w w' : Net) (fd : ℕ) → w' fd ≡ w fd → Kept network network-IsStream always_open fd w w'
unfolding network-IsStream
same-Kept w w' fd e = record {
  sent_same = ap (λ c. c.out) e;
  got_same = ap (λ c. bytes_of c.taken) e;
  still_open = refl;
}

-- The descriptors of the system are open for good.
unfoldable pub network-IsSeparate : IsSeparate network network-IsStream
unfolding network-IsStream
network-IsSeparate = record {
  is_open = always_open;
  send_open = λ w fd buf h. refl;
  read_open = λ w fd n h. refl;
  send_kept = λ w fd other buf h d. same-Kept w _ fd (update_ne w other fd _ (λ e. d (sym e)));
  read_kept = λ w fd other n h d. same-Kept w _ fd (give_other w fd other n (w other).inbox d);
  wait_kept = λ w fd other ev h. same-Kept w w fd refl;
  close_kept = λ w fd other h d. same-Kept w w fd refl;
  nonblock_kept = λ w fd other h. same-Kept w w fd refl;
  poll_kept = λ w fd fds h. same-Kept w w fd refl;
  accept_kept = λ w fd listening h. same-Kept w w fd refl;
  accept_new = λ w fd listening h e. cc;
}
