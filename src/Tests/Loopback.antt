-- ===== src/Tests/Loopback.antt =====
-- A small system to run the program on: every descriptor is the same connection, whose calls follow
-- a script. The script gives for each send or read 0 for EAGAIN, or the most bytes that it transfers;
-- behind its end all is transferred at once. Port 8100 is taken and all others are free.
use multisim.Base.{
  ℕ, zero, suc, ◌≤◌, ◌<◌, ◌≡◌, refl, sym, ap, true, false, not, List, [], ◌∷◌, ◌++◌, ◌==◌, Bytes,
  length, take, drop, min, length-take, take_all, Option, none, some, arith,
}
use multisim.Os.{Os, Ret, count, failed, Errno, eagain, Input, bytes, no_bytes}
use multisim.SocketIo.Stream.{IsStream, IsResponsive}
use multisim.SocketServer.Start.{HasPorts}

pub record Wire : Type 0 where
  pub out : Bytes
  pub taken : Bytes
  pub inbox : Bytes
  pub script : List ℕ
  pub pending : List ℕ
  pub info : Option Bytes

abbrev pub send_by : Wire → Bytes → List ℕ → Ret × Wire
send_by w buf [] = (count (length buf), record w { out = w.out ++ buf })
send_by w buf (zero ∷ script) = (failed eagain, record w { script = script })
send_by w buf (suc n ∷ script) = (
  count (length (take (suc n) buf)),
  record w { out = w.out ++ take (suc n) buf; script = script },
)

abbrev pub give : Wire → ℕ → List ℕ → Input × Wire
give w n script = (
  bytes (take n w.inbox),
  record w { taken = w.taken ++ take n w.inbox; inbox = drop n w.inbox; script = script },
)

abbrev pub read_by : Wire → ℕ → List ℕ → Input × Wire
read_by w n [] = give w n []
read_by w n (zero ∷ script) = (no_bytes eagain, record w { script = script })
read_by w n (suc m ∷ script) = give w (min (suc m) n) script

abbrev pub accept_by : Wire → List ℕ → Option ℕ × Wire
accept_by w [] = (none, w)
accept_by w (fd ∷ pending) = (some fd, record w { pending = pending })

abbrev pub loopback : Os
loopback = record {
  World = Wire;
  send = λ w fd buf. send_by w buf w.script;
  read = λ w fd n. read_by w n w.script;
  comes_back = λ w fd ev. true;
  wait = λ w fd ev. w;
  close = λ w fd. w;
  socket_inet = λ w. (some 3, w);
  socket_unix = λ w. (none, w);
  set_nonblock = λ w fd. w;
  bind_inet = λ w fd p. (not (p == 8100), w);
  bind_unix = λ w fd path. (false, w);
  listen = λ w fd. (true, w);
  poll_in = λ w fds. (some (true ∷ []), w);
  accept = λ w fd. accept_by w w.pending;
  interfaces = λ w. (none, w);
  mkdir = λ w path. w;
  realpath = λ w path. (none, w);
  unlink = λ w path. w;
  open_dir = λ w path. (some 9, w);
  write_file = λ w path text. (true, record w { info = some text });
  read_file = λ w path. (w.info, w);
  append_file = λ w path text. (true, w);
  connect_unix = λ w fd path. (false, w);
  connect_inet = λ w fd ip port. (true, w);
  inet_pton = λ ip. true;
  sleep = λ w. w;
  set_blocking = λ w fd. w;
  getpid = λ w. 42;
}

take-length-take : (n : ℕ) (buf : Bytes) → take (length (take n buf)) buf ≡ take n buf
take-length-take zero buf = refl
take-length-take (suc n) [] = refl
take-length-take (suc n) (b ∷ buf) = ap (◌∷◌ b) (take-length-take n buf)

pub send_by_count :
    (w : Wire) (buf : Bytes) (k : ℕ) (ms : List ℕ)
    → (send_by w buf ms).0 ≡ count k
    → (k ≤ length buf) × ((send_by w buf ms).1.out ≡ w.out ++ take k buf)
send_by_count w buf k [] e =
    let n : length buf ≡ k = cc in
    (omega arith, rw (← n) (ap (◌++◌ w.out) (sym (take_all (length buf) buf (omega arith)))))
send_by_count w buf k (zero ∷ ms) e = cc
send_by_count w buf k (suc n ∷ ms) e =
    let m : length (take (suc n) buf) ≡ k = cc in
    (
      omega (arith, length-take (suc n) buf),
      rw (← m) (ap (◌++◌ w.out) (sym (take-length-take (suc n) buf))),
    )

pub send_by_failed :
    (w : Wire) (buf : Bytes) (er : Errno) (ms : List ℕ)
    → (send_by w buf ms).0 ≡ failed er
    → ((send_by w buf ms).1.out ≡ w.out) × (length (send_by w buf ms).1.script < length ms)
send_by_failed w buf er [] e = cc
send_by_failed w buf er (zero ∷ ms) e = (refl, omega arith)
send_by_failed w buf er (suc n ∷ ms) e = cc

pub send_by_taken : (w : Wire) (buf : Bytes) (ms : List ℕ) → (send_by w buf ms).1.taken ≡ w.taken
send_by_taken w buf [] = refl
send_by_taken w buf (zero ∷ ms) = refl
send_by_taken w buf (suc n ∷ ms) = refl

pub read_by_bytes :
    (w : Wire) (n : ℕ) (bs : Bytes) (ms : List ℕ)
    → (read_by w n ms).0 ≡ bytes bs
    → (length bs ≤ n) × ((read_by w n ms).1.taken ≡ w.taken ++ bs)
read_by_bytes w n bs [] e =
    let m : take n w.inbox ≡ bs = cc in rw (← m) (omega (arith, length-take n w.inbox), refl)
read_by_bytes w n bs (zero ∷ ms) e = cc
read_by_bytes w n bs (suc k ∷ ms) e =
    let m : take (min (suc k) n) w.inbox ≡ bs = cc in
    rw (← m) (omega (arith, length-take (min (suc k) n) w.inbox), refl)

pub read_by_failed :
    (w : Wire) (n : ℕ) (er : Errno) (ms : List ℕ)
    → (read_by w n ms).0 ≡ no_bytes er
    → ((read_by w n ms).1.taken ≡ w.taken) × (length (read_by w n ms).1.script < length ms)
read_by_failed w n er [] e = cc
read_by_failed w n er (zero ∷ ms) e = (refl, omega arith)
read_by_failed w n er (suc k ∷ ms) e = cc

pub read_by_out : (w : Wire) (n : ℕ) (ms : List ℕ) → (read_by w n ms).1.out ≡ w.out
read_by_out w n [] = refl
read_by_out w n (zero ∷ ms) = refl
read_by_out w n (suc k ∷ ms) = refl

-- The small system meets what the code relies on.
unfoldable pub loopback-IsStream : IsStream loopback
loopback-IsStream = record {
  sent = λ w fd. w.out;
  got = λ w fd. w.taken;
  send_count = λ w fd buf k e. send_by_count w buf k w.script e;
  send_failed = λ w fd buf er e. (send_by_failed w buf er w.script e).0;
  send_got = λ w fd buf. send_by_taken w buf w.script;
  read_bytes = λ w fd n bs e. read_by_bytes w n bs w.script e;
  read_failed = λ w fd n er e. (read_by_failed w n er w.script e).0;
  read_sent = λ w fd n. read_by_out w n w.script;
  wait_sent = λ w fd ev. refl;
  wait_got = λ w fd ev. refl;
}

pub loopback-IsResponsive : IsResponsive loopback
loopback-IsResponsive = record {
  stalls = λ w fd. length w.script;
  send_stalls = λ w fd buf er e t. (refl, (send_by_failed w buf er w.script e).1);
  read_stalls = λ w fd n er e t. (refl, (read_by_failed w n er w.script e).1);
}

unfoldable pub loopback-HasPorts : HasPorts loopback
loopback-HasPorts = record {
  free = λ w p. not (p == 8100);
  bind_free = λ w fd p. refl;
  bind_keeps = λ w fd p q e. refl;
}
