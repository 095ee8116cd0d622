-- ===== src/Tests/Descriptors.antt =====
-- A system that numbers its connections, and a server process on it that takes a client, loses it, and
-- takes another.
use multisim.Base.{
  ℕ, sym, ◌+◌, ◌≡◌, ◌≢◌, ◌∙◌, refl, true, false, not, ◌&&◌, Bool, [], ◌∷◌, ltb, lt→ltb, arith,
  bytes_eq, Option, none, some, returned, Run,
}
use mathlib.Core.Option.{some-ne-none}
use multisim.Os.{Os, failed, eagain, other, no_bytes}
use multisim.Names.{find}
use multisim.Data.{sw}
use multisim.SocketIo.Ledger.{IsLedger}
use multisim.SocketServer.{new_server, accept_new_socket}
use multisim.MultisimServer.{
  State, Pulled, initial, update, multisim_server_start, multisim_server_push_core,
  multisim_server_pull_core,
}
use multisim.MultisimServer.Start.{update_self, update_ne}
use multisim.MultisimServer.Ledger.{IsExact}
use multisim.MultisimServer.Starting.{initial-IsExact}
use multisim.MultisimServer.Exact.{
  Calls, calls_end, call_start, call_push, call_pull, Calls-IsExact,
}
use multisim.Tests.Data.{cpu, word}

-- The number of connections so far, and those that are closed.
record Table : Type 0 where
  pub next : ℕ
  pub closed : ℕ → Bool

abbrev table : Os
table = record {
  World = Table;
  send = λ w fd buf. (failed (other 32), w);
  read = λ w fd n. (no_bytes eagain, w);
  comes_back = λ w fd ev. true;
  wait = λ w fd ev. w;
  close = λ w fd. record w { closed = update w.closed fd true };
  socket_inet = λ w. (some 1000, w);
  socket_unix = λ w. (none, w);
  set_nonblock = λ w fd. w;
  bind_inet = λ w fd p. (true, w);
  bind_unix = λ w fd path. (false, w);
  listen = λ w fd. (true, w);
  poll_in = λ w fds. (some (true ∷ []), w);
  accept =
      λ w fd. (some w.next, record { next = w.next + 1; closed = update w.closed w.next false });
  interfaces = λ w. (none, w);
  mkdir = λ w path. w;
  realpath = λ w path. (none, w);
  unlink = λ w path. w;
  open_dir = λ w path. (none, w);
  write_file = λ w path text. (true, w);
  read_file = λ w path. (none, w);
  append_file = λ w path text. (false, w);
  connect_unix = λ w fd path. (false, w);
  connect_inet = λ w fd ip port. (false, w);
  inet_pton = λ ip. true;
  sleep = λ w. w;
  set_blocking = λ w fd. w;
  getpid = λ w. 42;
}

abbrev open_in : Table → ℕ → Bool
open_in w x = ltb x w.next && not (w.closed x)

ltb_suc : (x n : ℕ) → x ≢ n → ltb x (n + 1) ≡ ltb x n
ltb_suc x n d = ground arith

accept_other :
    (w : Table) (fd x : ℕ)
    → ◌≡◌ {A = Option ℕ} (some w.next) (some fd)
    → x ≢ fd
    → open_in (record { next = w.next + 1; closed = update w.closed w.next false }) x ≡ open_in w x
accept_other w fd x e d =
    let same : w.next ≡ fd = cc in
    let far : x ≢ w.next = λ q. d (q ∙ same) in
    rw (ltb_suc x w.next far, update_ne w.closed w.next x false far) refl

ltb_self : (n : ℕ) → ltb n n ≡ false
ltb_self n = ground arith

and_false : (b : Bool) → (b && false) ≡ false
and_false true = refl
and_false false = refl

fresh : (w : Table) → open_in w w.next ≡ false
fresh w = rw (ltb_self w.next) refl

opens :
    (w : Table)
    → open_in (record { next = w.next + 1; closed = update w.closed w.next false }) w.next ≡ true
opens w = rw (lt→ltb w.next (w.next + 1) (omega arith), update_self w.closed w.next false) refl

table-IsLedger : IsLedger table
table-IsLedger = record {
  is_open = open_in;
  send_same = λ w fd x buf. refl;
  read_same = λ w fd x n. refl;
  wait_same = λ w fd x ev. refl;
  nonblock_same = λ w fd x. refl;
  poll_same = λ w fds x. refl;
  socket_inet_same = λ w x. refl;
  socket_unix_same = λ w x. refl;
  bind_inet_same = λ w fd p x. refl;
  bind_unix_same = λ w fd path x. refl;
  listen_same = λ w fd x. refl;
  interfaces_same = λ w x. refl;
  realpath_same = λ w path x. refl;
  open_dir_same = λ w path x. refl;
  write_file_same = λ w path text x. refl;
  mkdir_same = λ w path x. refl;
  unlink_same = λ w path x. refl;
  socket_unix_fresh = λ w fd e. absurd (some-ne-none fd (sym e));
  open_dir_fresh = λ w path fd e. absurd (some-ne-none fd (sym e));
  accept_none = λ w l x e. absurd (some-ne-none w.next e);
  accept_fresh = λ w l fd e. let same : w.next ≡ fd = cc in rw (← same) (fresh w);
  accept_opens = λ w l fd e. let same : w.next ≡ fd = cc in rw (← same) (opens w);
  accept_other = λ w l fd x e d. accept_other w fd x e d;
  close_gone = λ w fd. rw (update_self w.closed fd true) (and_false (ltb fd w.next));
  close_other = λ w fd x d. rw (update_ne w.closed fd x true d) refl;
}

-- The process before its first start; every slot holds a 0.
abbrev s0 : State Table
s0 = initial (record { next = 0; closed = λ x. false }) (λ i. new_server [] [])

s0-IsExact : IsExact table table-IsLedger s0
unfolding table-IsLedger
s0-IsExact = initial-IsExact table table-IsLedger s0.world s0.server (closed_at_first)
  where
    closed_at_first : (fd : ℕ) → ltb fd 0 && true ≡ true → ⊥
    closed_at_first fd e = ground arith

-- The start of `cpu`; its push takes the connection 0 and loses it, and its pull takes the connection 1.
abbrev pushed : Run (ℕ × State Table) → ℕ × State Table
pushed (returned q) = q
pushed _ = (0, s0)

abbrev pulled : Run (Pulled Table) → Pulled Table
pulled (returned p) = p
pulled _ = record { status = 0; array = []; state = s0 }

abbrev q0 : ℕ × State Table
q0 = pushed (multisim_server_start table 9 s0 cpu)

abbrev q1 : ℕ × State Table
q1 = pushed (multisim_server_push_core table 9 sw q0.1 cpu (word 7) 32 false [])

abbrev p2 : Pulled Table
p2 = pulled (multisim_server_pull_core table 9 sw q1.1 cpu (word 7) 32 false [])

s0-Calls : Calls table table-IsLedger s0 p2.state
unfolding multisim_server_start multisim_server_push_core multisim_server_pull_core find bytes_eq
    accept_new_socket table-IsLedger
s0-Calls = call_start 9 cpu q0 refl (
    call_push 9 sw cpu (word 7) 32 false [] q1 refl
      (call_pull 9 sw cpu (word 7) 32 false [] p2 refl calls_end))

Calls-IsExact_example : IsExact table table-IsLedger p2.state
Calls-IsExact_example = Calls-IsExact table table-IsLedger s0 p2.state s0-Calls s0-IsExact

second_client : p2.state.sockets 0 ≡ some 1
unfolding multisim_server_start multisim_server_push_core multisim_server_pull_core find bytes_eq
    accept_new_socket
second_client = refl
