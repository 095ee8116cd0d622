-- ===== src/SwClient.antt =====
-- example/sw_server/sw_client/read_write/src/sw_client.cpp: writes and reads of the memory behind
-- the channels `rw_cmd` and `rw_rsp`.
pub mod Exchange
pub mod Session
pub mod Coherent
use multisim.Base.{
  ℕ, zero, suc, ◌+◌, ◌*◌, ◌%◌, ◌^◌, Bool, true, false, List, [], ◌∷◌, ◌++◌, ◌==◌, ltb,
  if◌then◌else◌, Bytes, codes, Run, returned, aborted, ◌>>=◌, ◌>>◌,
}
use multisim.Os.{Os}
use multisim.Data.{sw}
use multisim.SwServer.{dword, words}
use multisim.MultisimClient.{
  State, Pulled, multisim_client_start, multisim_client_pull, multisim_client_push,
}

-- BW_ITERATION_NB
abbrev pub bw_iteration_nb : ℕ
bw_iteration_nb = 100000

-- `uint64_t cmd[3]`
abbrev pub command : ℕ → ℕ → ℕ → List ℕ
command rwb address wdata = words rwb ++ (words address ++ words wdata)

-- What the arrays of a call hold that are not initialised: `cmd[2]` of a read, `rsp`, and `data` of
-- the exit.
pub record Junk : Type 0 where
  pub cmd2 : ℕ
  pub rsp : List ℕ
  pub exit : List ℕ

module _ (os : Os) where
  open os use {World}

  -- `assert(r > 0)`
  abbrev pub check : ℕ → Run (Unit {0})
  check zero = aborted
  check (suc r) = returned tt

  -- The push of a command and the pull of its response.
  pub exchange : ℕ → List ℕ → State World → List ℕ → Run (Pulled World)
  exchange fuel rsp s cmd = do
    q ← multisim_client_push os fuel sw s (codes "rw_cmd") cmd 192 []
    check q.0
    p ← multisim_client_pull os fuel sw q.1 (codes "rw_rsp") rsp 64 []
    check p.status
    returned p

  unfoldable pub write_server : ℕ → Junk → State World → ℕ → ℕ → Run (State World)
  unfolding exchange
  write_server fuel junk s address wdata = do
    p ← exchange fuel junk.rsp s (command 0 address wdata)
    returned p.state

  unfoldable pub read_server : ℕ → Junk → State World → ℕ → Run (ℕ × State World)
  unfolding exchange
  read_server fuel junk s address = do
    p ← exchange fuel junk.rsp s (command 1 address junk.cmd2)
    returned (dword p.array 0, p.state)

  -- The result of the push is not looked at.
  unfoldable pub exit_server : ℕ → Junk → State World → Run (State World)
  unfolding multisim_client_push
  exit_server fuel junk s = do
    q ← multisim_client_push os fuel sw s (codes "exit") junk.exit 32 []
    returned q.1

  -- The loop "write then read" from `address` on, with `left` rounds left; `junk` numbers the calls of
  -- a loop.
  unfoldable pub write_then_read : ℕ → (ℕ → Junk) → ℕ → ℕ → State World → Run (State World)
  unfolding write_server read_server
  write_then_read fuel junk zero address s = returned s
  write_then_read fuel junk (suc left) address s = do
    let wdata = (0xbebecacadeadb00b + address) % 2 ^ 64
    s1 ← write_server fuel (junk (2 * left)) s address wdata
    r ← read_server fuel (junk (2 * left + 1)) s1 address
    if r.0 == wdata then returned tt else aborted
    write_then_read fuel junk left (address + 1) r.1

  unfoldable pub all_writes : ℕ → (ℕ → Junk) → ℕ → ℕ → State World → Run (State World)
  unfolding write_server
  all_writes fuel junk zero address s = returned s
  all_writes fuel junk (suc left) address s = do
    s1 ← write_server fuel (junk left) s address ((0xdeadbeefcafedeca + address) % 2 ^ 64)
    all_writes fuel junk left (address + 1) s1

  unfoldable pub all_reads : ℕ → (ℕ → Junk) → ℕ → ℕ → State World → Run (State World)
  unfolding read_server
  all_reads fuel junk zero address s = returned s
  all_reads fuel junk (suc left) address s = do
    r ← read_server fuel (junk left) s address
    if r.0 == (0xdeadbeefcafedeca + address) % 2 ^ 64 then returned tt else aborted
    all_reads fuel junk left (address + 1) r.1

  -- The bandwidth tests: the same write and the same read, `left` times.
  unfoldable pub bw_writes : ℕ → (ℕ → Junk) → ℕ → State World → Run (State World)
  unfolding write_server
  bw_writes fuel junk zero s = returned s
  bw_writes fuel junk (suc left) s = do
    s1 ← write_server fuel (junk left) s 0 0xdeadbeefcafedeca
    bw_writes fuel junk left s1

  unfoldable pub bw_reads : ℕ → (ℕ → Junk) → ℕ → State World → Run (State World)
  unfolding read_server
  bw_reads fuel junk zero s = returned s
  bw_reads fuel junk (suc left) s = do
    r ← read_server fuel (junk left) s 0
    bw_reads fuel junk left r.1

  unfoldable pub main : ℕ → (ℕ → ℕ → Junk) → State World → Run (ℕ × State World)
  unfolding multisim_client_start write_then_read all_writes all_reads bw_writes bw_reads
      exit_server
  main fuel junk s = do
    a ← multisim_client_start os fuel sw s (codes ".") (codes "exit")
    b ← multisim_client_start os fuel sw a (codes ".") (codes "rw_cmd")
    c ← multisim_client_start os fuel sw b (codes ".") (codes "rw_rsp")
    d ← write_then_read fuel (junk 0) 10 0 c
    e ← all_writes fuel (junk 1) 10 0 d
    f ← all_reads fuel (junk 2) 10 0 e
    g ← bw_writes fuel (junk 3) bw_iteration_nb f
    h ← bw_reads fuel (junk 4) bw_iteration_nb g
    i ← exit_server fuel (junk 5 0) h
    returned (0, i)
