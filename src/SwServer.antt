-- ===== src/SwServer.antt =====
-- example/sw_server/sw_client/read_write/src/sw_server.cpp: a memory that is read and written over
-- the channels `rw_cmd` and `rw_rsp`, until anything comes on the channel `exit`.
pub mod Ready
pub mod Round
pub mod Calls
pub mod Session
pub mod Served
pub mod Quit
use multisim.Base.{
  ℕ, zero, suc, ◌+◌, ◌*◌, ◌/◌, ◌%◌, ◌^◌, Bool, true, false, List, [], ◌∷◌, ◌==◌, if◌then◌else◌,
  Bytes, codes, get_or, Run, returned, running, aborted, ◌>>=◌,
}
use multisim.Os.{Os}
use multisim.Data.{sw}
use multisim.MultisimServer.{
  State, Pulled, update, multisim_server_start, multisim_server_pull, multisim_server_push,
}

-- Element `i` of a `uint64_t` array, and the words of one `uint64_t`, on a little-endian host.
abbrev pub dword : List ℕ → ℕ → ℕ
dword words i = get_or words (2 * i) 0 + 2 ^ 32 * get_or words (2 * i + 1) 0

abbrev pub words : ℕ → List ℕ
words v = v % 2 ^ 32 ∷ v / 2 ^ 32 % 2 ^ 32 ∷ []

-- What the arrays `exit_data` and `rw_cmd` of a round hold before they are read into.
pub record Junk : Type 0 where
  pub exit_data : List ℕ
  pub rw_cmd : List ℕ

-- The response to a command, and `mem` behind it.
unfoldable pub process : (ℕ → ℕ) → List ℕ → ℕ × (ℕ → ℕ)
process mem rw_cmd =
    let rwb = dword rw_cmd 0 in
    let address = dword rw_cmd 1 in
    let wdata = dword rw_cmd 2 in
    if rwb == 0 then (0, update mem (address % 256) wdata) else (mem (address % 256), mem)

-- How a round of the loop ends: by `break`, or with `mem` for the next.
pub data Turn (World : Type 0) : Type 0 where
  quit : State World → Turn World
  next : (ℕ → ℕ) → State World → Turn World

module _ (os : Os) where
  open os use {World}

  -- `assert(r > 0)` behind the response
  pub answered : (ℕ → ℕ) → ℕ × State World → Run (Turn World)
  answered mem (zero, s) = aborted
  answered mem (suc r, s) = returned (next mem s)

  -- Behind the pull of a command.
  pub handle : ℕ → (ℕ → ℕ) → ℕ → List ℕ → State World → Run (Turn World)
  unfolding process answered
  handle fuel mem zero rw_cmd s = returned (next mem s)
  handle fuel mem (suc r) rw_cmd s = do
    let done = process mem rw_cmd
    q ← multisim_server_push os fuel sw s (codes "rw_rsp") (words done.0) 64 []
    answered done.1 q

  -- Behind the pull of the exit command.
  pub unless_exit : ℕ → Junk → (ℕ → ℕ) → ℕ → State World → Run (Turn World)
  unfolding handle
  unless_exit fuel junk mem (suc r) s = returned (quit s)
  unless_exit fuel junk mem zero s = do
    c ← multisim_server_pull os fuel sw s (codes "rw_cmd") junk.rw_cmd 192 []
    handle fuel mem c.status c.array c.state

  -- A round of the loop.
  unfoldable pub turn : ℕ → Junk → (ℕ → ℕ) → State World → Run (Turn World)
  unfolding unless_exit
  turn fuel junk mem s = do
    e ← multisim_server_pull os fuel sw s (codes "exit") junk.exit_data 1 []
    unless_exit fuel junk mem e.status e.state

  pub serve_after : Turn World → ((ℕ → ℕ) → State World → Run (State World)) → Run (State World)
  serve_after (quit s) again = returned s
  serve_after (next mem s) again = again mem s

  -- The loop, with `rounds` rounds at most.
  unfoldable pub serve : ℕ → ℕ → (ℕ → Junk) → (ℕ → ℕ) → State World → Run (State World)
  unfolding turn serve_after
  serve zero fuel junk mem s = running
  serve (suc rounds) fuel junk mem s = turn fuel (junk rounds) mem s >>= λ t.
      serve_after t (λ mem' s'. serve rounds fuel junk mem' s')

  unfoldable pub main : ℕ → ℕ → (ℕ → Junk) → State World → Run (ℕ × State World)
  unfolding multisim_server_start serve
  main rounds fuel junk s = do
    a ← multisim_server_start os fuel s (codes "exit")
    b ← multisim_server_start os fuel a.1 (codes "rw_cmd")
    c ← multisim_server_start os fuel b.1 (codes "rw_rsp")
    d ← serve rounds fuel junk (λ i. 0) c.1
    returned (0, d)
