-- ===== src/StreamTest.antt =====
-- example/sw_server/sw_client/unit/stream.cpp: a server pushes numbered messages of `w` bits, and a
-- client pulls and checks them. Every `i * 7919` is taken to fit an `int`.
pub mod Push
pub mod Pull
pub mod Checked
use multisim.Base.{
  ℕ, zero, suc, ◌+◌, ◌*◌, ◌%◌, ◌^◌, Bool, true, false, List, [], ◌∷◌, ◌==◌, if◌then◌else◌, Bytes,
  codes, Option, none, some, Run, returned, running, ◌>>=◌,
}
use multisim.Os.{Os}
use multisim.Data.{sw, buf_32b_size}
use multisim.MultisimServer
use multisim.MultisimServer.{multisim_server_start, multisim_server_push}
use multisim.MultisimClient
use multisim.MultisimClient.{multisim_client_start, multisim_client_pull}

-- `(uint32_t)(i * 7919 + k)`
abbrev pub word_of : ℕ → ℕ → ℕ
word_of i k = (i * 7919 + k) % 2 ^ 32

-- The loop that fills `buf`, from `k` on.
abbrev pub fill : ℕ → ℕ → ℕ → List ℕ
fill i k zero = []
fill i k (suc left) = word_of i k ∷ fill i (k + 1) left

unfoldable pub numbered : ℕ → ℕ → List ℕ
unfolding buf_32b_size
numbered w i = fill i 0 (buf_32b_size w)

-- `memset(buf.data(), 0xff, buf.size() * 4)`
abbrev pub ones : ℕ → List ℕ
ones zero = []
ones (suc n) = 0xffffffff ∷ ones n

-- The loop that checks `buf`, from `k` on: the first index whose word is wrong.
unfoldable pub first_bad : ℕ → ℕ → List ℕ → Option ℕ
first_bad i k [] = none
first_bad i k (b ∷ buf) =
    let rest = first_bad i (k + 1) buf in if b == word_of i k then rest else some k

-- How the client ends: at a pull that failed or a wrong word it prints where.
pub data Verdict : Type 0 where
  passed : Verdict
  pull_failed : ℕ → Verdict
  bad_word : ℕ → ℕ → Verdict

abbrev pub exit_code : Verdict → ℕ
exit_code passed = 0
exit_code (pull_failed i) = 1
exit_code (bad_word i k) = 1

-- `usleep` is usleep(10), and `sleep` is sleep(1).
module _ (os : Os) (usleep sleep : os.World → os.World) where
  open os use {World}

  -- Behind a push, with what is done next where it failed.
  pub tried_again :
      ℕ × MultisimServer.State World
      → (MultisimServer.State World → Run (MultisimServer.State World))
      → Run (MultisimServer.State World)
  tried_again (zero, s) retry = retry (record s { world = usleep s.world })
  tried_again (suc k, s) retry = returned s

  -- The `while` loop around the push, with `tries` rounds at most.
  unfoldable pub push_until :
      ℕ → ℕ → ℕ → List ℕ → MultisimServer.State World → Run (MultisimServer.State World)
  unfolding multisim_server_push tried_again
  push_until zero fuel w buf s = running
  push_until (suc tries) fuel w buf s =
      multisim_server_push os fuel sw s (codes "ch") buf w [] >>= λ q.
      tried_again q (λ s'. push_until tries fuel w buf s')

  -- The loop over `i`, with `left` messages left.
  unfoldable pub push_numbered :
      ℕ → ℕ → ℕ → ℕ → ℕ → MultisimServer.State World → Run (MultisimServer.State World)
  unfolding push_until numbered
  push_numbered tries fuel w zero i s = returned s
  push_numbered tries fuel w (suc left) i s = do
    s1 ← push_until tries fuel w (numbered w i) s
    push_numbered tries fuel w left (i + 1) s1

  unfoldable pub server_main :
      ℕ → ℕ → ℕ → ℕ → MultisimServer.State World → Run (ℕ × MultisimServer.State World)
  unfolding multisim_server_start push_numbered
  server_main tries fuel w n s = do
    a ← multisim_server_start os fuel s (codes "ch")
    b ← push_numbered tries fuel w n 0 a.1
    returned (0, b)

  -- Behind the check of message `i`, with the rest of the loop.
  pub checked :
      ℕ
      → Option ℕ
      → MultisimClient.State World
      → Run (Verdict × MultisimClient.State World)
      → Run (Verdict × MultisimClient.State World)
  checked i (some k) s rest = returned (bad_word i k, s)
  checked i none s rest = rest

  -- Behind the pull of message `i`.
  pub judged :
      ℕ
      → ℕ
      → List ℕ
      → MultisimClient.State World
      → Run (Verdict × MultisimClient.State World)
      → Run (Verdict × MultisimClient.State World)
  unfolding first_bad checked
  judged i zero buf s rest = returned (pull_failed i, s)
  judged i (suc r) buf s rest = checked i (first_bad i 0 buf) s rest

  -- The loop over `i`, with `left` messages left.
  unfoldable pub pull_numbered :
      ℕ → ℕ → ℕ → ℕ → MultisimClient.State World → Run (Verdict × MultisimClient.State World)
  unfolding multisim_client_pull judged buf_32b_size
  pull_numbered fuel w zero i s = returned (passed, s)
  pull_numbered fuel w (suc left) i s =
      multisim_client_pull os fuel sw s (codes "ch") (ones (buf_32b_size w)) w [] >>= λ p.
      judged i p.status p.array p.state (pull_numbered fuel w left (i + 1) p.state)

  unfoldable pub client_main :
      ℕ → ℕ → ℕ → MultisimClient.State World → Run (ℕ × MultisimClient.State World)
  unfolding multisim_client_start pull_numbered
  client_main fuel w n s = do
    a ← multisim_client_start os fuel sw s (codes ".") (codes "ch")
    v ← pull_numbered fuel w n 0 (record a { world = sleep a.world })
    returned (exit_code v.0, v.1)
