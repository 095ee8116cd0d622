-- ===== src/Bench.antt =====
-- example/sw_server/sw_client/bench/bench.cpp: messages that go to the server and back, only one
-- way, or not at all. `n` is not negative and `w` more than 0. The time is not measured.
pub mod Pull
pub mod Push
pub mod Checked
use multisim.Base.{
  ℕ, zero, suc, ◌+◌, ◌%◌, ◌^◌, Bool, true, false, List, [], ◌∷◌, ◌==◌, if◌then◌else◌, Bytes,
  bytes_eq, codes, get_or, set, Run, returned, running, ◌>>=◌,
}
use multisim.Os.{Os}
use multisim.Data.{sw, buf_32b_size}
use multisim.MultisimServer
use multisim.MultisimServer.{multisim_server_start, multisim_server_push, multisim_server_pull}
use multisim.MultisimClient
use multisim.MultisimClient.{multisim_client_start, multisim_client_push, multisim_client_pull}

-- `idle` is any other word.
pub data Mode : Type 0 where
  pingpong stream upstream idle : Mode

abbrev pub mode_of : Bytes → Mode
mode_of mode =
    if bytes_eq mode (codes "pingpong")
    then pingpong
    else if bytes_eq mode (codes "stream")
    then stream
    else if bytes_eq mode (codes "upstream")
    then upstream
    else idle

-- `std::vector<uint32_t> buf(size, 0x5a5a5a5a)`
abbrev pub filled : ℕ → List ℕ
filled zero = []
filled (suc size) = 0x5a5a5a5a ∷ filled size

-- `buf[0] = i`, and `buf[0] != (uint32_t)i` turned round.
abbrev pub number : ℕ → List ℕ → List ℕ
number i buf = set buf 0 (i % 2 ^ 32)

abbrev pub is_numbered : ℕ → List ℕ → Bool
is_numbered i buf = get_or buf 0 0 == i % 2 ^ 32

-- How a loop ends: with the buffer after all rounds, or in round `i` with the bad word of the message.
pub data Ended : Type 0 where
  all_rounds : List ℕ → Ended
  bad_data : ℕ → ℕ → Ended

abbrev pub exit_code : Ended → ℕ
exit_code (all_rounds buf) = 0
exit_code (bad_data b i) = 1

abbrev pub sends : Mode → Bool
sends pingpong = true
sends stream = false
sends upstream = true
sends idle = false

abbrev pub receives : Mode → Bool
receives pingpong = true
receives stream = true
receives upstream = false
receives idle = false

module _ (os : Os) where
  open os use {World}

  -- `while (!multisim_client_push("req", buf.data(), w));`, with `tries` rounds at most.
  unfoldable pub client_push :
      ℕ → ℕ → ℕ → List ℕ → MultisimClient.State World → Run (MultisimClient.State World)
  unfolding multisim_client_push
  client_push zero fuel w buf s = running
  client_push (suc tries) fuel w buf s = do
    q ← multisim_client_push os fuel sw s (codes "req") buf w []
    if q.0 == 0 then client_push tries fuel w buf q.1 else returned q.1

  -- `while (!multisim_client_pull("rsp", buf.data(), w));`
  unfoldable pub client_pull :
      ℕ → ℕ → ℕ → List ℕ → MultisimClient.State World → Run (List ℕ × MultisimClient.State World)
  unfolding multisim_client_pull
  client_pull zero fuel w buf s = running
  client_pull (suc tries) fuel w buf s = do
    p ← multisim_client_pull os fuel sw s (codes "rsp") buf w []
    if p.status == 0 then client_pull tries fuel w p.array p.state else returned (p.array, p.state)

  unfoldable pub server_push :
      ℕ → ℕ → ℕ → List ℕ → MultisimServer.State World → Run (MultisimServer.State World)
  unfolding multisim_server_push
  server_push zero fuel w buf s = running
  server_push (suc tries) fuel w buf s = do
    q ← multisim_server_push os fuel sw s (codes "rsp") buf w []
    if q.0 == 0 then server_push tries fuel w buf q.1 else returned q.1

  unfoldable pub server_pull :
      ℕ → ℕ → ℕ → List ℕ → MultisimServer.State World → Run (List ℕ × MultisimServer.State World)
  unfolding multisim_server_pull
  server_pull zero fuel w buf s = running
  server_pull (suc tries) fuel w buf s = do
    p ← multisim_server_pull os fuel sw s (codes "req") buf w []
    if p.status == 0 then server_pull tries fuel w p.array p.state else returned (p.array, p.state)

  -- The two parts of a round of the client.
  pub client_sends :
      ℕ
      → ℕ
      → Mode
      → ℕ
      → ℕ
      → List ℕ
      → MultisimClient.State World
      → Run (List ℕ × MultisimClient.State World)
  unfolding client_push
  client_sends tries fuel mode w i buf s =
      if sends mode
      then (client_push tries fuel w (number i buf) s >>= λ s'. returned (number i buf, s'))
      else returned (buf, s)

  pub client_receives :
      ℕ
      → ℕ
      → Mode
      → ℕ
      → List ℕ
      → MultisimClient.State World
      → Run (List ℕ × MultisimClient.State World)
  unfolding client_pull
  client_receives tries fuel mode w buf s =
      if receives mode then client_pull tries fuel w buf s else returned (buf, s)

  -- The loop over `i`, with `left` rounds left.
  unfoldable pub client_rounds :
      ℕ
      → ℕ
      → Mode
      → ℕ
      → ℕ
      → ℕ
      → List ℕ
      → MultisimClient.State World
      → Run (Ended × MultisimClient.State World)
  unfolding client_sends client_receives
  client_rounds tries fuel mode w zero i buf s = returned (all_rounds buf, s)
  client_rounds tries fuel mode w (suc left) i buf s = do
    a ← client_sends tries fuel mode w i buf s
    b ← client_receives tries fuel mode w a.0 a.1
    let rest = client_rounds tries fuel mode w left (i + 1) b.0 b.1
    if receives mode
        then if is_numbered i b.0 then rest else returned (bad_data (get_or b.0 0 0) i, b.1)
        else rest

  unfoldable pub client_main :
      ℕ → ℕ → Bytes → ℕ → ℕ → MultisimClient.State World → Run (ℕ × MultisimClient.State World)
  unfolding multisim_client_start client_rounds bytes_eq buf_32b_size
  client_main tries fuel mode n w s = do
    a ← multisim_client_start os fuel sw s (codes ".") (codes "req")
    b ← multisim_client_start os fuel sw a (codes ".") (codes "rsp")
    c ← client_rounds tries fuel (mode_of mode) w n 0 (filled (buf_32b_size w)) b
    returned (exit_code c.0, c.1)

  -- The loop of each mode of the server; the buffer at its end is not read again.
  unfoldable pub echo_rounds :
      ℕ → ℕ → ℕ → ℕ → List ℕ → MultisimServer.State World → Run (Ended × MultisimServer.State World)
  unfolding server_pull server_push
  echo_rounds tries fuel w zero buf s = returned (all_rounds buf, s)
  echo_rounds tries fuel w (suc left) buf s = do
    a ← server_pull tries fuel w buf s
    b ← server_push tries fuel w a.0 a.1
    echo_rounds tries fuel w left a.0 b

  unfoldable pub stream_rounds :
      ℕ
      → ℕ
      → ℕ
      → ℕ
      → ℕ
      → List ℕ
      → MultisimServer.State World
      → Run (Ended × MultisimServer.State World)
  unfolding server_push
  stream_rounds tries fuel w zero i buf s = returned (all_rounds buf, s)
  stream_rounds tries fuel w (suc left) i buf s = do
    a ← server_push tries fuel w (number i buf) s
    stream_rounds tries fuel w left (i + 1) (number i buf) a

  unfoldable pub upstream_rounds :
      ℕ
      → ℕ
      → ℕ
      → ℕ
      → ℕ
      → List ℕ
      → MultisimServer.State World
      → Run (Ended × MultisimServer.State World)
  unfolding server_pull
  upstream_rounds tries fuel w zero i buf s = returned (all_rounds buf, s)
  upstream_rounds tries fuel w (suc left) i buf s = do
    a ← server_pull tries fuel w buf s
    let rest = upstream_rounds tries fuel w left (i + 1) a.0 a.1
    if is_numbered i a.0 then rest else returned (bad_data (get_or a.0 0 0) i, a.1)

  unfoldable pub idle_rounds :
      ℕ → ℕ → ℕ → List ℕ → MultisimServer.State World → Run (Ended × MultisimServer.State World)
  unfolding multisim_server_pull
  idle_rounds fuel w zero buf s = returned (all_rounds buf, s)
  idle_rounds fuel w (suc left) buf s = do
    p ← multisim_server_pull os fuel sw s (codes "req") buf w []
    idle_rounds fuel w left p.array p.state

  pub server_rounds :
      ℕ
      → ℕ
      → Mode
      → ℕ
      → ℕ
      → List ℕ
      → MultisimServer.State World
      → Run (Ended × MultisimServer.State World)
  unfolding echo_rounds stream_rounds upstream_rounds idle_rounds server_push
  server_rounds tries fuel pingpong w n buf s = echo_rounds tries fuel w n buf s
  server_rounds tries fuel stream w n buf s = stream_rounds tries fuel w n 0 buf s
  server_rounds tries fuel upstream w n buf s = upstream_rounds tries fuel w n 0 buf s
  server_rounds tries fuel idle w n buf s = do
    a ← server_push tries fuel w buf s
    idle_rounds fuel w n buf a

  unfoldable pub server_main :
      ℕ → ℕ → Bytes → ℕ → ℕ → MultisimServer.State World → Run (ℕ × MultisimServer.State World)
  unfolding multisim_server_start server_rounds bytes_eq buf_32b_size
  server_main tries fuel mode n w s = do
    a ← multisim_server_start os fuel s (codes "req")
    b ← multisim_server_start os fuel a.1 (codes "rsp")
    c ← server_rounds tries fuel (mode_of mode) w n (filled (buf_32b_size w)) b.1
    returned (exit_code c.0, c.1)
