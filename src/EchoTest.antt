-- ===== src/EchoTest.antt =====
-- example/sw_server/sw_client/unit/echo.cpp: servers that push one value each, and a client that
-- pulls and checks them.
use multisim.Base.{
  ℕ, zero, suc, ◌+◌, ◌-◌, ◌*◌, ◌%◌, Bool, true, ◌&&◌, List, [], ◌∷◌, leb, ◌==◌, if◌then◌else◌,
  Bytes, codes, get_or, Run, returned, running, aborted, ◌>>=◌,
}
use multisim.Os.{Os}
use multisim.Data.{sw}
use multisim.MultisimServer
use multisim.MultisimServer.{multisim_server_start, multisim_server_push}
use multisim.MultisimClient
use multisim.MultisimClient.{multisim_client_start, multisim_client_pull}

abbrev pub value : ℕ
value = 0x12345678

-- `arg.find_first_not_of("0123456789") == std::string::npos`
unfoldable pub all_digits : Bytes → Bool
all_digits [] = true
all_digits (c ∷ arg) = (leb 48 c && leb c 57) && all_digits arg

-- `std::stoi` of digits, behind the value `v`.
unfoldable pub stoi_from : ℕ → Bytes → ℕ
stoi_from v [] = v
stoi_from v (c ∷ arg) = stoi_from (10 * v + (c - 48)) arg

-- `std::stoi` throws where there is no digit or the value is no `int`, which ends the program.
unfoldable pub stoi : Bytes → Run ℕ
unfolding stoi_from
stoi [] = aborted
stoi (c ∷ arg) =
    if leb (stoi_from 0 (c ∷ arg)) 2147483647 then returned (stoi_from 0 (c ∷ arg)) else aborted

-- The loop `name += 'a' + k % 26`, from `k` on.
unfoldable pub letters : ℕ → ℕ → Bytes
letters k zero = []
letters k (suc left) = (97 + k % 26) ∷ letters (k + 1) left

unfoldable pub name_of : Bytes → Run Bytes
unfolding all_digits stoi letters
name_of arg = if all_digits arg then (stoi arg >>= λ n. returned (letters 0 n)) else returned arg

-- The loop over the arguments.
unfoldable pub names_of : List Bytes → Run (List Bytes)
unfolding name_of
names_of [] = returned []
names_of (arg ∷ args) = do name ← name_of arg; names ← names_of args; returned (name ∷ names)

-- `usleep` is usleep(1000).
module _ (os : Os) (usleep : os.World → os.World) where
  open os use {World}

  unfoldable pub start_clients :
      ℕ → List Bytes → MultisimClient.State World → Run (MultisimClient.State World)
  unfolding multisim_client_start
  start_clients fuel [] s = returned s
  start_clients fuel (n ∷ names) s = do
    a ← multisim_client_start os fuel sw s (codes ".") n
    start_clients fuel names a

  -- The result is the exit code.
  unfoldable pub pull_values :
      ℕ → List Bytes → MultisimClient.State World → Run (ℕ × MultisimClient.State World)
  unfolding multisim_client_pull
  pull_values fuel [] s = returned (0, s)
  pull_values fuel (n ∷ names) s = do
    p ← multisim_client_pull os fuel sw s n (0 ∷ []) 32 []
    let rest = pull_values fuel names p.state
    if p.status == 0
        then returned (1, p.state)
        else if get_or p.array 0 0 == value
        then rest
        else returned (1, p.state)

  unfoldable pub client_main :
      ℕ → List Bytes → MultisimClient.State World → Run (ℕ × MultisimClient.State World)
  unfolding names_of start_clients pull_values
  client_main fuel args s = do
    names ← names_of args
    a ← start_clients fuel names s
    pull_values fuel names a

  unfoldable pub start_servers :
      ℕ → List Bytes → MultisimServer.State World → Run (MultisimServer.State World)
  unfolding multisim_server_start
  start_servers fuel [] s = returned s
  start_servers fuel (n ∷ names) s = do
    a ← multisim_server_start os fuel s n
    start_servers fuel names a.1

  -- The `while` loop around the push, with `tries` rounds at most.
  unfoldable pub push_value :
      ℕ → ℕ → Bytes → MultisimServer.State World → Run (MultisimServer.State World)
  unfolding multisim_server_push
  push_value zero fuel n s = running
  push_value (suc tries) fuel n s = do
    q ← multisim_server_push os fuel sw s n (value ∷ []) 32 []
    if q.0 == 0
        then push_value tries fuel n (record q.1 { world = usleep q.1.world })
        else returned q.1

  unfoldable pub push_values :
      ℕ → ℕ → List Bytes → MultisimServer.State World → Run (MultisimServer.State World)
  unfolding push_value
  push_values tries fuel [] s = returned s
  push_values tries fuel (n ∷ names) s = do
    a ← push_value tries fuel n s
    push_values tries fuel names a

  unfoldable pub server_main :
      ℕ → ℕ → List Bytes → MultisimServer.State World → Run (ℕ × MultisimServer.State World)
  unfolding names_of start_servers push_values
  server_main tries fuel args s = do
    names ← names_of args
    a ← start_servers fuel names s
    b ← push_values tries fuel names a
    returned (0, b)
