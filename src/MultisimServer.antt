-- ===== src/MultisimServer.antt =====
-- src/core/multisim_server.cpp: the server side of the channels.
pub mod Start
pub mod Push
pub mod Pull
pub mod Frame
pub mod Alive
pub mod Once
pub mod Ledger
pub mod Connecting
pub mod Starting
pub mod Exact
use multisim.Base.{
  ℕ, zero, suc, ◌+◌, Bool, true, false, ◌||◌, List, [], ◌∷◌, ltb, ◌==◌, if◌then◌else◌, Bytes, codes,
  Option, none, some, Run, returned, exited, aborted, ◌>>=◌, ◌>>◌,
}
use multisim.Os.{Os, Ret, count, failed, Errno, eagain, ewouldblock, eintr, other}
use multisim.SocketIo.{send_msg, read_msg}
use multisim.SocketServer
use multisim.SocketServer.{Server}
use multisim.Names.{Names, find, insert, server_max, check_server_name, get_server_idx}
use multisim.Data.{
  Target, four_state_unsupported, buf_size, message, read_target, pulled, not_pulled,
}

-- A static array, written at one index.
abbrev pub update {ℓ} : {A : Type ℓ} → (ℕ → A) → ℕ → A → ℕ → A
update f i v j = if j == i then v else f j

-- The statics of the file and `Server::serverNameSet`; a socket of -1 is `none`. The array `sockets` is
-- not initialised to -1: its elements are 0, `some 0` here, until a start sets them.
pub record State (World : Type 0) : Type 0 where
  pub world : World
  pub server : ℕ → Server
  pub sockets : ℕ → Option ℕ
  pub server_idx : ℕ
  pub server_name_to_idx : Names
  pub server_name_set : List Bytes

-- The statics before the first start. The pointers of `server` are null, and are not followed before
-- they are set: `nowhere` stands for what they point to.
abbrev pub initial : {World : Type 0} → World → (ℕ → Server) → State World
initial w nowhere = record {
  world = w;
  server = nowhere;
  sockets = λ i. some 0;
  server_idx = 0;
  server_name_to_idx = [];
  server_name_set = [];
}

-- MULTISIM_SUCCESS and MULTISIM_FAIL
abbrev pub success : ℕ
success = 1

abbrev pub fail : ℕ
fail = 0

-- What `pull_core` returns, with the array behind `data_handle` after it.
pub record Pulled (World : Type 0) : Type 0 where
  pub status : ℕ
  pub array : List ℕ
  pub state : State World

-- `errno == EAGAIN || errno == EWOULDBLOCK`
pub would_block : Errno → Bool
would_block eagain = true
would_block ewouldblock = true
would_block eintr = false
would_block (other n) = false

module _ (os : Os) where
  open os use {World, close}

  -- The stores of `multisim_server_start`, for the names behind the constructor and the server behind
  -- its `start()`.
  unfoldable pub register : State World → Bytes → List Bytes → Server × World → State World
  unfolding insert
  register s name names (made, w) = record s {
    world = w;
    server = update s.server s.server_idx made;
    sockets = update s.sockets s.server_idx none;
    server_idx = s.server_idx + 1;
    server_name_to_idx = insert name s.server_idx s.server_name_to_idx;
    server_name_set = names;
  }

  -- `multisim_server_start`, with `fuel` ports tried at most.
  unfoldable pub multisim_server_start : ℕ → State World → Bytes → Run (ℕ × State World)
  unfolding check_server_name SocketServer.construct SocketServer.start register
  multisim_server_start fuel s name = do
    if ltb s.server_idx server_max then returned tt else aborted
    check_server_name name
    made ← SocketServer.construct s.server_name_set (codes ".multisim") name
    up ← SocketServer.start os fuel s.world made.0
    returned (success, register s name made.1 up)

  -- `if (sockets[idx] < 0) sockets[idx] = server[idx]->acceptNewSocket();`
  pub connect_client : State World → ℕ → Option ℕ → Option ℕ × State World
  unfolding SocketServer.accept_new_socket
  connect_client s idx (some fd) = (some fd, s)
  connect_client s idx none =
      let (fd, w) = SocketServer.accept_new_socket os s.world (s.server idx) in
      (fd, record s { world = w; sockets = update s.sockets idx fd })

  -- `close(sockets[idx]); sockets[idx] = -1;`
  pub drop_client : State World → World → ℕ → ℕ → State World
  drop_client s w idx fd = record s { world = close w fd; sockets = update s.sockets idx none }

  -- Behind the `read_msg` on `sockets[idx]`.
  pub pull_result :
      Target → Bool → ℕ → List ℕ → State World → ℕ → ℕ → Ret × Bytes × World → Pulled World
  unfolding drop_client pulled not_pulled
  pull_result t is_4state width mem s idx fd (count (suc k), dst, w) = record {
    status = success;
    array = pulled t is_4state width mem dst;
    state = record s { world = w };
  }
  pull_result t is_4state width mem s idx fd (count zero, dst, w) = record {
    status = fail;
    array = not_pulled is_4state mem dst;
    state = drop_client s w idx fd;
  }
  pull_result t is_4state width mem s idx fd (failed e, dst, w) = record {
    status = fail;
    array = not_pulled is_4state mem dst;
    state = record s { world = w };
  }

  pub pull_connected :
      ℕ → Target → Bool → ℕ → List ℕ → List ℕ → ℕ → Option ℕ × State World → Run (Pulled World)
  unfolding pull_result read_msg buf_size read_target
  pull_connected fuel t is_4state width mem stack idx (none, s) =
      returned (record { status = fail; array = mem; state = s })
  pull_connected fuel t is_4state width mem stack idx (some fd, s) = do
    r ← read_msg os fuel s.world fd (buf_size is_4state width) (read_target is_4state mem stack)
    returned (pull_result t is_4state width mem s idx fd r)

  -- `multisim_server_pull_core`, with `fuel` rounds of `read_msg` at most. `mem` is the array behind
  -- `data_handle`, and `stack` what `read_buf` holds at first.
  unfoldable pub multisim_server_pull_core :
      ℕ → Target → State World → Bytes → List ℕ → ℕ → Bool → List ℕ → Run (Pulled World)
  unfolding get_server_idx connect_client pull_connected
  multisim_server_pull_core fuel t s name mem width is_4state stack = do
    idx ← get_server_idx name s.server_name_to_idx
    pull_connected fuel t is_4state width mem stack idx (connect_client s idx (s.sockets idx))

  -- Behind the `send_msg` on `sockets[idx]`.
  pub push_result : State World → ℕ → ℕ → Ret × World → ℕ × State World
  unfolding drop_client would_block
  push_result s idx fd (count (suc k), w) = (success, record s { world = w })
  push_result s idx fd (count zero, w) = (fail, drop_client s w idx fd)
  push_result s idx fd (failed e, w) =
      (fail, if would_block e then record s { world = w } else drop_client s w idx fd)

  pub push_connected : ℕ → Bytes → ℕ → Option ℕ × State World → Run (ℕ × State World)
  unfolding push_result send_msg
  push_connected fuel msg idx (none, s) = returned (fail, s)
  push_connected fuel msg idx (some fd, s) = do
    r ← send_msg os fuel s.world fd msg
    returned (push_result s idx fd r)

  -- `multisim_server_push_core`, with `fuel` rounds of `send_msg` at most.
  unfoldable pub multisim_server_push_core :
      ℕ → Target → State World → Bytes → List ℕ → ℕ → Bool → List ℕ → Run (ℕ × State World)
  unfolding get_server_idx connect_client push_connected message
  multisim_server_push_core fuel t s name mem width is_4state stack = do
    idx ← get_server_idx name s.server_name_to_idx
    push_connected fuel (message t is_4state width mem stack) idx
        (connect_client s idx (s.sockets idx))

  unfoldable pub multisim_server_pull :
      ℕ → Target → State World → Bytes → List ℕ → ℕ → List ℕ → Run (Pulled World)
  unfolding multisim_server_pull_core
  multisim_server_pull fuel t s name mem width stack =
      multisim_server_pull_core fuel t s name mem width false stack

  unfoldable pub multisim_server_push :
      ℕ → Target → State World → Bytes → List ℕ → ℕ → List ℕ → Run (ℕ × State World)
  unfolding multisim_server_push_core
  multisim_server_push fuel t s name mem width stack =
      multisim_server_push_core fuel t s name mem width false stack

  unfoldable pub multisim_server_pull_4state :
      ℕ → Target → State World → Bytes → List ℕ → ℕ → List ℕ → Run (Pulled World)
  unfolding multisim_server_pull_core
  multisim_server_pull_4state fuel t s name mem width stack = do
    if four_state_unsupported t then aborted else returned tt
    multisim_server_pull_core fuel t s name mem width true stack

  unfoldable pub multisim_server_push_4state :
      ℕ → Target → State World → Bytes → List ℕ → ℕ → List ℕ → Run (ℕ × State World)
  unfolding multisim_server_push_core
  multisim_server_push_4state fuel t s name mem width stack = do
    if four_state_unsupported t then aborted else returned tt
    multisim_server_push_core fuel t s name mem width true stack
