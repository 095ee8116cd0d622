-- ===== src/MultisimClient.antt =====
-- src/core/multisim_client.cpp: the client side of the channels.
pub mod Start
pub mod Transfer
pub mod Frame
pub mod Alive
use multisim.Base.{
  ℕ, zero, suc, ◌+◌, Bool, true, false, List, [], ◌∷◌, ◌++◌, ltb, ◌==◌, if◌then◌else◌, Bytes, codes,
  Option, none, some, Run, returned, exited, aborted, ◌>>=◌, ◌>>◌,
}
use multisim.Os.{Os, Ret, count, failed}
use multisim.InfoFile.{info_file_path}
use multisim.UnixSocket.{to_string}
use multisim.SocketIo.{send_msg, read_msg}
use multisim.SocketClient
use multisim.SocketClient.{Client, new_client, int_to_string}
use multisim.Names.{Names, insert, server_max, check_server_name, get_server_idx}
use multisim.Data.{
  Target, simulation, emulation, sw, four_state_unsupported, buf_size, message, read_target, pulled,
  not_pulled,
}
use multisim.MultisimServer.{update, success, fail}

-- MULTISIM_BLOCKING_SOCKET
abbrev pub blocking_socket : Target → Bool
blocking_socket simulation = false
blocking_socket emulation = false
blocking_socket sw = true

-- The statics of the file and of `multisim_client_start`.
pub record State (World : Type 0) : Type 0 where
  pub world : World
  pub sockets : ℕ → ℕ
  pub server_idx : ℕ
  pub server_name_to_idx : Names
  pub client_info_file : Bytes

-- What a pull returns, with the array behind `data_handle` after it.
pub record Pulled (World : Type 0) : Type 0 where
  pub status : ℕ
  pub array : List ℕ
  pub state : State World

module _ (os : Os) where
  open os use {World, set_blocking, write_file, append_file, getpid}

  blocking : Target → World → ℕ → World
  blocking t w fd = if blocking_socket t then set_blocking w fd else w

  -- "server_<idx>: <name> <ip> <port>"
  server_line : ℕ → Bytes → Client → Bytes
  unfolding int_to_string
  server_line idx name c =
      codes "server_"
      ++ (to_string idx
          ++ (codes ": "
              ++ (name
                  ++ (codes " "
                      ++ (c.server_ip
                          ++ (codes " " ++ (int_to_string c.server_port ++ codes "\n")))))))

  -- The info of the client, in the file named after its first server; the result says that the file
  -- could be opened.
  dump_info : State World → World → Bytes → Bytes → Client → Bytes × Bool × World
  unfolding server_line info_file_path
  dump_info s w dir name c =
      let first = info_file_path dir (codes "client_") name in
      let head =
        codes "ip: "
        ++ (c.client_ip
            ++ (codes "\n" ++ (codes "pid: " ++ (to_string (getpid w) ++ codes "\n")))) in
      let line = server_line s.server_idx name c in
      let written = write_file w first (head ++ line) in
      let appended = append_file w s.client_info_file line in
      if s.server_idx == 0
      then (first, written.0, written.1)
      else (s.client_info_file, appended.0, appended.1)

  -- The stores of `multisim_client_start`, with the info file that was dumped.
  pub register : State World → Bytes → ℕ → Bytes × Bool × World → Run (State World)
  unfolding insert
  register s name fd (file, true, w) = returned (record {
    world = w;
    sockets = update s.sockets s.server_idx fd;
    server_idx = s.server_idx + 1;
    server_name_to_idx = insert name s.server_idx s.server_name_to_idx;
    client_info_file = file;
  })
  register s name fd (file, false, w) = exited

  -- `multisim_client_start`, with `fuel` rounds of each loop of `Client::start` at most.
  unfoldable pub multisim_client_start :
      ℕ → Target → State World → Bytes → Bytes → Run (State World)
  unfolding check_server_name SocketClient.start new_client blocking dump_info register
  multisim_client_start fuel t s runtime_dir name = do
    let dir = runtime_dir ++ codes "/.multisim"
    if ltb s.server_idx server_max then returned tt else aborted
    check_server_name name
    up ← SocketClient.start os fuel s.world (new_client dir name)
    register s name up.0.new_socket (dump_info s (blocking t up.1 up.0.new_socket) dir name up.0)

  -- Behind the `send_msg`.
  pub push_result : State World → Ret × World → ℕ × State World
  push_result s (count (suc k), w) = (success, record s { world = w })
  push_result s (count zero, w) = (fail, record s { world = w })
  push_result s (failed e, w) = (fail, record s { world = w })

  -- `multisim_client_push_core`, with `fuel` rounds of `send_msg` at most.
  unfoldable pub multisim_client_push_core :
      ℕ → Target → State World → Bytes → List ℕ → ℕ → Bool → List ℕ → Run (ℕ × State World)
  unfolding get_server_idx message send_msg push_result
  multisim_client_push_core fuel t s name mem width is_4state stack = do
    idx ← get_server_idx name s.server_name_to_idx
    r ← send_msg os fuel s.world (s.sockets idx) (message t is_4state width mem stack)
    returned (push_result s r)

  -- Behind the `read_msg`.
  pub pull_result : Target → Bool → ℕ → List ℕ → State World → Ret × Bytes × World → Pulled World
  unfolding pulled not_pulled
  pull_result t is_4state width mem s (count (suc k), dst, w) = record {
    status = success;
    array = pulled t is_4state width mem dst;
    state = record s { world = w };
  }
  pull_result t is_4state width mem s (count zero, dst, w) = record {
    status = fail;
    array = not_pulled is_4state mem dst;
    state = record s { world = w };
  }
  pull_result t is_4state width mem s (failed e, dst, w) = record {
    status = fail;
    array = not_pulled is_4state mem dst;
    state = record s { world = w };
  }

  -- `multisim_client_pull_core`, with `fuel` rounds of `read_msg` at most. `mem` is the array behind
  -- `data_handle`, and `stack` what `read_buf` holds at first.
  unfoldable pub multisim_client_pull_core :
      ℕ → Target → State World → Bytes → List ℕ → ℕ → Bool → List ℕ → Run (Pulled World)
  unfolding get_server_idx buf_size read_target read_msg pull_result
  multisim_client_pull_core fuel t s name mem width is_4state stack = do
    idx ← get_server_idx name s.server_name_to_idx
    r ←
        read_msg os fuel s.world (s.sockets idx) (buf_size is_4state width)
          (read_target is_4state mem stack)
    returned (pull_result t is_4state width mem s r)

  unfoldable pub multisim_client_push :
      ℕ → Target → State World → Bytes → List ℕ → ℕ → List ℕ → Run (ℕ × State World)
  unfolding multisim_client_push_core
  multisim_client_push fuel t s name mem width stack =
      multisim_client_push_core fuel t s name mem width false stack

  unfoldable pub multisim_client_pull :
      ℕ → Target → State World → Bytes → List ℕ → ℕ → List ℕ → Run (Pulled World)
  unfolding multisim_client_pull_core
  multisim_client_pull fuel t s name mem width stack =
      multisim_client_pull_core fuel t s name mem width false stack

  unfoldable pub multisim_client_push_4state :
      ℕ → Target → State World → Bytes → List ℕ → ℕ → List ℕ → Run (ℕ × State World)
  unfolding multisim_client_push_core
  multisim_client_push_4state fuel t s name mem width stack = do
    if four_state_unsupported t then aborted else returned tt
    multisim_client_push_core fuel t s name mem width true stack

  unfoldable pub multisim_client_pull_4state :
      ℕ → Target → State World → Bytes → List ℕ → ℕ → List ℕ → Run (Pulled World)
  unfolding multisim_client_pull_core
  multisim_client_pull_4state fuel t s name mem width stack = do
    if four_state_unsupported t then aborted else returned tt
    multisim_client_pull_core fuel t s name mem width true stack
