-- ===== src/SocketServer.antt =====
-- src/core/socket_server/server.cpp and server.h: class `Server`, a non-blocking socket server.
pub mod Start
pub mod Frame
pub mod Ledger
pub mod Starting
use multisim.Base.{
  ℕ, zero, suc, ◌+◌, ◌%◌, ◌^◌, Bool, true, false, ◌||◌, not, List, [], ◌∷◌, ◌++◌, if◌then◌else◌,
  Bytes, codes, bytes_eq, get_or, Option, none, some, Run, returned, exited, running, ◌>>=◌,
}
use multisim.Os.{Os, Interface}
use multisim.InfoFile.{info_file_path}
use multisim.UnixSocket.{unix_socket_file, unix_socket_addr, Addr, to_string}

abbrev pub base_port : ℕ
base_port = 8100

-- A descriptor of -1 is `none`. Members that are not initialised hold what is given here until
-- `start`, and nothing reads them before.
pub record Server : Type 0 where
  pub server_name : Bytes
  pub server_info_dir : Bytes
  pub server_ip : Bytes
  pub server_port : ℕ
  pub server_fd : ℕ
  pub unix_fd : Option ℕ
  pub unix_socket_path : Bytes
  pub server_is_running : Bool

-- `serverNameSet.find(name) != serverNameSet.end()`
unfoldable pub in_set : Bytes → List Bytes → Bool
in_set name [] = false
in_set name (n ∷ names) = bytes_eq name n || in_set name names

abbrev pub new_server : Bytes → Bytes → Server
new_server dir name = record {
  server_name = name;
  server_info_dir = dir;
  server_ip = [];
  server_port = 0;
  server_fd = 0;
  unix_fd = none;
  unix_socket_path = [];
  server_is_running = false;
}

-- The constructor; the set of names is the static `serverNameSet`.
unfoldable pub construct : List Bytes → Bytes → Bytes → Run (Server × List Bytes)
unfolding in_set
construct names dir name =
    if in_set name names then exited else returned (new_server dir name, name ∷ names)

-- The addresses of loopback interfaces are skipped.
unfoldable pub first_ip : List Interface → Bytes
first_ip [] = codes "127.0.0.1"
first_ip (i ∷ is') = elim (i.inet) [
  | none ↦ first_ip is'
  | some ip ↦
      let rest = first_ip is' in
      if bytes_eq i.name (codes "lo") || bytes_eq i.name (codes "lo0") then rest else ip
]

-- What `start` prints into the info file.
unfoldable pub info_text : Server → Bytes
info_text s =
    codes "ip: "
    ++ (s.server_ip
        ++ (codes "\n"
            ++ (codes "port: "
                ++ (to_string s.server_port
                    ++ (codes "\n" ++ elim (s.unix_fd) [
                      | none ↦ []
                      | some fd ↦ codes "unix: " ++ (s.unix_socket_path ++ codes "\n")
                    ])))))

module _ (os : Os) where
  open os use {
    World, close, socket_inet, socket_unix, set_nonblock, bind_inet, bind_unix, listen, poll_in,
    accept, interfaces, mkdir, realpath, unlink, open_dir, write_file,
  }

  -- `Server::getIp`
  unfoldable pub get_ip : World → Bytes × World
  unfolding first_ip
  get_ip w =
      let (found, w') = interfaces w in
      elim found [ none ↦ (codes "127.0.0.1", w') | some is' ↦ (first_ip is', w') ]

  -- The `while (1)` loop over `i`, which ends at the first port that can be bound; `htons` keeps 16
  -- bits. The result is `serverPort`.
  unfoldable pub bind_loop : ℕ → World → ℕ → ℕ → Run (ℕ × World)
  bind_loop zero w fd i = running
  bind_loop (suc fuel) w fd i =
      let port = base_port + i in
      let tried = bind_inet w fd (port % 2 ^ 16) in
      let rest = bind_loop fuel tried.1 fd (i + 1) in
      if tried.0 then returned (port, tried.1) else rest

  unfoldable pub close_opened : World → Option ℕ → World
  close_opened w none = w
  close_opened w (some fd) = close w fd

  -- The bind and the listen of the Unix socket, `||` from left to right.
  pub unix_listen : World → ℕ → Option Bytes → Bool × World
  unix_listen w fd none = (false, w)
  unix_listen w fd (some path) =
      let bound = bind_unix w fd path in
      let listening = listen bound.1 fd in if bound.0 then listening else (false, bound.1)

  -- The Unix socket with its descriptor open.
  pub unix_setup : World → Server → Bytes → Bytes → ℕ → Server × World
  unfolding unix_listen close_opened unix_socket_addr
  unix_setup w s dir file fd =
      let a = unix_socket_addr open_dir close (unlink w s.unix_socket_path) dir file in
      let l = unix_listen a.world fd a.path in
      if l.0
      then (record s { unix_fd = some fd }, close_opened (set_nonblock l.1 fd) a.dirfd)
      else (record s { unix_fd = none }, close_opened (close l.1 fd) a.dirfd)

  pub unix_open : Server → Bytes → Bytes → Option ℕ × World → Server × World
  unfolding unix_setup
  unix_open s dir file (none, w) = (record s { unix_fd = none }, w)
  unix_open s dir file (some fd, w) = unix_setup w s dir file fd

  -- `Server::startUnixSocket`
  unfoldable pub start_unix_socket : World → Server → Server × World
  unfolding unix_open unix_socket_file
  start_unix_socket w s =
      let (found, w') = realpath w s.server_info_dir in
      elim found [
        | none ↦ (s, w')
        | some dir ↦
            let file = unix_socket_file s.server_name in
            unix_open (record s { unix_socket_path = dir ++ (codes "/" ++ file) }) dir file
              (socket_unix w')
      ]

  -- From `mkdir` on: the Unix socket and the info file.
  pub start_files : World → Server → Run (Server × World)
  unfolding start_unix_socket info_file_path info_text
  start_files w s =
      let (s', w') = start_unix_socket (mkdir w s.server_info_dir) s in
      let path = info_file_path s'.server_info_dir (codes "server_") s'.server_name in
      let written = write_file w' path (info_text s') in
      if written.0 then returned (s', written.1) else exited

  -- Behind the loop over the ports.
  pub start_listening : Server → ℕ × World → Run (Server × World)
  unfolding start_files get_ip
  start_listening s (port, w) =
      let l = listen w s.server_fd in
      let ip = get_ip l.1 in
      let up =
        start_files ip.1
          (record s { server_port = port; server_ip = ip.0; server_is_running = true }) in
      if l.0 then up else exited

  pub start_socket : ℕ → Server → Option ℕ × World → Run (Server × World)
  unfolding start_listening bind_loop
  start_socket fuel s (none, w) = exited
  start_socket fuel s (some fd, w) = do
    bound ← bind_loop fuel (set_nonblock w fd) fd 0
    start_listening (record s { server_fd = fd }) bound

  -- `Server::start`, with `fuel` ports tried at most.
  unfoldable pub start : ℕ → World → Server → Run (Server × World)
  unfolding start_socket
  start fuel w s = if s.server_is_running then exited else start_socket fuel s (socket_inet w)

  pub accept_unix : World → Option ℕ → Bool → Option ℕ × World
  accept_unix w (some fd) true = accept w fd
  accept_unix w (some fd) false = (none, w)
  accept_unix w none unix_in = (none, w)

  pub accept_tcp : Server → Bool → Option ℕ × World → Option ℕ × World
  accept_tcp s true (none, w) = accept w s.server_fd
  accept_tcp s false (none, w) = (none, w)
  accept_tcp s tcp_in (some fd, w) = (some fd, w)

  pub unblocked : Option ℕ × World → Option ℕ × World
  unblocked (none, w) = (none, w)
  unblocked (some fd, w) = (some fd, set_nonblock w fd)

  -- The descriptors that are polled, the TCP socket first.
  abbrev pub listening : Server → List ℕ
  listening s = elim (s.unix_fd) [ none ↦ s.server_fd ∷ [] | some fd ↦ s.server_fd ∷ fd ∷ [] ]

  -- Behind the `poll`; an entry that was not polled has no POLLIN.
  pub accept_ready : Server → Option (List Bool) × World → Option ℕ × World
  unfolding accept_unix accept_tcp unblocked
  accept_ready s (none, w) = (none, w)
  accept_ready s (some revents, w) =
      unblocked
        (accept_tcp s (get_or revents 0 false) (accept_unix w s.unix_fd (get_or revents 1 false)))

  -- `Server::acceptNewSocket`
  unfoldable pub accept_new_socket : World → Server → Option ℕ × World
  unfolding accept_ready
  accept_new_socket w s = accept_ready s (poll_in w (listening s))
