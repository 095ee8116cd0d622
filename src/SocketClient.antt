-- ===== src/SocketClient.antt =====
-- src/core/socket_server/client.cpp and client.h: class `Client`, a non-blocking socket client.
pub mod Info
pub mod Frame
pub mod Made
pub mod Live
use multisim.Base.{
  ℕ, zero, suc, ◌+◌, ◌-◌, ◌%◌, ◌^◌, Bool, true, false, ◌||◌, [], ◌∷◌, ◌++◌, ltb, ◌==◌,
  if◌then◌else◌, Bytes, codes, bytes_eq, take, drop, Option, none, some, Run, returned, running,
}
use multisim.Base
use multisim.Os.{Os}
use multisim.InfoFile.{info_file_path}
use multisim.UnixSocket.{unix_socket_addr, Addr, to_string}
use multisim.SocketServer.{get_ip, close_opened}
use multisim.Scan.{scan_word, scan_int}

-- `server_port` is the bit pattern of the `int`. Members that the constructor does not set hold what
-- is given here, and nothing reads them before `start` has set them; the -1 of a `socket()` that
-- fails is not stored, since nothing reads it either.
pub record Client : Type 0 where
  pub client_ip : Bytes
  pub server_name : Bytes
  pub server_info_dir : Bytes
  pub server_ip : Bytes
  pub server_port : ℕ
  pub server_unix_socket : Bytes
  pub server_address : Bytes
  pub new_socket : ℕ

unfoldable pub new_client : Bytes → Bytes → Client
new_client dir name = record {
  client_ip = [];
  server_name = name;
  server_info_dir = dir;
  server_ip = [];
  server_port = 0;
  server_unix_socket = [];
  server_address = [];
  new_socket = 0;
}

infixl 5 ◌>>=◌
abbrev pub ◌>>=◌ : {A B : Type 0} → Option A → (A → Option B) → Option B
none >>= f = none
some a >>= f = f a

-- "unix: /path/of/the/socket", optional.
pub scan_unix : Bytes → Option Bytes
scan_unix s = do
  (garbage, s1) ← scan_word 127 s
  (path, s2) ← scan_word 4095 s1
  if bytes_eq garbage (codes "unix:") then some path else none

abbrev or_empty : Option Bytes → Bytes
or_empty none = []
or_empty (some path) = path

-- `getServerIpAndPort` on the text of the file, `none` where it returns 0.
unfoldable pub parse_info : Bytes → Client → Option Client
parse_info s c = do
  (garbage, s1) ← scan_word 127 s
  (ip, s2) ← scan_word 127 s1
  (garbage', s3) ← scan_word 127 s2
  (port, s4) ← scan_int s3
  some (record c {
    server_ip = ip;
    server_port = port;
    server_unix_socket = or_empty (scan_unix s4);
  })

-- `path.rfind('/')`
unfoldable pub rfind_slash : Bytes → Option ℕ
rfind_slash [] = none
rfind_slash (c ∷ s) = elim (rfind_slash s) [
  | some i ↦ some (suc i)
  | none ↦ if c == b'/' then some 0 else none
]

-- `std::to_string` of an `int`
unfoldable pub int_to_string : ℕ → Bytes
int_to_string p = if ltb p (2 ^ 31) then to_string p else b'-' ∷ to_string (2 ^ 32 - p)

module _ (os : Os) where
  open os use {
    World, close, set_nonblock, socket_inet, socket_unix, open_dir, connect_unix, connect_inet,
    inet_pton, read_file, sleep,
  }

  -- `unix_socket_addr(...) < 0 || connect(...) < 0`, turned round.
  pub try_connect : World → ℕ → Option Bytes → Bool × World
  try_connect w fd none = (false, w)
  try_connect w fd (some path) = connect_unix w fd path

  -- The members that a connection sets, behind the `fcntl`.
  pub connected : World → Client → ℕ → Bytes → Bool × Client × World
  unfolding get_ip
  connected w c fd address =
      let ip = get_ip os (set_nonblock w fd) in
      (true, record c { new_socket = fd; client_ip = ip.0; server_address = address }, ip.1)

  pub unix_connect : World → Client → Bytes → ℕ → ℕ → Bool × Client × World
  unfolding try_connect connected unix_socket_addr close_opened
  unix_connect w c path slash fd =
      let a = unix_socket_addr open_dir close w (take slash path) (drop (slash + 1) path) in
      let t = try_connect a.world fd a.path in
      let w' = close_opened os t.1 a.dirfd in
      if t.0 then connected w' c fd path else (false, record c { new_socket = fd }, close w' fd)

  pub unix_socket_opened : Client → Bytes → ℕ → Option ℕ × World → Bool × Client × World
  unfolding unix_connect
  unix_socket_opened c path slash (none, w) = (false, c, w)
  unix_socket_opened c path slash (some fd, w) = unix_connect w c path slash fd

  -- `startWithUnixSocket`; an empty path has no slash.
  unfoldable pub start_with_unix_socket : World → Client → Bytes → Bool × Client × World
  unfolding unix_socket_opened rfind_slash
  start_with_unix_socket w c path = elim (rfind_slash path) [
    | none ↦ (false, c, w)
    | some slash ↦ unix_socket_opened c path slash (socket_unix w)
  ]

  pub inet_connect : World → Client → Bytes → ℕ → ℕ → Bool × Client × World
  unfolding connected int_to_string
  inet_connect w c address port fd =
      let t = connect_inet w fd address (port % 2 ^ 16) in
      if inet_pton address
      then if t.0
        then connected t.1 c fd (address ++ (codes ":" ++ int_to_string port))
        else (false, record c { new_socket = fd }, close t.1 fd)
      else (false, record c { new_socket = fd }, close w fd)

  pub inet_socket_opened : Client → Bytes → ℕ → Option ℕ × World → Bool × Client × World
  unfolding inet_connect
  inet_socket_opened c address port (none, w) = (false, c, w)
  inet_socket_opened c address port (some fd, w) = inet_connect w c address port fd

  -- `startWithAddressAndPort`
  unfoldable pub start_with_address_and_port : World → Client → Bytes → ℕ → Bool × Client × World
  unfolding inet_socket_opened
  start_with_address_and_port w c address port = inet_socket_opened c address port (socket_inet w)

  pub parse_file : Client → Option Bytes × World → Option Client × World
  unfolding parse_info scan_unix scan_word scan_int
  parse_file c (none, w) = (none, w)
  parse_file c (some text, w) = (parse_info text c, w)

  -- `getServerIpAndPort`, `none` where it returns 0 and changes nothing.
  unfoldable pub get_server_ip_and_port : World → Client → Bytes → Option Client × World
  unfolding parse_file
  get_server_ip_and_port w c file = parse_file c (read_file w file)

  -- The first loop of `start`, until the info file can be read.
  unfoldable pub wait_for_info : ℕ → World → Client → Bytes → Run (Client × World)
  unfolding get_server_ip_and_port
  wait_for_info zero w c file = running
  wait_for_info (suc fuel) w c file =
      let found = get_server_ip_and_port w c file in
      elim (found.0) [
        | some c' ↦ returned (c', found.1)
        | none ↦ wait_for_info fuel (sleep found.1) c file
      ]

  -- The condition of the second loop: the Unix socket first, then TCP.
  unfoldable pub try_start : World → Client → Bool × Client × World
  unfolding start_with_unix_socket start_with_address_and_port
  try_start w c =
      let u = start_with_unix_socket w c c.server_unix_socket in
      let t = start_with_address_and_port u.2 u.1 u.1.server_ip u.1.server_port in
      if u.0 then u else t

  abbrev pub or_old : Client → Option Client → Client
  or_old c none = c
  or_old c (some c') = c'

  -- The second loop of `start`, until a connection is made; the info file is read again each time.
  unfoldable pub connect_loop : ℕ → World → Client → Bytes → Run (Client × World)
  unfolding try_start get_server_ip_and_port
  connect_loop zero w c file = running
  connect_loop (suc fuel) w c file =
      let t = try_start w c in
      let again = get_server_ip_and_port (sleep t.2) t.1 file in
      let rest = connect_loop fuel again.1 (or_old t.1 again.0) file in
      if t.0 then returned (t.1, t.2) else rest

  -- `Client::start`, with `fuel` rounds of each loop at most.
  unfoldable pub start : ℕ → World → Client → Run (Client × World)
  unfolding wait_for_info connect_loop info_file_path
  start fuel w c =
      let file = info_file_path c.server_info_dir (codes "server_") c.server_name in
      Base.◌>>=◌ (wait_for_info fuel w c file) (λ found. connect_loop fuel found.1 found.0 file)
