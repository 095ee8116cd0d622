-- ===== src/SocketClient/Frame.antt =====
-- What the system calls of a `Client` keep, its attempts to connect keep too
-- (src/core/socket_server/client.cpp).
use multisim.Base.{
  ℕ, ◌+◌, ◌≡◌, refl, Bool, false, Bytes, drop, take, Option, none, some, inl, inr, Bool-cases,
  Option-cases, ◌%◌, ◌^◌,
}
use multisim.Os.{Os}
use multisim.UnixSocket.{unix_socket_addr}
use multisim.UnixSocket.Laws.{unix_socket_addr-keeps}
use multisim.SocketServer.{get_ip, close_opened}
use multisim.SocketClient.{
  Client, try_connect, connected, unix_connect, unix_socket_opened, rfind_slash,
  start_with_unix_socket, inet_connect, inet_socket_opened, start_with_address_and_port, parse_file,
  get_server_ip_and_port, try_start,
}

module _ (os : Os) (P : os.World → Type 0) where
  -- The calls keep the property `P` of the system.
  pub record IsKept : Type 0 where
    pub on_close : (w : os.World) (fd : ℕ) → P w → P (os.close w fd)
    pub on_set_nonblock : (w : os.World) (fd : ℕ) → P w → P (os.set_nonblock w fd)
    pub on_socket_inet : (w : os.World) → P w → P (os.socket_inet w).1
    pub on_socket_unix : (w : os.World) → P w → P (os.socket_unix w).1
    pub on_open_dir : (w : os.World) (dir : Bytes) → P w → P (os.open_dir w dir).1
    pub on_connect_unix :
        (w : os.World) (fd : ℕ) (path : Bytes) → P w → P (os.connect_unix w fd path).1
    pub on_connect_inet :
        (w : os.World) (fd : ℕ) (ip : Bytes) (port : ℕ) → P w → P (os.connect_inet w fd ip port).1
    pub on_interfaces : (w : os.World) → P w → P (os.interfaces w).1
    pub on_read_file : (w : os.World) (path : Bytes) → P w → P (os.read_file w path).1

  -- An attempt keeps `P`, and the address that the client has of its server.
  pub record Attempt (c : Client) (r : Bool × Client × os.World) : Type 0 where
    pub after : P r.2
    pub same_ip : r.1.server_ip ≡ c.server_ip
    pub same_port : r.1.server_port ≡ c.server_port

  module _ (k : IsKept) where
    get_ip-keeps : (w : os.World) → P w → P (get_ip os w).1
    unfolding get_ip
    get_ip-keeps w h = elim (Option-cases (os.interfaces w).0) [
      | inl e ↦ rw (get_ip, e) (k.on_interfaces w h)
      | inr (is', e) ↦ rw (get_ip, e) (k.on_interfaces w h)
    ]

    connected-Attempt :
        (w : os.World) (c : Client) (fd : ℕ) (address : Bytes)
        → P w
        → Attempt c (connected os w c fd address)
    unfolding connected
    connected-Attempt w c fd address h = record {
      after = get_ip-keeps (os.set_nonblock w fd) (k.on_set_nonblock w fd h);
      same_ip = refl;
      same_port = refl;
    }

    failed-Attempt :
        (w : os.World) (c : Client) (fd : ℕ)
        → P w
        → Attempt c (false, record c { new_socket = fd }, w)
    failed-Attempt w c fd h = record { after = h; same_ip = refl; same_port = refl }

    try_connect-keeps :
        (w : os.World) (fd : ℕ) (path : Option Bytes) → P w → P (try_connect os w fd path).1
    unfolding try_connect
    try_connect-keeps w fd none h = h
    try_connect-keeps w fd (some path) h = k.on_connect_unix w fd path h

    close_opened-keeps : (w : os.World) (fd : Option ℕ) → P w → P (close_opened os w fd)
    unfolding close_opened
    close_opened-keeps w none h = h
    close_opened-keeps w (some fd) h = k.on_close w fd h

    unix_connect-Attempt :
        (w : os.World) (c : Client) (path : Bytes) (slash fd : ℕ)
        → P w
        → Attempt c (unix_connect os w c path slash fd)
    unfolding unix_connect
    unix_connect-Attempt w c path slash fd h =
        let a = unix_socket_addr os.open_dir os.close w (take slash path) (drop (slash + 1) path) in
        let t = try_connect os a.world fd a.path in
        let h' : P (close_opened os t.1 a.dirfd) = close_opened-keeps t.1 a.dirfd (
          try_connect-keeps a.world fd a.path
            (unix_socket_addr-keeps os.open_dir os.close P k.on_open_dir k.on_close w _ _ h)) in
        elim (Bool-cases (t.0)) [
          | inl e ↦ rw e (connected-Attempt _ c fd path h')
          | inr e ↦ rw e (failed-Attempt _ c fd (k.on_close _ fd h'))
        ]

    unix_socket_opened-Attempt :
        (c : Client) (path : Bytes) (slash : ℕ) (r : Option ℕ × os.World)
        → P r.1
        → Attempt c (unix_socket_opened os c path slash r)
    unfolding unix_socket_opened
    unix_socket_opened-Attempt c path slash (none, w) h = record {
      after = h;
      same_ip = refl;
      same_port = refl;
    }
    unix_socket_opened-Attempt c path slash (some fd, w) h =
        unix_connect-Attempt w c path slash fd h

    pub start_with_unix_socket-Attempt :
        (w : os.World) (c : Client) (path : Bytes)
        → P w
        → Attempt c (start_with_unix_socket os w c path)
    unfolding start_with_unix_socket
    start_with_unix_socket-Attempt w c path h = elim (Option-cases (rfind_slash path)) [
      | inl e ↦
          rw (start_with_unix_socket, e) (record { after = h; same_ip = refl; same_port = refl })
      | inr (slash, e) ↦
          rw (start_with_unix_socket, e)
            (unix_socket_opened-Attempt c path slash (os.socket_unix w) (k.on_socket_unix w h))
    ]

    inet_connect-Attempt :
        (w : os.World) (c : Client) (address : Bytes) (port fd : ℕ)
        → P w
        → Attempt c (inet_connect os w c address port fd)
    unfolding inet_connect
    inet_connect-Attempt w c address port fd h =
        let t = os.connect_inet w fd address (port % 2 ^ 16) in
        let h' = k.on_connect_inet w fd address (port % 2 ^ 16) h in
        elim (Bool-cases (os.inet_pton address)) [
          | inl e ↦ elim (Bool-cases (t.0)) [
            | inl e' ↦ rw (e, e') (connected-Attempt t.1 c fd _ h')
            | inr e' ↦ rw (e, e') (failed-Attempt _ c fd (k.on_close t.1 fd h'))
          ]
          | inr e ↦ rw e (failed-Attempt _ c fd (k.on_close w fd h))
        ]

    inet_socket_opened-Attempt :
        (c : Client) (address : Bytes) (port : ℕ) (r : Option ℕ × os.World)
        → P r.1
        → Attempt c (inet_socket_opened os c address port r)
    unfolding inet_socket_opened
    inet_socket_opened-Attempt c address port (none, w) h = record {
      after = h;
      same_ip = refl;
      same_port = refl;
    }
    inet_socket_opened-Attempt c address port (some fd, w) h =
        inet_connect-Attempt w c address port fd h

    pub try_start-keeps : (w : os.World) (c : Client) → P w → P (try_start os w c).2
    unfolding try_start start_with_address_and_port
    try_start-keeps w c h =
        let u = start_with_unix_socket os w c c.server_unix_socket in
        let a = start_with_unix_socket-Attempt w c c.server_unix_socket h in
        let b =
          inet_socket_opened-Attempt u.1 u.1.server_ip u.1.server_port (os.socket_inet u.2)
            (k.on_socket_inet u.2 a.after) in
        elim (Bool-cases (u.0)) [ inl e ↦ rw e a.after | inr e ↦ rw e b.after ]

    parse_file-keeps : (c : Client) (r : Option Bytes × os.World) → P r.1 → P (parse_file os c r).1
    unfolding parse_file
    parse_file-keeps c (none, w) h = h
    parse_file-keeps c (some text, w) h = h

    pub get_server_ip_and_port-keeps :
        (w : os.World) (c : Client) (file : Bytes) → P w → P (get_server_ip_and_port os w c file).1
    unfolding get_server_ip_and_port
    get_server_ip_and_port-keeps w c file h =
        parse_file-keeps c (os.read_file w file) (k.on_read_file w file h)
