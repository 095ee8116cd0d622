-- ===== src/SocketClient/Made.antt =====
-- What an attempt to connect (src/core/socket_server/client.cpp) that gives true has done.
use multisim.Base.{
  ℕ, ◌≡◌, ◌%◌, ◌^◌, ◌+◌, true, Bytes, take, drop, Option, none, some, Bool-cases, Option-cases, inl,
  inr,
}
use multisim.Os.{Os}
use multisim.UnixSocket.{unix_socket_addr}
use multisim.SocketClient.{
  Client, try_connect, connected, unix_connect, unix_socket_opened, start_with_unix_socket,
  inet_connect, inet_socket_opened, start_with_address_and_port, rfind_slash, try_start,
}

-- The socket that the client keeps, `new_socket`, was connected: a connect() of it to the path of a
-- Unix socket gave 0, or a connect() of it to a port of an address that inet_pton() accepts.
pub data IsConnected (os : Os) (c : Client) : Type 0 where
  to_path :
      (w : os.World) (path : Bytes)
      → (os.connect_unix w c.new_socket path).0 ≡ true
      → IsConnected os c
  to_port :
      (w : os.World) (address : Bytes) (port : ℕ)
      → os.inet_pton address ≡ true
      → (os.connect_inet w c.new_socket address (port % 2 ^ 16)).0 ≡ true
      → IsConnected os c

module _ (os : Os) where
  connected-path :
      (w w' : os.World) (c : Client) (fd : ℕ) (path : Option Bytes) (address : Bytes)
      → (try_connect os w fd path).0 ≡ true
      → IsConnected os (connected os w' c fd address).1
  unfolding try_connect connected
  connected-path w w' c fd none address e = absurd cc
  connected-path w w' c fd (some path) address e = to_path w path e

  unix_connect-IsConnected :
      (w : os.World) (c : Client) (path : Bytes) (slash fd : ℕ)
      → (unix_connect os w c path slash fd).0 ≡ true
      → IsConnected os (unix_connect os w c path slash fd).1
  unfolding unix_connect
  unix_connect-IsConnected w c path slash fd e =
      let a = unix_socket_addr os.open_dir os.close w (take slash path) (drop (slash + 1) path) in
      elim (Bool-cases ((try_connect os a.world fd a.path).0)) [
        | inl y ↦ rw y (connected-path a.world _ c fd a.path path y)
        | inr n ↦ absurd (let bad = rw n at e in cc)
      ]

  unix_socket_opened-IsConnected :
      (c : Client) (path : Bytes) (slash : ℕ) (r : Option ℕ × os.World)
      → (unix_socket_opened os c path slash r).0 ≡ true
      → IsConnected os (unix_socket_opened os c path slash r).1
  unfolding unix_socket_opened
  unix_socket_opened-IsConnected c path slash (none, w) e = absurd cc
  unix_socket_opened-IsConnected c path slash (some fd, w) e =
      unix_connect-IsConnected w c path slash fd e

  start_with_unix_socket-IsConnected :
      (w : os.World) (c : Client) (path : Bytes)
      → (start_with_unix_socket os w c path).0 ≡ true
      → IsConnected os (start_with_unix_socket os w c path).1
  unfolding start_with_unix_socket
  start_with_unix_socket-IsConnected w c path e = elim (Option-cases (rfind_slash path)) [
    | inl n ↦ absurd (let bad = rw (n, start_with_unix_socket) at e in cc)
    | inr (slash, y) ↦
        rw (y, start_with_unix_socket)
          (unix_socket_opened-IsConnected c path slash (os.socket_unix w)
            (rw (y, start_with_unix_socket) at e))
  ]

  inet_connect-IsConnected :
      (w : os.World) (c : Client) (address : Bytes) (port fd : ℕ)
      → (inet_connect os w c address port fd).0 ≡ true
      → IsConnected os (inet_connect os w c address port fd).1
  unfolding inet_connect connected
  inet_connect-IsConnected w c address port fd e = elim (Bool-cases (os.inet_pton address)) [
    | inl p ↦ elim (Bool-cases ((os.connect_inet w fd address (port % 2 ^ 16)).0)) [
      | inl y ↦ rw (p, y) (to_port w address port p y)
      | inr n ↦ absurd (let bad = rw (p, n) at e in cc)
    ]
    | inr n ↦ absurd (let bad = rw n at e in cc)
  ]

  inet_socket_opened-IsConnected :
      (c : Client) (address : Bytes) (port : ℕ) (r : Option ℕ × os.World)
      → (inet_socket_opened os c address port r).0 ≡ true
      → IsConnected os (inet_socket_opened os c address port r).1
  unfolding inet_socket_opened
  inet_socket_opened-IsConnected c address port (none, w) e = absurd cc
  inet_socket_opened-IsConnected c address port (some fd, w) e =
      inet_connect-IsConnected w c address port fd e

  -- Where the condition of the second loop of `start` is true, the client has a connection.
  pub try_start-IsConnected :
      (w : os.World) (c : Client)
      → (try_start os w c).0 ≡ true
      → IsConnected os (try_start os w c).1
  unfolding try_start start_with_address_and_port
  try_start-IsConnected w c e =
      let u = start_with_unix_socket os w c c.server_unix_socket in
      elim (Bool-cases (u.0)) [
        | inl y ↦
            rw (y, start_with_unix_socket)
              (start_with_unix_socket-IsConnected w c c.server_unix_socket y)
        | inr n ↦
            rw (n, start_with_unix_socket)
              (inet_socket_opened-IsConnected u.1 u.1.server_ip u.1.server_port (os.socket_inet u.2)
                (rw (n, start_with_unix_socket) at e))
      ]
