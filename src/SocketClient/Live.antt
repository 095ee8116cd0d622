-- ===== src/SocketClient/Live.antt =====
-- A client connects once its server is up (`Client::start` of src/core/socket_server/client.cpp).
use multisim.Base.{ℕ, ◌-◌, ◌≤◌, ◌≡◌, true, Bytes, Option, some, ◌%◌, ◌^◌}
use multisim.Os.{Os}
use multisim.SocketServer.{Server, info_text}
use multisim.SocketClient.{Client}
use multisim.SocketClient.Info.{IsReadable}
use multisim.SocketClient.Frame.{IsKept}

-- The server comes up: `left` bounds the calls of usleep() until then, and no other call of the client
-- sets it back. From then on its info file, `file`, can be read, there are sockets, and the server
-- takes connections at its address.
pub record IsComing (os : Os) (server : Server) (file : Bytes) : Type 0 where
  pub left : os.World → ℕ
  pub calls : (n : ℕ) → IsKept os (λ w. left w ≤ n)
  pub sleeps : (w : os.World) → left (os.sleep w) ≤ left w - 1
  pub readable : IsReadable server
  pub info : (w : os.World) → left w ≡ 0 → (os.read_file w file).0 ≡ some (info_text server)
  pub socket : (w : os.World) → left w ≡ 0 → (fd : ℕ) × ((os.socket_inet w).0 ≡ some fd)
  pub numeric : os.inet_pton server.server_ip ≡ true
  pub takes :
      (w : os.World) (fd : ℕ)
      → left w ≡ 0
      → (os.connect_inet w fd server.server_ip (server.server_port % 2 ^ 16)).0 ≡ true

module _ (os : Os) (server : Server) (file : Bytes) (up : IsComing os server file) where
  open up use {left, calls}

  -- The client has the address of the server.
  record Knows (c : Client) : Type 0 where
    pub ip : c.server_ip ≡ server.server_ip
    pub port : c.server_port ≡ server.server_port
