-- ===== src/Tests/Coming.antt =====
-- A system in which a server comes up after some calls of usleep(), for the client that waits for it.
use multisim.Base.{ℕ, ◌-◌, ◌==◌, ◌≤◌, refl, arith, true, false, if◌then◌else◌, codes, none, some}
use multisim.Os.{Os, count, eagain, no_bytes}
use multisim.InfoFile.{info_file_path}
use multisim.SocketServer.{info_text}
use multisim.SocketClient.{Client, new_client}
use multisim.SocketClient.Frame.{IsKept}
use multisim.SocketClient.Live.{IsComing}
use multisim.Tests.Data.{cpu}
use multisim.Tests.Starts.{unix_server, unix_server-IsReadable}

-- The world counts the calls of usleep() that are left.
abbrev coming : Os
coming = record {
  World = ℕ;
  send = λ w fd buf. (count 0, w);
  read = λ w fd n. (no_bytes eagain, w);
  comes_back = λ w fd ev. true;
  wait = λ w fd ev. w;
  close = λ w fd. w;
  socket_inet = λ w. (some 3, w);
  socket_unix = λ w. (none, w);
  set_nonblock = λ w fd. w;
  bind_inet = λ w fd p. (false, w);
  bind_unix = λ w fd path. (false, w);
  listen = λ w fd. (false, w);
  poll_in = λ w fds. (none, w);
  accept = λ w fd. (none, w);
  interfaces = λ w. (none, w);
  mkdir = λ w path. w;
  realpath = λ w path. (none, w);
  unlink = λ w path. w;
  open_dir = λ w path. (none, w);
  write_file = λ w path text. (false, w);
  read_file = λ w path. (if w == 0 then some (info_text unix_server) else none, w);
  append_file = λ w path text. (false, w);
  connect_unix = λ w fd path. (false, w);
  connect_inet = λ w fd ip port. (w == 0, w);
  inet_pton = λ ip. true;
  sleep = λ w. w - 1;
  set_blocking = λ w fd. w;
  getpid = λ w. 42;
}

abbrev client : Client
client = new_client (codes ".multisim") cpu

coming-IsKept : (n : ℕ) → IsKept coming (λ w. w ≤ n)
coming-IsKept n = record {
  on_close = λ w fd h. h;
  on_set_nonblock = λ w fd h. h;
  on_socket_inet = λ w h. h;
  on_socket_unix = λ w h. h;
  on_open_dir = λ w dir h. h;
  on_connect_unix = λ w fd path h. h;
  on_connect_inet = λ w fd ip port h. h;
  on_interfaces = λ w h. h;
  on_read_file = λ w path h. h;
}

abbrev coming-IsComing :
    IsComing coming unix_server
      (info_file_path client.server_info_dir (codes "server_") client.server_name)
coming-IsComing = record {
  left = λ w. w;
  calls = coming-IsKept;
  sleeps = λ w. omega arith;
  readable = unix_server-IsReadable;
  info = λ w h. rw h refl;
  socket = λ w h. (3, refl);
  numeric = refl;
  takes = λ w fd h. rw h refl;
}
