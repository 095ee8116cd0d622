-- ===== src/Tests/Starts.antt =====
-- Starts of servers at concrete inputs, and the info file of one.
use multisim.Base.{
  ℕ, ◌^◌, ◌≤◌, ◌<◌, ◌≡◌, refl, arith, inr, true, false, [], ◌∷◌, none, some, returned, Run, Bytes,
  bytes_eq, codes,
}
use multisim.Names.{find}
use multisim.UnixSocket.{decimal}
use multisim.Scan.{is_space}
use multisim.SocketServer.{in_set, Server, new_server, info_text, bind_loop}
use multisim.SocketServer.Start.{bind_loop_first_free}
use multisim.SocketClient.{new_client, parse_info}
use multisim.SocketClient.Info.{IsReadable, parse_info-info_text}
use multisim.MultisimServer
use multisim.MultisimServer.{multisim_server_start}
use multisim.MultisimServer.Start.{
  IsValid, Registered, multisim_server_start-Registered, multisim_server_start-IsValid,
}
use multisim.MultisimServer.Once.{Starts, starts_end, a_start, multisim_server_start_once}
use multisim.Tests.Loopback.{Wire, loopback, loopback-HasPorts}
use multisim.Tests.Data.{wire, cpu}

-- A process before its first start.
abbrev fresh : MultisimServer.State Wire
fresh = MultisimServer.initial (wire [] [] []) (λ i. new_server [] [])

abbrev text : Bytes
text = codes "ip: 127.0.0.1\nport: 8101\n"

-- The server that a start makes; port 8100 is taken.
abbrev started : Server
started = record {
  server_name = cpu;
  server_info_dir = codes ".multisim";
  server_ip = codes "127.0.0.1";
  server_port = 8101;
  server_fd = 3;
  unix_fd = none;
  unix_socket_path = [];
  server_is_running = true;
}

abbrev first : MultisimServer.State Wire
first = record {
  world = record (wire [] [] []) { info = some text };
  server = MultisimServer.update (λ i. new_server [] []) 0 started;
  sockets = MultisimServer.update (λ i. some 0) 0 none;
  server_idx = 1;
  server_name_to_idx = (cpu, 0) ∷ [];
  server_name_set = cpu ∷ [];
}

starts : multisim_server_start loopback 5 fresh cpu ≡ returned (1, first)
unfolding multisim_server_start MultisimServer.register decimal
starts = refl

multisim_server_start-Registered_example : (1 ≡ MultisimServer.success) × Registered fresh cpu first
multisim_server_start-Registered_example =
    multisim_server_start-Registered loopback 5 fresh cpu (1, first) starts

fresh-IsValid : IsValid fresh
unfolding find
fresh-IsValid = record {
  bounded = omega arith;
  indexed = record { below = λ n i e. cc; distinct = λ a b i e f. cc };
  named = λ n i e. cc;
  registered = λ n i e. cc;
}

multisim_server_start-IsValid_example : IsValid first
multisim_server_start-IsValid_example =
    multisim_server_start-IsValid loopback 5 fresh cpu (1, first) fresh-IsValid starts

-- The start of another server behind it.
abbrev state_of : Run (ℕ × MultisimServer.State Wire) → ℕ × MultisimServer.State Wire
state_of (returned q) = q
state_of _ = (0, fresh)

abbrev second : ℕ × MultisimServer.State Wire
second = state_of (multisim_server_start loopback 5 first (codes "bus"))

first-Starts : Starts loopback first second.1
unfolding multisim_server_start MultisimServer.register decimal in_set bytes_eq
first-Starts = a_start 5 (codes "bus") second refl starts_end

multisim_server_start_once_example :
    (find cpu second.1.server_name_to_idx ≡ some 0)
    × ¬ (multisim_server_start loopback 5 second.1 cpu ≡ returned (1, first))
multisim_server_start_once_example =
    multisim_server_start_once loopback 5 5 fresh second.1 cpu (1, first) (1, first) starts
      first-Starts

bind_loop_first_free_example :
    (r : ℕ × Wire) × (bind_loop loopback 2 (wire [] [] []) 3 0 ≡ returned r)
    × (8100 ≤ r.0)
    × (r.0 < 2 ^ 16)
    × (loopback-HasPorts.free (wire [] [] []) r.0 ≡ true)
    × ((q : ℕ) → 8100 ≤ q → q < r.0 → loopback-HasPorts.free (wire [] [] []) q ≡ false)
unfolding loopback-HasPorts
bind_loop_first_free_example =
    bind_loop_first_free loopback loopback-HasPorts 1 (wire [] [] []) 3 (omega arith) refl

abbrev pub unix_server : Server
unix_server = record started { unix_fd = some 4; unix_socket_path = codes "/w/server_cpu.sock" }

pub unix_server-IsReadable : IsReadable unix_server
unfolding is_space
unix_server-IsReadable = record {
  ip = record {
    nonempty = λ e. cc;
    unspaced = (refl, (refl, (refl, (refl, (refl, (refl, (refl, (refl, (refl, tt)))))))));
    fits = omega arith;
  };
  port = omega arith;
  path = inr (record { nonempty = λ e. cc; unspaced = ground arith; fits = omega arith });
}

parse_info-info_text_example :
    parse_info (info_text unix_server) (new_client (codes ".multisim") cpu)
    ≡ some (record (new_client (codes ".multisim") cpu) {
      server_ip = codes "127.0.0.1";
      server_port = 8101;
      server_unix_socket = codes "/w/server_cpu.sock";
    })
parse_info-info_text_example =
    parse_info-info_text unix_server (new_client (codes ".multisim") cpu) unix_server-IsReadable
