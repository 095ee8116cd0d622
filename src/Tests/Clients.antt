-- ===== src/Tests/Clients.antt =====
-- A start of a client at a concrete input: its server has only a TCP port.
use multisim.Base.{◌≡◌, refl, [], ◌∷◌, ◌++◌, arith, codes, some, returned}
use multisim.Names.{find}
use multisim.UnixSocket.{decimal}
use multisim.Data.{simulation}
use multisim.SocketClient
use multisim.SocketClient.{Client, new_client}
use multisim.MultisimServer
use multisim.MultisimClient
use multisim.MultisimClient.{multisim_client_start}
use multisim.MultisimClient.Start.{IsValid, Connected, multisim_client_start-Connected}
use multisim.Tests.Loopback.{Wire, loopback}
use multisim.Tests.Data.{wire, cpu}

-- The process before, with the info file of the server, and behind the start.
abbrev idle : MultisimClient.State Wire
idle = record {
  world = record (wire [] [] []) { info = some (codes "ip: 127.0.0.1\nport: 8101\n") };
  sockets = λ i. 0;
  server_idx = 0;
  server_name_to_idx = [];
  client_info_file = [];
}

abbrev connected_state : MultisimClient.State Wire
connected_state = record {
  world = record (wire [] [] []) {
    info = some (codes "ip: 127.0.0.1\npid: 42\nserver_0: cpu 127.0.0.1 8101\n");
  };
  sockets = MultisimServer.update (λ i. 0) 0 3;
  server_idx = 1;
  server_name_to_idx = (cpu, 0) ∷ [];
  client_info_file = codes "/w/.multisim/client_cpu.txt";
}

idle-IsValid : IsValid idle
unfolding find
idle-IsValid = record {
  bounded = omega arith;
  indexed = record { below = λ n i e. cc; distinct = λ a b i e f. cc };
}

client_starts :
    multisim_client_start loopback 2 simulation idle (codes "/w") cpu ≡ returned connected_state
unfolding multisim_client_start decimal
client_starts = refl

multisim_client_start-Connected_example :
    (up : Client × Wire) × (SocketClient.start loopback 2 idle.world
        (new_client (codes "/w" ++ codes "/.multisim") cpu)
      ≡ returned up)
    × Connected idle cpu up.0.new_socket connected_state
multisim_client_start-Connected_example =
    multisim_client_start-Connected loopback 2 simulation idle connected_state (codes "/w") cpu
      idle-IsValid client_starts
