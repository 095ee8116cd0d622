-- ===== src/Tests/Memory.antt =====
-- The programs sw_server.cpp and sw_client.cpp (example/sw_server/sw_client/read_write/src): a write
-- of 9 to address 3, and a read of address 259.
use multisim.Base.{
  ℕ, ◌+◌, ◌≡◌, ◌≢◌, refl, arith, List, [], ◌∷◌, ◌++◌, some, none, Bytes, bytes_eq, codes, returned,
  Run, if◌then◌else◌, ◌==◌,
}
use multisim.Names.{Names, find}
use multisim.Data.{buf_words}
use multisim.SocketServer.{new_server, accept_new_socket}
use multisim.MultisimServer
use multisim.MultisimServer.{multisim_server_pull, multisim_server_push}
use multisim.MultisimClient
use multisim.MultisimClient.{multisim_client_push, multisim_client_pull}
use multisim.SwServer
use multisim.SwServer.{serve, Turn, quit, next, turn, words, process}
use multisim.SwServer.Ready.{Ready, Different}
use multisim.SwServer.Quit.{Ending, serve-Ending}
use multisim.SwServer.Session.{IsJunk as IsServerJunk, Session, session_end, session_turn}
use multisim.SwServer.Served.{serve-Served, Served}
use multisim.SwClient
use multisim.SwClient.{command, write_server, read_server}
use multisim.SwClient.Exchange.{Ready as ClientReady}
use multisim.SwClient.Session.{
  command-Fits, Op, wrote, was_read, IsJunk as IsClientJunk, Session as ClientSession,
  session_write, session_read,
}
use multisim.SwClient.Coherent.{Session-Coherent, stored}
use multisim.Tests.Network.{Net, Connection, network, network-IsStream, network-IsSeparate}

abbrev connection : Bytes → Connection
connection inbox = record { out = []; taken = []; inbox = inbox }

abbrev channel_names : Names
channel_names = (codes "rw_rsp", 2) ∷ (codes "rw_cmd", 1) ∷ (codes "exit", 0) ∷ []

abbrev write_bytes : Bytes
write_bytes =
    0 ∷ 0 ∷ 0 ∷ 0 ∷ 0 ∷ 0 ∷ 0 ∷ 0 ∷ 3 ∷ 0 ∷ 0 ∷ 0 ∷ 0 ∷ 0 ∷ 0 ∷ 0 ∷ 9 ∷ 0 ∷ 0 ∷ 0 ∷ 0 ∷ 0 ∷ 0 ∷ 0
    ∷ []

abbrev read_bytes : Bytes
read_bytes =
    1 ∷ 0 ∷ 0 ∷ 0 ∷ 0 ∷ 0 ∷ 0 ∷ 0 ∷ 3 ∷ 1 ∷ 0 ∷ 0 ∷ 0 ∷ 0 ∷ 0 ∷ 0 ∷ 5 ∷ 0 ∷ 0 ∷ 0 ∷ 0 ∷ 0 ∷ 0 ∷ 0
    ∷ []

abbrev zero_bytes : Bytes
zero_bytes = 0 ∷ 0 ∷ 0 ∷ 0 ∷ 0 ∷ 0 ∷ 0 ∷ 0 ∷ []

abbrev nine_bytes : Bytes
nine_bytes = 9 ∷ 0 ∷ 0 ∷ 0 ∷ 0 ∷ 0 ∷ 0 ∷ 0 ∷ []

-- The server's commands come on the descriptor 5, and its responses go to 6.
abbrev s0 : MultisimServer.State Net
s0 = record {
  world = λ fd. connection (if fd == 5 then write_bytes ++ read_bytes else []);
  server = λ i. new_server (codes ".multisim") (codes "exit");
  sockets = λ i. if i == 0 then none else some (i + 4);
  server_idx = 3;
  server_name_to_idx = channel_names;
  server_name_set = codes "rw_rsp" ∷ codes "rw_cmd" ∷ codes "exit" ∷ [];
}

abbrev c0 : MultisimClient.State Net
c0 = record {
  world = λ fd. connection (if fd == 8 then zero_bytes ++ nine_bytes else []);
  sockets = λ i. i + 6;
  server_idx = 3;
  server_name_to_idx = channel_names;
  client_info_file = [];
}

abbrev state_of : Run (Turn Net) → (ℕ → ℕ) × MultisimServer.State Net
state_of (returned (next mem s)) = (mem, s)
state_of _ = (λ i. 0, s0)

abbrev server_junk : SwServer.Junk
server_junk = record { exit_data = 7 ∷ []; rw_cmd = command 0 0 0 }

abbrev turn1 : (ℕ → ℕ) × MultisimServer.State Net
turn1 = state_of (turn network 5 server_junk (λ i. 0) s0)

abbrev turn2 : (ℕ → ℕ) × MultisimServer.State Net
turn2 = state_of (turn network 5 server_junk turn1.0 turn1.1)

indices-Different : Different network network-IsStream network-IsSeparate 0 1 2 5 6
indices-Different = record { ec = λ e. cc; er = λ e. cc; cr = λ e. cc; ab = λ e. cc }

s0-Ready : Ready network network-IsStream network-IsSeparate 0 1 2 5 6 s0
unfolding find bytes_eq network-IsSeparate
s0-Ready = record {
  exit_index = refl;
  cmd_index = refl;
  rsp_index = refl;
  cmd_socket = refl;
  rsp_socket = refl;
  exit_not_cmd = λ e. cc;
  exit_not_rsp = λ e. cc;
  cmd_open = refl;
  rsp_open = refl;
}

server_junk-IsJunk : IsServerJunk server_junk
unfolding buf_words
server_junk-IsJunk = record {
  exit_fits = record { sized = refl; words = (omega arith, tt) };
  cmd_fits = command-Fits 0 0 0;
}

s0-Session :
    Session network network-IsStream network-IsSeparate 0 1 2 5 6 indices-Different
      (λ i. 0)
      s0
      turn2.0
      turn2.1
unfolding turn find bytes_eq accept_new_socket multisim_server_pull multisim_server_push process
s0-Session =
    session_turn 5 server_junk server_junk-IsJunk refl refl
      (session_turn 5 server_junk server_junk-IsJunk refl refl session_end)

serve-Served_example :
    Served network network-IsStream network-IsSeparate 0 1 2 5 6 indices-Different
      (λ i. 0)
      s0
      turn2.0
      turn2.1
serve-Served_example =
    serve-Served network network-IsStream network-IsSeparate 0 1 2 5 6 indices-Different (λ i. 0)
      turn2.0 s0 turn2.1 s0-Session s0-Ready

abbrev client_junk : SwClient.Junk
client_junk = record { cmd2 = 5; rsp = 1 ∷ 1 ∷ []; exit = 4 ∷ [] }

client_junk-IsJunk : IsClientJunk client_junk
unfolding buf_words
client_junk-IsJunk = record {
  cmd2_bound = omega arith;
  rsp_fits = record { sized = refl; words = (omega arith, (omega arith, tt)) };
}

abbrev behind : Run (MultisimClient.State Net) → MultisimClient.State Net
behind (returned s) = s
behind _ = c0

abbrev result_of : Run (ℕ × MultisimClient.State Net) → ℕ × MultisimClient.State Net
result_of (returned r) = r
result_of _ = (0, c0)

abbrev c1 : MultisimClient.State Net
c1 = behind (write_server network 5 client_junk c0 3 9)

abbrev r2 : ℕ × MultisimClient.State Net
r2 = result_of (read_server network 5 client_junk c1 259)

abbrev run_ops : List Op
run_ops = wrote 3 9 ∷ was_read 259 9 ∷ []

sockets_differ : ◌≢◌ {A = ℕ} 7 8
sockets_differ e = cc

c0-Ready : ClientReady network network-IsStream network-IsSeparate 1 2 7 8 sockets_differ c0
unfolding find bytes_eq network-IsSeparate
c0-Ready = record {
  cmd_holds = record { index = refl; socket = refl };
  rsp_holds = record { index = refl; socket = refl };
  cmd_open = refl;
  rsp_open = refl;
}

c0-Session :
    ClientSession network network-IsStream network-IsSeparate 1 2 7 8 sockets_differ c0 run_ops r2.1
unfolding write_server read_server find bytes_eq multisim_client_push multisim_client_pull
c0-Session = session_write 5 client_junk 3 9 client_junk-IsJunk (omega arith) (omega arith) refl (
    session_read 5 client_junk 259 9 client_junk-IsJunk (omega arith) refl
      ClientSession.session_end)

Session-Coherent_example : ((◌≡◌ {A = ℕ} 9 9) × Unit {0}) × (turn2.0 ≡ stored (λ i. 0) run_ops)
unfolding turn find bytes_eq accept_new_socket multisim_server_pull multisim_server_push process
    write_server read_server multisim_client_push multisim_client_pull network-IsStream
Session-Coherent_example =
    Session-Coherent network network-IsStream network-IsSeparate 0 1 2 5 6 1 2 7 8 turn2.0 s0
      turn2.1 c0 r2.1 run_ops [] [] indices-Different sockets_differ s0-Session s0-Ready c0-Session
      c0-Ready refl refl refl refl refl refl

-- A message on `exit`, whose socket is 4.
abbrev told : MultisimServer.State Net
told = record s0 {
  world = λ fd. connection (if fd == 4 then 7 ∷ 0 ∷ 0 ∷ 0 ∷ [] else []);
  sockets = λ i. some (i + 4);
}

abbrev served : Run (MultisimServer.State Net) → MultisimServer.State Net
served (returned s) = s
served _ = told

abbrev after_exit : MultisimServer.State Net
after_exit = served (serve network 3 5 (λ k. server_junk) (λ i. 0) told)

serve-Ending_example : Ending network (λ i. 0) told after_exit
unfolding serve find bytes_eq multisim_server_pull multisim_server_push process
serve-Ending_example = serve-Ending network 3 5 (λ k. server_junk) (λ i. 0) told after_exit refl
