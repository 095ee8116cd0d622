-- ===== src/Tests/Transfer.antt =====
-- Transfers of whole messages at concrete inputs: in parts, with stalls, and on a lost connection.
use multisim.Base.{
  ℕ, ◌≡◌, refl, arith, true, false, [], ◌∷◌, some, returned, Bytes, get_or, bytes_eq,
}
use multisim.Os.{Ret, count}
use multisim.SocketIo.{send_msg, read_msg}
use multisim.SocketIo.Send.{Sent, send_msg-Sent}
use multisim.SocketIo.Read.{Taken, read_msg-Taken}
use multisim.SocketIo.Progress.{send_msg_returns, read_msg_returns}
use multisim.Data.{buf_size, read_target, simulation, sw, message, pulled, unpack, pack}
use multisim.Data.Message.{pulled-message}
use multisim.Data.Pack.{unpack-pack_elem}
use multisim.Data.Planes.{pack-planes}
use multisim.Names.{find}
use multisim.MultisimServer
use multisim.MultisimServer.{multisim_server_push_core, multisim_server_pull_core}
use multisim.MultisimServer.Push
use multisim.MultisimServer.Pull
use multisim.MultisimClient
use multisim.MultisimClient.{multisim_client_push_core, multisim_client_pull_core}
use multisim.MultisimClient.Transfer
use multisim.Tests.Loopback.{Wire, loopback, loopback-IsStream, loopback-IsResponsive}
use multisim.Tests.Data.{wire, cpu, server_with, client_with, word, pair, word-Fits, pair-Fits}

-- Four bytes in three parts, with a stall behind the first.
send_msg-Sent_example : Sent (1 ∷ 2 ∷ 3 ∷ 4 ∷ []) [] (count 4) (1 ∷ 2 ∷ 3 ∷ 4 ∷ [])
unfolding send_msg loopback-IsStream
send_msg-Sent_example =
    send_msg-Sent loopback loopback-IsStream 5 (wire [] (1 ∷ 0 ∷ 2 ∷ 1 ∷ []) [])
      (record (wire [] [] []) { out = 1 ∷ 2 ∷ 3 ∷ 4 ∷ [] }) 5 (1 ∷ 2 ∷ 3 ∷ 4 ∷ []) (count 4) refl

-- Three bytes into a memory of four, in two parts with a stall between.
read_msg-Taken_example :
    Taken 3 (9 ∷ 9 ∷ 9 ∷ 9 ∷ []) [] (count 3) (1 ∷ 2 ∷ 3 ∷ 9 ∷ []) (1 ∷ 2 ∷ 3 ∷ [])
unfolding read_msg loopback-IsStream
read_msg-Taken_example =
    read_msg-Taken loopback loopback-IsStream 4 (wire (1 ∷ 2 ∷ 3 ∷ 4 ∷ []) (1 ∷ 0 ∷ 5 ∷ []) []) 5 3
      (9 ∷ 9 ∷ 9 ∷ 9 ∷ [])
      (count 3, 1 ∷ 2 ∷ 3 ∷ 9 ∷ [], record (wire (4 ∷ []) [] []) { taken = 1 ∷ 2 ∷ 3 ∷ [] })
      (omega arith) refl

send_msg_returns_example :
    (fuel : ℕ) × (q : Ret × Wire) × (send_msg loopback fuel
        (wire [] (0 ∷ 0 ∷ 1 ∷ []) [])
        5
        (1 ∷ 2 ∷ [])
      ≡ returned q)
send_msg_returns_example =
    send_msg_returns loopback loopback-IsResponsive (wire [] (0 ∷ 0 ∷ 1 ∷ []) []) 5 (1 ∷ 2 ∷ [])

read_msg_returns_example :
    (fuel : ℕ) × (q : Ret × Bytes × Wire) × (read_msg loopback fuel
        (wire (1 ∷ 2 ∷ []) (1 ∷ 0 ∷ []) [])
        5
        3
        (9 ∷ 9 ∷ 9 ∷ [])
      ≡ returned q)
read_msg_returns_example =
    read_msg_returns loopback loopback-IsResponsive (wire (1 ∷ 2 ∷ []) (1 ∷ 0 ∷ []) []) 5 3
      (9 ∷ 9 ∷ 9 ∷ [])

-- A message of 4-state data, which a simulator sends and software receives.
unpack-pack_elem_example :
    (get_or
        (unpack sw 2
          (pack simulation 2 (1 ∷ 2 ∷ 3 ∷ 4 ∷ []) (0 ∷ 0 ∷ 0 ∷ 0 ∷ []))
          (9 ∷ 9 ∷ 9 ∷ 9 ∷ []))
        1
        0
      ≡ 3)
    × (get_or
          (unpack sw 2
            (pack simulation 2 (1 ∷ 2 ∷ 3 ∷ 4 ∷ []) (0 ∷ 0 ∷ 0 ∷ 0 ∷ []))
            (9 ∷ 9 ∷ 9 ∷ 9 ∷ []))
          3
          0
        ≡ 4)
unpack-pack_elem_example =
    unpack-pack_elem simulation sw 2 1 (1 ∷ 2 ∷ 3 ∷ 4 ∷ []) (0 ∷ 0 ∷ 0 ∷ 0 ∷ [])
      (9 ∷ 9 ∷ 9 ∷ 9 ∷ []) refl refl (omega arith)

pulled-message_example :
    pulled simulation true 32 (pair 0 0) (message simulation true 32 (pair 7 9) (pair 1 1))
    ≡ pair 7 9
pulled-message_example =
    pulled-message simulation true 32 (pair 7 9) (pair 1 1) (pair 0 0)
      (pair-Fits 7 9 (omega arith) (omega arith)) (pair-Fits 1 1 (omega arith) (omega arith))
      (pair-Fits 0 0 (omega arith) (omega arith))

-- The server pushes a word that takes two sends.
multisim_server_push_core-PushOutcome_example :
    (r : Ret × Wire) × (send_msg loopback 9
        (wire [] (3 ∷ []) [])
        5
        (message simulation false 32 (word 7) (word 0))
      ≡ returned r)
    × MultisimServer.Push.PushOutcome loopback loopback-IsStream
        (message simulation false 32 (word 7) (word 0))
        (server_with (wire [] (3 ∷ []) []) (some 5))
        0
        5
        r
        (1, server_with (record (wire [] [] []) { out = 7 ∷ 0 ∷ 0 ∷ 0 ∷ [] }) (some 5))
unfolding multisim_server_push_core find bytes_eq
multisim_server_push_core-PushOutcome_example =
    MultisimServer.Push.multisim_server_push_core-PushOutcome loopback loopback-IsStream 9
      simulation (server_with (wire [] (3 ∷ []) []) (some 5)) cpu (word 7) 32 false (word 0) 0 5
      (1, server_with (record (wire [] [] []) { out = 7 ∷ 0 ∷ 0 ∷ 0 ∷ [] }) (some 5)) refl refl refl

-- The server pulls a word that comes in two reads.
server_pulled : MultisimServer.Pulled Wire
server_pulled = record {
  status = 1;
  array = word 7;
  state = server_with (record (wire [] [] []) { taken = 7 ∷ 0 ∷ 0 ∷ 0 ∷ [] }) (some 5);
}

multisim_server_pull_core-PullOutcome_example :
    (r : Ret × Bytes × Wire) × (read_msg loopback 9
        (wire (7 ∷ 0 ∷ 0 ∷ 0 ∷ []) (3 ∷ []) [])
        5
        (buf_size false 32)
        (read_target false (word 0) (word 0))
      ≡ returned r)
    × MultisimServer.Pull.PullOutcome loopback loopback-IsStream simulation false 32
        (word 0)
        (server_with (wire (7 ∷ 0 ∷ 0 ∷ 0 ∷ []) (3 ∷ []) []) (some 5))
        0
        5
        r
        server_pulled
unfolding multisim_server_pull_core server_pulled find bytes_eq
multisim_server_pull_core-PullOutcome_example =
    MultisimServer.Pull.multisim_server_pull_core-PullOutcome loopback loopback-IsStream 9
      simulation (server_with (wire (7 ∷ 0 ∷ 0 ∷ 0 ∷ []) (3 ∷ []) []) (some 5)) cpu (word 0) 32
      false (word 0) 0 5 server_pulled (word-Fits 0 (omega arith)) (word-Fits 0 (omega arith)) refl
      refl refl

-- The socket refuses the client's push, which has sent nothing.
multisim_client_push_core-PushOutcome_example :
    MultisimClient.Transfer.PushOutcome loopback loopback-IsStream
      (message sw false 32 (word 7) (word 0))
      (client_with (wire [] (0 ∷ []) []))
      5
      (0, client_with (wire [] [] []))
unfolding multisim_client_push_core find bytes_eq
multisim_client_push_core-PushOutcome_example =
    MultisimClient.Transfer.multisim_client_push_core-PushOutcome loopback loopback-IsStream 9 sw
      (client_with (wire [] (0 ∷ []) [])) cpu (word 7) 32 false (word 0) 0
      (0, client_with (wire [] [] [])) refl refl

client_pulled : MultisimClient.Pulled Wire
client_pulled = record {
  status = 1;
  array = pair 7 9;
  state = client_with (record (wire [] [] []) { taken = 7 ∷ 0 ∷ 0 ∷ 0 ∷ 9 ∷ 0 ∷ 0 ∷ 0 ∷ [] });
}

multisim_client_pull_core-PullOutcome_example :
    MultisimClient.Transfer.PullOutcome loopback loopback-IsStream sw true 32
      (pair 0 0)
      (client_with (wire (7 ∷ 0 ∷ 0 ∷ 0 ∷ 9 ∷ 0 ∷ 0 ∷ 0 ∷ []) (5 ∷ []) []))
      5
      client_pulled
unfolding multisim_client_pull_core client_pulled find bytes_eq
multisim_client_pull_core-PullOutcome_example =
    MultisimClient.Transfer.multisim_client_pull_core-PullOutcome loopback loopback-IsStream 9 sw
      (client_with (wire (7 ∷ 0 ∷ 0 ∷ 0 ∷ 9 ∷ 0 ∷ 0 ∷ 0 ∷ []) (5 ∷ []) [])) cpu (pair 0 0) 32 true
      (pair 0 0) 0 client_pulled (pair-Fits 0 0 (omega arith) (omega arith))
      (pair-Fits 0 0 (omega arith) (omega arith)) refl refl

pack-planes_example :
    pack simulation 2 (1 ∷ 2 ∷ 3 ∷ 4 ∷ []) (9 ∷ 9 ∷ 9 ∷ 9 ∷ []) ≡ 1 ∷ 3 ∷ 2 ∷ 4 ∷ []
pack-planes_example = pack-planes simulation 2 (1 ∷ 2 ∷ 3 ∷ 4 ∷ []) (9 ∷ 9 ∷ 9 ∷ 9 ∷ []) refl refl
