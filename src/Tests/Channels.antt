-- ===== src/Tests/Channels.antt =====
-- A channel with two pushes, one of them tried again, and one pull.
use multisim.Base.{
  ℕ, ◌*◌, ◌≡◌, refl, arith, inl, false, List, [], ◌∷◌, ◌++◌, length, some, Bytes, bytes_eq,
}
use multisim.Names.{find}
use multisim.Data.{simulation, sw, buf_size}
use multisim.MultisimServer
use multisim.MultisimServer.{multisim_server_pull_core, multisim_server_push_core}
use multisim.MultisimClient
use multisim.MultisimClient.{multisim_client_push_core, multisim_client_pull_core}
use multisim.Channel.{
  not-BrokeOff, Push, ClientHolds, ServerHolds, Pushes, push_end, accept, refuse, Pulls, pull_end,
  deliver,
}
use multisim.Channel.Order.{fifo}
use multisim.Channel.Down.{ServerPushes, ClientPulls}
use multisim.Channel.Down.Order.{fifo_down}
use multisim.Tests.Loopback.{Wire, loopback, loopback-IsStream}
use multisim.Tests.Data.{wire, cpu, server_with, client_with, word, word-Fits}

abbrev push_of : ℕ → Push
push_of x = record { array = word x; stack = word 0 }

abbrev seven : Bytes
seven = 7 ∷ 0 ∷ 0 ∷ 0 ∷ []

abbrev nine : Bytes
nine = 9 ∷ 0 ∷ 0 ∷ 0 ∷ []

-- The client's states: the socket refuses the first push, and sends in parts behind that.
abbrev c0 : MultisimClient.State Wire
c0 = client_with (wire [] (0 ∷ 3 ∷ []) [])

abbrev c1 : MultisimClient.State Wire
c1 = client_with (wire [] (3 ∷ []) [])

abbrev c2 : MultisimClient.State Wire
c2 = client_with (record (wire [] [] []) { out = seven })

abbrev c3 : MultisimClient.State Wire
c3 = client_with (record (wire [] [] []) { out = seven ++ nine })

c_holds : ClientHolds loopback loopback-IsStream sw cpu 32 false 0 5 c0
unfolding find bytes_eq
c_holds = record { index = refl; socket = refl }

run-Pushes :
    Pushes loopback loopback-IsStream sw cpu 32 false 0 5 c0 (push_of 7 ∷ push_of 9 ∷ []) c3
unfolding multisim_client_push_core find bytes_eq loopback-IsStream
run-Pushes = refuse {s' = c1} 9 (push_of 7) refl (not-BrokeOff _ [] [] refl) (
    accept {s' = c2} 9 (push_of 7) (word-Fits 7 (omega arith)) (word-Fits 0 (omega arith)) refl (
      accept {s' = c3} 9 (push_of 9) (word-Fits 9 (omega arith)) (word-Fits 0 (omega arith)) refl
        push_end))

abbrev s0 : MultisimServer.State Wire
s0 = server_with (wire (seven ++ nine) [] []) (some 5)

abbrev s1 : MultisimServer.State Wire
s1 = server_with (record (wire nine [] []) { taken = seven }) (some 5)

s_holds : ServerHolds loopback loopback-IsStream simulation cpu 32 false 0 5 s0
unfolding find bytes_eq
s_holds = record { index = refl; socket = refl }

run-Pulls : Pulls loopback loopback-IsStream simulation cpu 32 false 0 5 s0 (word 7 ∷ []) s1
unfolding multisim_server_pull_core find bytes_eq loopback-IsStream
run-Pulls =
    deliver 9 (word 1) (word 0) (record { status = 1; array = word 7; state = s1 })
      (word-Fits 1 (omega arith)) (word-Fits 0 (omega arith)) refl refl pull_end

fifo_example :
    (later : List (List ℕ)) × ((word 7 ∷ []) ++ later ≡ word 7 ∷ word 9 ∷ [])
    × (4 ≡ length later * buf_size false 32)
unfolding loopback-IsStream
fifo_example =
    fifo loopback loopback-IsStream sw simulation cpu 32 false (inl refl) (omega arith) 0 5 0 5 c0
      c3 s0 s1 (push_of 7 ∷ push_of 9 ∷ []) (word 7 ∷ []) nine run-Pushes c_holds run-Pulls s_holds
      refl refl refl

-- The other way: the server's first push would block, and the client has pulled one message.
abbrev d0 : MultisimServer.State Wire
d0 = server_with (wire [] (0 ∷ []) []) (some 5)

abbrev d1 : MultisimServer.State Wire
d1 = server_with (record (wire [] [] []) { out = seven }) (some 5)

abbrev d2 : MultisimServer.State Wire
d2 = server_with (record (wire [] [] []) { out = seven ++ nine }) (some 5)

d_holds : ServerHolds loopback loopback-IsStream sw cpu 32 false 0 5 d0
unfolding find bytes_eq
d_holds = record { index = refl; socket = refl }

run-ServerPushes :
    ServerPushes loopback loopback-IsStream sw cpu 32 false 0 5 d0 (push_of 7 ∷ push_of 9 ∷ []) d2
unfolding multisim_server_push_core find bytes_eq loopback-IsStream
run-ServerPushes =
    ServerPushes.refuse {s' = server_with (wire [] [] []) (some 5)} 9 (push_of 7) refl refl (
      ServerPushes.accept {s' = d1} 9 (push_of 7) (word-Fits 7 (omega arith))
        (word-Fits 0 (omega arith)) refl
        (ServerPushes.accept {s' = d2} 9 (push_of 9) (word-Fits 9 (omega arith))
          (word-Fits 0 (omega arith)) refl ServerPushes.push_end))

abbrev e0 : MultisimClient.State Wire
e0 = client_with (wire (seven ++ nine) (0 ∷ []) [])

abbrev e1 : MultisimClient.State Wire
e1 = client_with (record (wire nine [] []) { taken = seven })

e_holds : ClientHolds loopback loopback-IsStream simulation cpu 32 false 0 5 e0
unfolding find bytes_eq
e_holds = record { index = refl; socket = refl }

run-ClientPulls :
    ClientPulls loopback loopback-IsStream simulation cpu 32 false 0 5 e0 (word 7 ∷ []) e1
unfolding multisim_client_pull_core find bytes_eq loopback-IsStream
run-ClientPulls =
    ClientPulls.wait 9 (word 1) (word 0)
      (record { status = 0; array = word 1; state = client_with (wire (seven ++ nine) [] []) })
      (word-Fits 1 (omega arith)) (word-Fits 0 (omega arith)) refl refl (not-BrokeOff _ [] [] refl)
      (ClientPulls.deliver 9 (word 1) (word 0) (record { status = 1; array = word 7; state = e1 })
        (word-Fits 1 (omega arith)) (word-Fits 0 (omega arith)) refl refl ClientPulls.pull_end)

fifo_down_example :
    (later : List (List ℕ)) × ((word 7 ∷ []) ++ later ≡ word 7 ∷ word 9 ∷ [])
    × (4 ≡ length later * buf_size false 32)
unfolding loopback-IsStream
fifo_down_example =
    fifo_down loopback loopback-IsStream sw simulation cpu 32 false (inl refl) (omega arith) 0 5 0 5
      d0 d2 e0 e1 (push_of 7 ∷ push_of 9 ∷ []) (word 7 ∷ []) nine run-ServerPushes d_holds
      run-ClientPulls e_holds refl refl refl
