-- ===== src/Tests/Streams.antt =====
-- The programs of stream.cpp and of bench.cpp (example/sw_server/sw_client) with two messages of 40
-- bits.
use multisim.Base.{
  ℕ, zero, suc, ◌<◌, ◌≡◌, ◌⊎◌, inr, true, ◌%◌, take, ◌≢◌, ap, ◌-◌, refl, arith, inl, false, [], ◌∷◌,
  length, some, Bytes, bytes_eq, codes, Run, returned,
}
use multisim.Os.{count, Errno, eagain, bytes, no_bytes}
use multisim.Names.{find}
use multisim.Data.{sw, buf_words}
use multisim.Data.Message.{Fits}
use multisim.SocketServer.{new_server}
use multisim.SocketIo.{is_transient}
use multisim.SocketIo.Alive.{IsAlive, IsFed}
use multisim.MultisimServer
use multisim.MultisimServer.{multisim_server_push}
use multisim.MultisimClient
use multisim.MultisimClient.{multisim_client_pull}
use multisim.Channel.{ClientHolds, ServerHolds}
use multisim.StreamTest.{
  Verdict, passed, bad_word, numbered, first_bad, push_numbered, pull_numbered,
}
use multisim.StreamTest.Checked.{pull_numbered-push_numbered}
use multisim.Bench.{Ended, all_rounds, bad_data, filled, stream, stream_rounds, client_rounds}
use multisim.Bench.Checked.{client_rounds-stream_rounds}
use multisim.Tests.Network.{Net, give, bytes_of, bytes_of-IsByte, network, network-IsStream}

abbrev messages : Bytes
messages = 0 ∷ 0 ∷ 0 ∷ 0 ∷ 1 ∷ 0 ∷ 0 ∷ 0 ∷ 239 ∷ 30 ∷ 0 ∷ 0 ∷ 240 ∷ 30 ∷ 0 ∷ 0 ∷ []

abbrev still : Net → Net
still w = w

abbrev server : MultisimServer.State Net
server = record {
  world = λ fd. record { out = []; taken = []; inbox = [] };
  server = λ i. new_server (codes ".multisim") (codes "ch");
  sockets = MultisimServer.update (MultisimServer.update (λ i. some 0) 0 (some 5)) 1 (some 5);
  server_idx = 1;
  server_name_to_idx = (codes "ch", 0) ∷ [];
  server_name_set = codes "ch" ∷ [];
}

abbrev client : MultisimClient.State Net
client = record {
  world = λ fd. record { out = []; taken = []; inbox = messages };
  sockets = λ i. 7;
  server_idx = 1;
  server_name_to_idx = (codes "ch", 0) ∷ [];
  client_info_file = [];
}

abbrev pushed : Run (MultisimServer.State Net) → MultisimServer.State Net
pushed (returned s) = s
pushed _ = server

abbrev pulled : Run (Verdict × MultisimClient.State Net) → Verdict × MultisimClient.State Net
pulled (returned r) = r
pulled _ = (passed, client)

abbrev server_after : MultisimServer.State Net
server_after = pushed (push_numbered network still still 2 4 40 2 0 server)

abbrev client_after : Verdict × MultisimClient.State Net
client_after = pulled (pull_numbered network still still 4 40 2 0 client)

network-IsAlive : IsAlive network 5
network-IsAlive = record { takes = λ w buf h. inl (length buf - 1, ap count (omega arith)) }

server_holds : ServerHolds network network-IsStream sw (codes "ch") 40 false 0 5 server
unfolding find bytes_eq
server_holds = record { index = refl; socket = refl }

client_holds : ClientHolds network network-IsStream sw (codes "ch") 40 false 0 7 client
unfolding find bytes_eq
client_holds = record { index = refl; socket = refl }

pull_numbered-push_numbered_example : passed ≢ bad_word 1 0
unfolding push_numbered pull_numbered multisim_server_push multisim_client_pull find bytes_eq
    numbered first_bad network-IsStream
pull_numbered-push_numbered_example =
    pull_numbered-push_numbered network network-IsStream still still 2 4 4 40 2 2 0 5 0 7 server
      server_after client client_after.1 passed [] 1 0 (omega arith) network-IsAlive (λ x. refl)
      server_holds client_holds refl refl refl refl refl

-- The mode `stream` of bench.cpp.
abbrev bench_messages : Bytes
bench_messages = 0 ∷ 0 ∷ 0 ∷ 0 ∷ 90 ∷ 90 ∷ 90 ∷ 90 ∷ 1 ∷ 0 ∷ 0 ∷ 0 ∷ 90 ∷ 90 ∷ 90 ∷ 90 ∷ []

abbrev bench_server : MultisimServer.State Net
bench_server = record server { server_name_to_idx = (codes "rsp", 1) ∷ (codes "req", 0) ∷ [] }

abbrev bench_client : MultisimClient.State Net
bench_client = record client {
  world = λ fd. record { out = []; taken = []; inbox = bench_messages };
  server_name_to_idx = (codes "rsp", 1) ∷ (codes "req", 0) ∷ [];
}

abbrev streamed : Run (Ended × MultisimServer.State Net) → Ended × MultisimServer.State Net
streamed (returned r) = r
streamed _ = (all_rounds [], server)

abbrev received : Run (Ended × MultisimClient.State Net) → Ended × MultisimClient.State Net
received (returned r) = r
received _ = (all_rounds [], client)

abbrev bench_server_after : Ended × MultisimServer.State Net
bench_server_after = streamed (stream_rounds network 2 4 40 2 0 (filled 2) bench_server)

abbrev bench_client_after : Ended × MultisimClient.State Net
bench_client_after = received (client_rounds network 2 4 stream 40 2 0 (filled 2) bench_client)

give_cases :
    (w : Net) (n : ℕ) (inbox : Bytes)
    → 0 < n
    → ((b : ℕ) × (bs : Bytes) × ((give w 7 n inbox).0 ≡ bytes (b ∷ bs)))
      ⊎ ((e : Errno) × ((give w 7 n inbox).0 ≡ no_bytes e) × (is_transient e ≡ true))
unfolding is_transient
give_cases w n [] h = inr (eagain, refl, refl)
give_cases w zero (b ∷ inbox) h = absurd (omega arith)
give_cases w (suc n) (b ∷ inbox) h = inl (b % 256, bytes_of (take n inbox), refl)

network-IsFed : IsFed network 7
network-IsFed = record { gives = λ w n h. give_cases w n (w 7).inbox h }

filled-Fits : Fits false 40 (filled 2)
unfolding buf_words
filled-Fits = record { sized = refl; words = (omega arith, (omega arith, tt)) }

bench_server_holds : ServerHolds network network-IsStream sw (codes "rsp") 40 false 1 5 bench_server
unfolding find bytes_eq
bench_server_holds = record { index = refl; socket = refl }

bench_client_holds : ClientHolds network network-IsStream sw (codes "rsp") 40 false 1 7 bench_client
unfolding find bytes_eq
bench_client_holds = record { index = refl; socket = refl }

client_rounds-stream_rounds_example : all_rounds (1 ∷ 0x5a5a5a5a ∷ []) ≢ bad_data 0 1
unfolding stream_rounds client_rounds multisim_server_push multisim_client_pull find bytes_eq
    network-IsStream
client_rounds-stream_rounds_example =
    client_rounds-stream_rounds network network-IsStream 2 2 4 4 40 2 2 1 5 1 7 1 0 (filled 2)
      (filled 2) bench_server bench_server_after bench_client bench_client_after [] (omega arith)
      filled-Fits filled-Fits network-IsAlive network-IsFed (λ x. bytes_of-IsByte (x 7).taken)
      bench_server_holds bench_client_holds refl refl refl refl refl
