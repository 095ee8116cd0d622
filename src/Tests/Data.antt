-- ===== src/Tests/Data.antt =====
-- The states and the arrays that the tests use.
use multisim.Base.{ℕ, refl, false, true, List, [], ◌∷◌, Bytes, codes, none, some, Option}
use multisim.Tests.Loopback.{Wire}
use multisim.Data.{buf_words}
use multisim.Data.Words.{IsWord}
use multisim.Data.Message.{Fits}
use multisim.SocketServer.{new_server}
use multisim.MultisimServer
use multisim.MultisimClient

-- The system with bytes to read, a script, and connections that wait.
abbrev pub wire : Bytes → List ℕ → List ℕ → Wire
wire inbox script pending = record {
  out = [];
  taken = [];
  inbox = inbox;
  script = script;
  pending = pending;
  info = none;
}

abbrev pub cpu : Bytes
cpu = codes "cpu"

-- A server process with the one server `cpu`, and its client's socket; the other slots hold the zeros
-- that they began with.
abbrev pub server_with : Wire → Option ℕ → MultisimServer.State Wire
server_with w socket = record {
  world = w;
  server = λ i. new_server (codes ".multisim") cpu;
  sockets = MultisimServer.update (λ i. some 0) 0 socket;
  server_idx = 1;
  server_name_to_idx = (cpu, 0) ∷ [];
  server_name_set = cpu ∷ [];
}

-- A client process of it.
abbrev pub client_with : Wire → MultisimClient.State Wire
client_with w = record {
  world = w;
  sockets = λ i. 5;
  server_idx = 1;
  server_name_to_idx = (cpu, 0) ∷ [];
  client_info_file = [];
}

-- A word of 2-state data, and one of 4-state data with its two halves.
abbrev pub word : ℕ → List ℕ
word x = x ∷ []

abbrev pub pair : ℕ → ℕ → List ℕ
pair a b = a ∷ b ∷ []

pub word-Fits : (x : ℕ) → IsWord x → Fits false 32 (word x)
unfolding buf_words
word-Fits x h = record { sized = refl; words = (h, tt) }

pub pair-Fits : (a b : ℕ) → IsWord a → IsWord b → Fits true 32 (pair a b)
unfolding buf_words
pair-Fits a b h k = record { sized = refl; words = (h, (k, tt)) }
