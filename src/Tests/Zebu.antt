-- ===== src/Tests/Zebu.antt =====
-- Packed names and the servers of ZeBu at concrete inputs.
use multisim.Base.{
  set, some, false, Bytes, if◌then◌else◌, ◌==◌, ℕ, zero, suc, ◌+◌, ◌-◌, ◌*◌, ◌/◌, ◌%◌, ◌^◌, ◌≡◌,
  ◌≢◌, refl, arith, List, [], ◌∷◌, All, bytes_eq, get_or, none, returned, Bool-cases, ltb, inl, inr,
  ltb→lt, ltb_false→le,
}
use native.Mathlib.Nat.{zero-div}
use multisim.Names.{find}
use multisim.Zebu.{
  multisim_server_pull_zebu, ZebuServer, ZebuState, packed_byte, zebu_server_name,
  zebu_server_start, zebu_status,
}
use multisim.Zebu.Name.{Spells, Padded, zebu_server_name-Spells}
use multisim.Zebu.Status.{zebu_status_fields}
use multisim.Zebu.Process.{Started}
use multisim.Zebu.Servers.{IsEntry, zebu_server_start-IsEntry}
use multisim.MultisimServer
use multisim.MultisimServer.{success, multisim_server_push_core, multisim_server_pull_core}
use multisim.Data.{emulation, buf_32b_size}
use multisim.Zebu.{multisim_server_push_zebu}
use multisim.Zebu.Calls.{multisim_server_push_zebu-IsEntry, multisim_server_pull_zebu-IsEntry}
use multisim.Tests.Loopback.{Wire, loopback}
use multisim.Tests.Data.{wire, cpu, server_with}

abbrev zeros : ℕ → List ℕ
zeros zero = []
zeros (suc n) = 0 ∷ zeros n

-- The literal "cpu" in 129 words.
abbrev packed_cpu : List ℕ
packed_cpu = (b'u' + 256 * b'p' + 65536 * b'c') ∷ zeros 128

packed_cpu-Spells : Spells packed_cpu cpu
unfolding packed_byte
packed_cpu-Spells = (
  refl,
  λ e. absurd (omega arith),
  (refl, λ e. absurd (omega arith), (refl, λ e. absurd (omega arith), tt)),
)

get_or-zeros : (n k : ℕ) → get_or (zeros n) k 0 ≡ 0
get_or-zeros zero k = refl
get_or-zeros (suc n) zero = refl
get_or-zeros (suc n) (suc k) = get_or-zeros n k

packed_cpu-Padded : Padded packed_cpu 3
unfolding packed_byte
packed_cpu-Padded i lo hi = elim (Bool-cases (ltb i 4)) [
  | inl low ↦ let at : i ≡ 3 = omega (arith, ltb→lt i 4 low) in rw at refl
  | inr high ↦
      let word : i / 4 ≡ suc ((i - 4) / 4) = omega (arith, ltb_false→le i 4 high) in
      rw (word, get_or-zeros 128 ((i - 4) / 4), zero-div (2 ^ (8 * (i % 4)))) refl
]

zebu_server_name-Spells_example : zebu_server_name packed_cpu ≡ returned cpu
zebu_server_name-Spells_example =
    zebu_server_name-Spells packed_cpu cpu (omega arith) packed_cpu-Spells packed_cpu-Padded

-- The last call before the count wraps around.
zebu_status_fields_example :
    let st = zebu_status (λ i. 2147483647) 0 0 in
    (st.0 % 2 ≡ 0) × (st.0 / 2 ≡ 0) × (st.0 ≢ (zebu_status st.1 0 1).0)
zebu_status_fields_example = zebu_status_fields (λ i. 2147483647) 0 0 1

-- A process whose server `cpu` was started by another call.
abbrev before : ZebuState Wire
before = record {
  process = server_with (wire [] [] []) none;
  zebu_servers = [];
  zebu_call_cnt = λ i. 0;
}

abbrev cpu_entry : ZebuServer
cpu_entry = record { packed_name = packed_cpu; name = cpu; idx = 0 }

abbrev after : ZebuState Wire
after = record before { zebu_servers = cpu_entry ∷ [] }

zebu_server_start-IsEntry_example :
    (zebu_server_name packed_cpu ≡ returned cpu)
    × IsEntry ((cpu, 0) ∷ []) cpu_entry
    × All (IsEntry ((cpu, 0) ∷ [])) (cpu_entry ∷ [])
unfolding zebu_server_start find bytes_eq zebu_server_name packed_byte
zebu_server_start-IsEntry_example =
    zebu_server_start-IsEntry loopback 9 before packed_cpu (cpu_entry, after) refl tt refl

-- A push on the connected server, which is the first call.
abbrev joined : ZebuState Wire
joined = record before { process = server_with (wire [] [] []) (some 5) }

abbrev pushed : ZebuState Wire
pushed = record {
  process = server_with (record (wire [] [] []) { out = 7 ∷ 0 ∷ 0 ∷ 0 ∷ [] }) (some 5);
  zebu_servers = cpu_entry ∷ [];
  zebu_call_cnt = MultisimServer.update (λ i. 0) 0 1;
}

multisim_server_push_zebu-IsEntry_example :
    (name : Bytes) × (s : MultisimServer.State Wire) × (r : ℕ × MultisimServer.State Wire)
    × (zebu_server_name packed_cpu ≡ returned name)
    × Started loopback 9 joined.process name s
    × (multisim_server_push_core loopback 9 emulation s name (7 ∷ []) 32 false [] ≡ returned r)
    × (pushed.process ≡ r.1)
    × (3 % 2 ≡ (if r.0 == success then 1 else 0))
    × ◌≡◌ {A = ℕ} 1 1
unfolding multisim_server_push_zebu find bytes_eq packed_byte
multisim_server_push_zebu-IsEntry_example =
    multisim_server_push_zebu-IsEntry loopback 9 joined packed_cpu (7 ∷ []) 32 (3, 1, pushed) refl
      tt refl

-- A pull of the next word; the array has room for the status.
abbrev filled : ZebuState Wire
filled = record before { process = server_with (wire (7 ∷ 0 ∷ 0 ∷ 0 ∷ []) [] []) (some 5) }

abbrev emptied : ZebuState Wire
emptied = record {
  process = server_with (record (wire [] [] []) { taken = 7 ∷ 0 ∷ 0 ∷ 0 ∷ [] }) (some 5);
  zebu_servers = cpu_entry ∷ [];
  zebu_call_cnt = MultisimServer.update (λ i. 0) 0 1;
}

multisim_server_pull_zebu-IsEntry_example :
    (name : Bytes) × (s : MultisimServer.State Wire) × (r : MultisimServer.Pulled Wire) × (word : ℕ)
    × (zebu_server_name packed_cpu ≡ returned name)
    × Started loopback 9 filled.process name s
    × (multisim_server_pull_core loopback 9 emulation s name (1 ∷ 1 ∷ []) 32 false [] ≡ returned r)
    × (emptied.process ≡ r.state)
    × (7 ∷ 3 ∷ [] ≡ set r.array (buf_32b_size 32) word)
    × (word % 2 ≡ (if r.status == success then 1 else 0))
    × ◌≡◌ {A = ℕ} 1 1
unfolding multisim_server_pull_zebu find bytes_eq packed_byte
multisim_server_pull_zebu-IsEntry_example =
    multisim_server_pull_zebu-IsEntry loopback 9 filled (1 ∷ 1 ∷ []) packed_cpu 32
      (7 ∷ 3 ∷ [], 1, emptied) refl tt refl
