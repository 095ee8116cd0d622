-- ===== src/Zebu.antt =====
-- src/core/multisim_server.cpp under MULTISIM_ZEBU: the server DPIs of ZeBu transactors. A mutex
-- serializes the calls, so each is one step here.
pub mod Name
pub mod Status
pub mod Servers
pub mod Process
pub mod Calls
use multisim.Base.{
  ℕ, zero, suc, ◌+◌, ◌*◌, ◌/◌, ◌%◌, ◌^◌, Bool, true, false, List, [], ◌∷◌, ◌++◌, ltb, ◌==◌,
  if◌then◌else◌, Bytes, bytes_eq, length, get_or, set, take, Option, none, some, Run, returned,
  exited, ◌>>=◌, ◌>>◌,
}
use multisim.Os.{Os}
use multisim.Names.{Names, find, insert, server_name_len}
use multisim.Data.{emulation, buf_32b_size}
use multisim.MultisimServer.{
  State, Pulled, success, update, multisim_server_start, multisim_server_pull_core,
  multisim_server_push_core,
}

-- ZEBU_NAME_WORDS
abbrev pub zebu_name_words : ℕ
zebu_name_words = 129

-- `(server_name[i / 4] >> (8 * (i % 4))) & 0xff`
unfoldable pub packed_byte : List ℕ → ℕ → ℕ
packed_byte server_name i = get_or server_name (i / 4) 0 / 2 ^ (8 * (i % 4)) % 256

-- The loop over `i`, from `i - 1` down to 0.
pub name_loop : ℕ → List ℕ → Bytes
unfolding packed_byte
name_loop zero server_name = []
name_loop (suc i) server_name =
    let rest = name_loop i server_name in
    if packed_byte server_name i == 0 then rest else packed_byte server_name i ∷ rest

unfoldable pub zebu_server_name : List ℕ → Run Bytes
unfolding name_loop
zebu_server_name server_name =
    let name = name_loop (server_name_len + 1) server_name in
    if ltb server_name_len (length name) then exited else returned name

pub record ZebuServer : Type 0 where
  pub packed_name : List ℕ
  pub name : Bytes
  pub idx : ℕ

-- The statics of the file, those of ZeBu behind those of all targets.
pub record ZebuState (World : Type 0) : Type 0 where
  pub process : State World
  pub zebu_servers : List ZebuServer
  pub zebu_call_cnt : ℕ → ℕ

-- The `memcmp` with the packed names that are decoded; the words that it compares are `key`.
unfoldable pub find_packed : List ℕ → List ZebuServer → Option ZebuServer
find_packed key [] = none
find_packed key (s ∷ servers) =
    let rest = find_packed key servers in if bytes_eq s.packed_name key then some s else rest

-- `server_name_to_idx[s.name]`, which stores 0 for a name that is missing.
unfoldable pub index_at : Bytes → Names → ℕ × Names
unfolding find insert
index_at name names = elim (find name names) [
  | some i ↦ (i, names)
  | none ↦ (0, insert name 0 names)
]

-- `{call_count[30:0], MULTISIM_SUCCESS|MULTISIM_FAIL}`; the bit that is set was 0.
unfoldable pub zebu_status : (ℕ → ℕ) → ℕ → ℕ → ℕ × (ℕ → ℕ)
zebu_status cnt idx r =
    let calls = (cnt idx + 1) % 2 ^ 32 in
    (calls * 2 % 2 ^ 32 + (if r == success then 1 else 0), update cnt idx calls)

module _ (os : Os) where
  open os use {World}

  -- Starts the server of a name that has none.
  pub start_if_new : ℕ → State World → Bytes → Run (State World)
  unfolding multisim_server_start find
  start_if_new fuel s name = elim (find name s.server_name_to_idx) [
    | some i ↦ returned s
    | none ↦ multisim_server_start os fuel s name >>= λ q. returned q.1
  ]

  -- `zebu_servers.push_back(s)`, for the process behind the start.
  pub push_server : ZebuState World → List ℕ → Bytes → State World → ZebuServer × ZebuState World
  unfolding index_at
  push_server z key name p =
      let at = index_at name p.server_name_to_idx in
      let s : ZebuServer = record { packed_name = key; name = name; idx = at.0 } in
      (
        s,
        record z {
          process = record p { server_name_to_idx = at.1 };
          zebu_servers = z.zebu_servers ++ s ∷ [];
        },
      )

  pub add_server : ℕ → ZebuState World → List ℕ → Run (ZebuServer × ZebuState World)
  unfolding zebu_server_name start_if_new push_server
  add_server fuel z server_name = do
    name ← zebu_server_name server_name
    p ← start_if_new fuel z.process name
    returned (push_server z (take zebu_name_words server_name) name p)

  unfoldable pub zebu_server_start :
      ℕ → ZebuState World → List ℕ → Run (ZebuServer × ZebuState World)
  unfolding find_packed add_server
  zebu_server_start fuel z server_name =
      elim (find_packed (take zebu_name_words server_name) z.zebu_servers) [
        | some s ↦ returned (s, z)
        | none ↦ add_server fuel z server_name
      ]

  unfoldable pub multisim_server_start_zebu : ℕ → ZebuState World → List ℕ → Run (ZebuState World)
  unfolding zebu_server_start
  multisim_server_start_zebu fuel z server_name =
      zebu_server_start fuel z server_name >>= λ q. returned q.1

  -- The array `status_data` behind the call, and `*done`.
  unfoldable pub multisim_server_pull_zebu :
      ℕ → ZebuState World → List ℕ → List ℕ → ℕ → Run (List ℕ × ℕ × ZebuState World)
  unfolding zebu_server_start multisim_server_pull_core zebu_status buf_32b_size
  multisim_server_pull_zebu fuel z status_data server_name data_width = do
    q ← zebu_server_start fuel z server_name
    p ←
        multisim_server_pull_core os fuel emulation q.1.process q.0.name status_data data_width
          false []
    let st = zebu_status q.1.zebu_call_cnt q.0.idx p.status
    returned (
      set p.array (buf_32b_size data_width) st.0,
      1,
      record q.1 { process = p.state; zebu_call_cnt = st.1 },
    )

  -- The word `status[0]` behind the call, and `*done`.
  unfoldable pub multisim_server_push_zebu :
      ℕ → ZebuState World → List ℕ → List ℕ → ℕ → Run (ℕ × ℕ × ZebuState World)
  unfolding zebu_server_start multisim_server_push_core zebu_status
  multisim_server_push_zebu fuel z server_name mem data_width = do
    q ← zebu_server_start fuel z server_name
    r ← multisim_server_push_core os fuel emulation q.1.process q.0.name mem data_width false []
    let st = zebu_status q.1.zebu_call_cnt q.0.idx r.0
    returned (st.0, 1, record q.1 { process = r.1; zebu_call_cnt = st.1 })
