-- ===== src/Zebu/Calls.antt =====
-- The push and the pull of ZeBu (src/core/multisim_server.cpp), and those that they wrap.
use multisim.Base.{
  set, ℕ, ◌%◌, ◌≡◌, sym, [], ap, ◌∙◌, List, All, Bytes, length, if◌then◌else◌, ◌==◌, returned,
  >>=-eq-returned, returned-injective, false,
}
use multisim.Os.{Os}
use multisim.Data.{emulation, buf_32b_size}
use multisim.MultisimServer.{
  State, Pulled, success, multisim_server_push_core, multisim_server_pull_core,
}
use multisim.Zebu.{
  zebu_status, ZebuState, zebu_name_words, zebu_server_name, zebu_server_start,
  multisim_server_push_zebu, multisim_server_pull_zebu,
}
use multisim.Zebu.Status.{zebu_status_fields}
use multisim.Zebu.Process.{Started, zebu_server_start-Started}
use multisim.Zebu.Servers.{IsEntry, zebu_server_start-IsEntry}

module _ (os : Os) where
  -- A ZeBu push that returns is a push of 2-state data on the server of the decoded name, in the process
  -- as it was where that server is there already, and else in the one that its start leaves: it leaves the process that the push leaves, bit 0 of its status
  -- word is the success of the push, and `done` is 1. The packed name has 129 words, and every entry
  -- so far has the name that its packed name decodes to, and the index of that name.
  pub multisim_server_push_zebu-IsEntry :
      (fuel : ℕ) (z : ZebuState os.World) (packed mem : List ℕ) (width : ℕ)
      (q : ℕ × ℕ × ZebuState os.World)
      → length packed ≡ zebu_name_words
      → All (IsEntry z.process.server_name_to_idx) z.zebu_servers
      → multisim_server_push_zebu os fuel z packed mem width ≡ returned q
      → (name : Bytes) × (s : State os.World) × (r : ℕ × State os.World) × (zebu_server_name packed
          ≡ returned name)
        × Started os fuel z.process name s
        × (multisim_server_push_core os fuel emulation s name mem width false [] ≡ returned r)
        × (q.2.process ≡ r.1)
        × (q.0 % 2 ≡ (if r.0 == success then 1 else 0))
        × (q.1 ≡ 1)
  unfolding multisim_server_push_zebu
  multisim_server_push_zebu-IsEntry fuel z packed mem width q n a e =
      let (v, starts, e1) = >>=-eq-returned (zebu_server_start os fuel z packed) _ e in
      let (r, pushes, e2) =
        >>=-eq-returned
          (multisim_server_push_core os fuel emulation v.1.process v.0.name mem width false []) _
          e1 in
      let out = returned-injective e2 in
      let (decodes, _, _) = zebu_server_start-IsEntry os fuel z packed v n a starts in
      let (bit, _, _) = zebu_status_fields v.1.zebu_call_cnt v.0.idx r.0 0 in
      (
        v.0.name,
        v.1.process,
        r,
        decodes,
        zebu_server_start-Started os fuel z packed v a starts,
        pushes,
        ap (λ x. x.2.process) (sym out),
        ap (λ x. x.0 % 2) (sym out) ∙ bit,
        ap (λ x. x.1) (sym out),
      )

  -- A ZeBu pull that returns is a pull of 2-state data on the server of the decoded name, in the process
  -- as it was where that server is there already, and else in the one that its start leaves: it leaves the process that the pull leaves, `done` is 1, and
  -- `status_data` is the array that the pull leaves, but for the word behind the data, whose bit 0 is
  -- the success of the pull. The packed name has 129 words, and every entry so far has the name that
  -- its packed name decodes to, and the index of that name.
  pub multisim_server_pull_zebu-IsEntry :
      (fuel : ℕ) (z : ZebuState os.World) (status_data packed : List ℕ) (width : ℕ)
      (q : List ℕ × ℕ × ZebuState os.World)
      → length packed ≡ zebu_name_words
      → All (IsEntry z.process.server_name_to_idx) z.zebu_servers
      → multisim_server_pull_zebu os fuel z status_data packed width ≡ returned q
      → (name : Bytes) × (s : State os.World) × (r : Pulled os.World) × (word : ℕ)
        × (zebu_server_name packed ≡ returned name)
        × Started os fuel z.process name s
        × (multisim_server_pull_core os fuel emulation s name status_data width false []
            ≡ returned r)
        × (q.2.process ≡ r.state)
        × (q.0 ≡ set r.array (buf_32b_size width) word)
        × (word % 2 ≡ (if r.status == success then 1 else 0))
        × (q.1 ≡ 1)
  unfolding multisim_server_pull_zebu
  multisim_server_pull_zebu-IsEntry fuel z status_data packed width q n a e =
      let (v, starts, e1) = >>=-eq-returned (zebu_server_start os fuel z packed) _ e in
      let (r, pulls, e2) =
        >>=-eq-returned
          (multisim_server_pull_core os fuel emulation v.1.process v.0.name status_data width false
            [])
          _ e1 in
      let out = returned-injective e2 in
      let (decodes, _, _) = zebu_server_start-IsEntry os fuel z packed v n a starts in
      let (bit, _, _) = zebu_status_fields v.1.zebu_call_cnt v.0.idx r.status 0 in
      (
        v.0.name,
        v.1.process,
        r,
        (zebu_status v.1.zebu_call_cnt v.0.idx r.status).0,
        decodes,
        zebu_server_start-Started os fuel z packed v a starts,
        pulls,
        ap (λ x. x.2.process) (sym out),
        ap (λ x. x.0) (sym out),
        bit,
        ap (λ x. x.1) (sym out),
      )
