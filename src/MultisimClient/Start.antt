-- ===== src/MultisimClient/Start.antt =====
-- `multisim_client_start` (src/core/multisim_client.cpp) and the invariant of the process.
use multisim.Base.{
  ℕ, ◌≤◌, ◌<◌, ◌≡◌, refl, ◌⊎◌, inl, inr, true, false, ltb, ltb→lt, Bool-cases, Bytes, codes, ◌++◌,
  arith, some, returned, >>=-eq-returned, returned-injective, exited-ne-returned,
  aborted-ne-returned, bytes_eq_iff, ◌==◌, ==_iff, Bool,
}
use multisim.Os.{Os}
use multisim.Names.{find, find-insert, server_max, check_server_name, IsIndexed, IsIndexed-insert}
use multisim.SocketClient
use multisim.SocketClient.{Client, new_client}
use multisim.Data.{Target}
use multisim.MultisimServer.{update}
use multisim.MultisimClient.{State, register, multisim_client_start}

-- The invariant: at most 1024 servers, and one index below `server_idx` for each name of the map.
pub record IsValid {World : Type 0} (s : State World) : Type 0 where
  pub bounded : s.server_idx ≤ server_max
  pub indexed : IsIndexed s.server_idx s.server_name_to_idx

-- What a start that returns has done, on a connection `fd`.
pub record Connected {World : Type 0} (s : State World) (name : Bytes) (fd : ℕ) (s' : State World)
    : Type 0 where
  pub index : find name s'.server_name_to_idx ≡ some s.server_idx
  pub socket : s'.sockets s.server_idx ≡ fd
  pub others : (i : ℕ) → (i ≡ s.server_idx) ⊎ (s'.sockets i ≡ s.sockets i)
  pub valid : IsValid s'

module _ (os : Os) where
  update_others :
      {A : Type 0} (f : ℕ → A) (i : ℕ) (v : A) (j : ℕ) → (j ≡ i) ⊎ (update f i v j ≡ f j)
  update_others f i v j = elim (Bool-cases (j == i)) [
    | inl e ↦ inl ((==_iff j i).0 e)
    | inr e ↦ inr (rw e refl)
  ]

  register-Connected :
      (s s' : State os.World) (name : Bytes) (fd : ℕ) (d : Bytes × Bool × os.World)
      → IsValid s
      → s.server_idx < server_max
      → register os s name fd d ≡ returned s'
      → Connected s name fd s'
  unfolding register
  register-Connected s s' name fd (file, true, w) v room e = rw (← returned-injective e) (record {
    index =
        ground
          (arith, find-insert name name s.server_idx s.server_name_to_idx, bytes_eq_iff name name);
    socket =
        let self : (s.server_idx == s.server_idx) ≡ true =
          (==_iff s.server_idx s.server_idx).1 refl in
        rw self refl;
    others = update_others s.sockets s.server_idx fd;
    valid = record {
      bounded = omega arith;
      indexed = IsIndexed-insert s.server_idx name s.server_name_to_idx v.indexed;
    };
  })
  register-Connected s s' name fd (file, false, w) v room e = absurd (exited-ne-returned e)

  -- A start that returns has had `Client::start` connect a client of the name, and has put its socket
  -- at the next index, which the name now has, and changed no other socket. It keeps the invariant:
  -- distinct names have distinct indices below `server_idx`, which is at most 1024.
  pub multisim_client_start-Connected :
      (fuel : ℕ) (t : Target) (s s' : State os.World) (dir name : Bytes)
      → IsValid s
      → multisim_client_start os fuel t s dir name ≡ returned s'
      → (up : Client × os.World) × (SocketClient.start os fuel s.world
            (new_client (dir ++ codes "/.multisim") name)
          ≡ returned up)
        × Connected s name up.0.new_socket s'
  unfolding multisim_client_start
  multisim_client_start-Connected fuel t s s' dir name v e =
      elim (Bool-cases (ltb s.server_idx server_max)) [
        | inr full ↦ absurd (aborted-ne-returned (rw full at e))
        | inl room ↦
            let (u, fits, e1) = >>=-eq-returned (check_server_name name) _ (rw room at e) in
            let (up, started, e2) =
              >>=-eq-returned
                (SocketClient.start os fuel s.world (new_client (dir ++ codes "/.multisim") name)) _
                e1 in
            (up, started, register-Connected s s' name up.0.new_socket _ v (ltb→lt _ _ room) e2)
      ]
