-- ===== src/MultisimServer/Once.antt =====
-- The names of the servers of a process over a whole run of it: `multisim_server_start`
-- (src/core/multisim_server.cpp) and `Server::Server` (src/core/socket_server/server.cpp).
use multisim.Base.{
  ℕ, ◌≡◌, ◌∙◌, refl, sym, ap, true, false, Bool-cases, inl, inr, arith, Bytes, bytes_eq,
  bytes_eq_iff, bytes_eq_refl, List, ◌∷◌, some, returned,
}
use multisim.Os.{Os}
use multisim.SocketServer.{in_set}
use multisim.Names.{find, find-insert}
use multisim.MultisimServer.{State, multisim_server_start}
use multisim.MultisimServer.Start.{Registered, multisim_server_start-Registered}

-- The name `name` is taken, by the server of the index `i`.
record Taken {World : Type 0} (name : Bytes) (i : ℕ) (s : State World) : Type 0 where
  pub taken : in_set name s.server_name_set ≡ true
  pub index : find name s.server_name_to_idx ≡ some i

in_set_here : (name : Bytes) (names : List Bytes) → in_set name (name ∷ names) ≡ true
unfolding in_set
in_set_here name names = rw (bytes_eq_refl name) refl

in_set_later :
    (name n : Bytes) (names : List Bytes)
    → in_set name names ≡ true
    → in_set name (n ∷ names) ≡ true
unfolding in_set
in_set_later name n names h = ground (arith, h)

module _ (os : Os) where
  -- Starts of any servers that return, and between them any other calls, which leave the names alone.
  pub data Starts : State os.World → State os.World → Type 0 where
    starts_end : {s : State os.World} → Starts s s
    a_start :
        {s s' : State os.World} (fuel : ℕ) (name : Bytes) (q : ℕ × State os.World)
        → multisim_server_start os fuel s name ≡ returned q
        → Starts q.1 s'
        → Starts s s'
    others :
        {s s1 s' : State os.World}
        → s1.server_name_set ≡ s.server_name_set
        → s1.server_name_to_idx ≡ s.server_name_to_idx
        → Starts s1 s'
        → Starts s s'

  own-Taken :
      (s s' : State os.World) (name : Bytes) → Registered s name s' → Taken name s.server_idx s'
  own-Taken s s' name r = record {
    taken = ap (in_set name) r.names ∙ in_set_here name s.server_name_set;
    index =
        ap (find name) r.map
        ∙ find-insert name name s.server_idx s.server_name_to_idx
        ∙ rw (bytes_eq_refl name) refl;
  }

  -- The start of another name, which is another since this one is taken.
  start-Taken :
      (s s' : State os.World) (name n : Bytes) (i : ℕ)
      → Registered s n s'
      → Taken name i s
      → Taken name i s'
  start-Taken s s' name n i r t = record {
    taken = ap (in_set name) r.names ∙ in_set_later name n s.server_name_set t.taken;
    index = elim (Bool-cases (bytes_eq n name)) [
      | inl y ↦
          let same : n ≡ name = (bytes_eq_iff n name).0 y in
          let free : in_set name s.server_name_set ≡ false =
            ap (λ k. in_set k s.server_name_set) (sym same) ∙ r.fresh in
          let used = t.taken in absurd cc
      | inr d ↦
          ap (find name) r.map ∙ find-insert name n s.server_idx s.server_name_to_idx ∙ rw d t.index
    ];
  }

  Starts-Taken :
      (s s' : State os.World) (name : Bytes) (i : ℕ)
      → Starts s s'
      → Taken name i s
      → Taken name i s'
  Starts-Taken s s' name i starts_end t = t
  Starts-Taken s s' name i (a_start fuel n q e run) t =
      Starts-Taken q.1 s' name i run
        (start-Taken s q.1 name n i (multisim_server_start-Registered os fuel s n q e).1 t)
  Starts-Taken s s' name i (others {s1 = s1} set map run) t =
      Starts-Taken s1 s' name i run
        (record { taken = ap (in_set name) set ∙ t.taken; index = ap (find name) map ∙ t.index })

  -- A name stands for one server. Behind a start of it that returned, and any number of other starts
  -- that returned, with other calls between them that leave the names alone, the name still has the
  -- index that its start gave it, and no start of it returns again.
  pub multisim_server_start_once :
      (fuel fuel' : ℕ) (s s' : State os.World) (name : Bytes) (q q' : ℕ × State os.World)
      → multisim_server_start os fuel s name ≡ returned q
      → Starts q.1 s'
      → (find name s'.server_name_to_idx ≡ some s.server_idx)
        × ¬ (multisim_server_start os fuel' s' name ≡ returned q')
  multisim_server_start_once fuel fuel' s s' name q q' e run =
      let r = (multisim_server_start-Registered os fuel s name q e).1 in
      let t = Starts-Taken q.1 s' name s.server_idx run (own-Taken s q.1 name r) in
      (
        t.index,
        λ again.
            let free = (multisim_server_start-Registered os fuel' s' name q' again).1.fresh in
            let used = t.taken in absurd cc,
      )
