-- ===== src/Zebu/Process.antt =====
-- The process behind `zebu_server_start` (src/core/multisim_server.cpp).
use multisim.Base.{
  ℕ, ◌≡◌, refl, sym, ◌∙◌, ap, subst, List, All, Bytes, take, Option-cases, inl, inr, none, some,
  returned, >>=-eq-returned, returned-injective,
}
use multisim.Os.{Os}
use multisim.Names.{find}
use multisim.MultisimServer.{State, multisim_server_start}
use multisim.Zebu.{
  ZebuServer, ZebuState, zebu_name_words, zebu_server_name, find_packed, index_at, start_if_new,
  push_server, add_server, zebu_server_start,
}
use multisim.Zebu.Servers.{IsEntry, start_if_new-Kept, find_packed-some}

-- The process `s` is `before`, where a server of the name `name` is there already, and what
-- `multisim_server_start` of that name leaves of `before`, where none is.
pub data Started (os : Os) (fuel : ℕ) (before : State os.World) (name : Bytes) (s : State os.World)
    : Type 0 where
  already :
      (i : ℕ)
      → find name before.server_name_to_idx ≡ some i
      → s ≡ before
      → Started os fuel before name s
  just_now :
      (q : ℕ × State os.World)
      → find name before.server_name_to_idx ≡ none
      → multisim_server_start os fuel before name ≡ returned q
      → s ≡ q.1
      → Started os fuel before name s

module _ (os : Os) where
  start_if_new-Started :
      (fuel : ℕ) (s s' : State os.World) (name : Bytes)
      → start_if_new os fuel s name ≡ returned s'
      → Started os fuel s name s'
  unfolding start_if_new
  start_if_new-Started fuel s s' name e = elim (Option-cases (find name s.server_name_to_idx)) [
    | inl missing ↦
        let (q, starts, e1) =
          >>=-eq-returned (multisim_server_start os fuel s name) _
            (rw (missing, start_if_new) at e) in
        just_now q missing starts (sym (returned-injective e1))
    | inr (i, there) ↦ already i there (sym (returned-injective (rw (there, start_if_new) at e)))
  ]

  -- The index of a name that is there is looked up, and nothing is stored.
  push_server-process :
      (z : ZebuState os.World) (key : List ℕ) (name : Bytes) (p : State os.World) (i : ℕ)
      → find name p.server_name_to_idx ≡ some i
      → (push_server os z key name p).1.process ≡ p
  unfolding push_server index_at
  push_server-process z key name p i there = rw (there, index_at) refl

  push_server-name :
      (z : ZebuState os.World) (key : List ℕ) (name : Bytes) (p : State os.World)
      → (push_server os z key name p).0.name ≡ name
  unfolding push_server
  push_server-name z key name p = refl

  add_server-Started :
      (fuel : ℕ) (z : ZebuState os.World) (packed : List ℕ) (q : ZebuServer × ZebuState os.World)
      → add_server os fuel z packed ≡ returned q
      → Started os fuel z.process q.0.name q.1.process
  unfolding add_server
  add_server-Started fuel z packed q e =
      let key = take zebu_name_words packed in
      let (name, decodes, e1) = >>=-eq-returned (zebu_server_name packed) _ e in
      let (p, starts, e2) = >>=-eq-returned (start_if_new os fuel z.process name) _ e1 in
      let out = returned-injective e2 in
      let (i, there) = (start_if_new-Kept os fuel z.process p name starts).new in
      let same : p ≡ q.1.process =
        sym (push_server-process z key name p i there) ∙ ap (λ v. v.1.process) out in
      let called : name ≡ q.0.name = sym (push_server-name z key name p) ∙ ap (λ v. v.0.name) out in
      subst (λ n. Started os fuel z.process n q.1.process) called
        (subst (λ s. Started os fuel z.process name s) same
          (start_if_new-Started fuel z.process p name starts))

  pub zebu_server_start-Started :
      (fuel : ℕ) (z : ZebuState os.World) (packed : List ℕ) (q : ZebuServer × ZebuState os.World)
      → All (IsEntry z.process.server_name_to_idx) z.zebu_servers
      → zebu_server_start os fuel z packed ≡ returned q
      → Started os fuel z.process q.0.name q.1.process
  unfolding zebu_server_start
  zebu_server_start-Started fuel z packed q a e =
      elim (Option-cases (find_packed (take zebu_name_words packed) z.zebu_servers)) [
        | inl new' ↦ add_server-Started fuel z packed q (rw (new', zebu_server_start) at e)
        | inr (s, hit) ↦
            let out : ◌≡◌ {A = ZebuServer × ZebuState os.World} (s, z) q =
              returned-injective (rw (hit, zebu_server_start) at e) in
            let (_, v) =
              find_packed-some (IsEntry z.process.server_name_to_idx) (take zebu_name_words packed)
                z.zebu_servers s a hit in
            rw (← out) (already s.idx v.indexed refl)
      ]
