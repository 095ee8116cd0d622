-- ===== src/MultisimServer/Starting.antt =====
-- What `multisim_server_start` (src/core/multisim_server.cpp) leaves of the sockets of the process.
use native.Mathlib.Decide.{ℕ_discrete}
use mathlib.Core.Option.{some-ne-none}
use multisim.Base.{
  ℕ, ◌<◌, ◌≡◌, ◌∙◌, sym, ap, true, Bytes, bytes_eq, Bool-cases, some, inl, inr, arith, ltb, codes,
  returned, >>=-eq-returned, returned-injective, aborted-ne-returned,
}
use multisim.Os.{Os}
use multisim.SocketIo.Ledger.{IsLedger}
use multisim.SocketServer
use multisim.SocketServer.{Server}
use multisim.SocketServer.Starting.{start-same}
use multisim.Names.{find, insert, find-insert, server_max, check_server_name}
use multisim.MultisimServer.{State, initial, success, register, multisim_server_start}
use multisim.MultisimServer.Start.{Registered}
use multisim.MultisimServer.Ledger.{IsExact, Same}

module _ (os : Os) (ledger : IsLedger os) where
  open ledger use {is_open}

  -- A process that has no connection and no server yet.
  pub initial-IsExact :
      (w : os.World) (nowhere : ℕ → Server)
      → ((fd : ℕ) → is_open w fd ≡ true → ⊥)
      → IsExact os ledger (initial w nowhere)
  unfolding find
  initial-IsExact w nowhere closed = record {
    named = λ name i e. cc;
    in_slot = λ fd o. absurd (closed fd o);
    slot_open = λ i fd l e. absurd (omega arith);
    one_slot = λ i j fd l m e e'. absurd (omega arith);
  }

  module _ (s s' : State os.World) (name : Bytes) (r : Registered s name s') where
    below :
        (k : Bytes) (i : ℕ)
        → IsExact os ledger s
        → find k s'.server_name_to_idx ≡ some i
        → i < s'.server_idx
    below k i h e =
        let f : find k (insert name s.server_idx s.server_name_to_idx) ≡ some i =
          ap (find k) (sym r.map) ∙ e in
        let g = sym (find-insert k name s.server_idx s.server_name_to_idx) ∙ f in
        elim (Bool-cases (bytes_eq name k)) [
          | inl y ↦
              let here : some s.server_idx ≡ some i = rw y at g in
              let same : s.server_idx ≡ i = cc in omega (arith, r.next_idx)
          | inr n ↦ omega (arith, r.next_idx, h.named k i (rw n at g))
        ]

    -- A slot that is taken was there before.
    older :
        (i fd : ℕ)
        → i < s'.server_idx
        → s'.sockets i ≡ some fd
        → (i < s.server_idx) × (s.sockets i ≡ some fd)
    older i fd l e = elim (ℕ_discrete i s.server_idx) [
      | yes z ↦ absurd (some-ne-none fd (sym e ∙ ap s'.sockets z ∙ r.unconnected))
      | no n ↦ elim (r.other_sockets i) [
        | inl z ↦ absurd (n z)
        | inr k ↦ (omega (arith, n, l, r.next_idx), sym k ∙ e)
      ]
    ]

    pub start-IsExact : Same os ledger s.world s'.world → IsExact os ledger s → IsExact os ledger s'
    start-IsExact same h = record {
      named = λ k i e. below k i h e;
      in_slot = λ fd o.
          let (i, l, e) = h.in_slot fd (sym (same fd) ∙ o) in
          (
            i,
            omega (arith, r.next_idx, l),
            elim (r.other_sockets i) [ inl z ↦ absurd (omega (arith, l, z)) | inr k ↦ k ∙ e ],
          );
      slot_open = λ i fd l e. let (m, c) = older i fd l e in same fd ∙ h.slot_open i fd m c;
      one_slot = λ i j fd l m e e'.
          let (l', c) = older i fd l e in
          let (m', c') = older j fd m e' in h.one_slot i j fd l' m' c c';
    }

  -- A start opens and closes no connection of a client.
  pub multisim_server_start-Same :
      (fuel : ℕ) (s : State os.World) (name : Bytes) (q : ℕ × State os.World)
      → multisim_server_start os fuel s name ≡ returned q
      → Same os ledger s.world q.1.world
  unfolding multisim_server_start register
  multisim_server_start-Same fuel s name q e x = elim (Bool-cases (ltb s.server_idx server_max)) [
    | inr full ↦ absurd (aborted-ne-returned (rw full at e))
    | inl room ↦
        let (u, fits, e1) = >>=-eq-returned (check_server_name name) _ (rw room at e) in
        let (m, built, e2) =
          >>=-eq-returned (SocketServer.construct s.server_name_set (codes ".multisim") name) _
            e1 in
        let (up, starts, e3) = >>=-eq-returned (SocketServer.start os fuel s.world m.0) _ e2 in
        let out : (success, register os s name m.1 up) ≡ q = returned-injective e3 in
        ap (λ (v : ℕ × State os.World). is_open v.1.world x) (sym out)
        ∙ start-same os ledger fuel s.world m.0 up starts x
  ]
