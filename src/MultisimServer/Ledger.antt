-- ===== src/MultisimServer/Ledger.antt =====
-- The sockets of a server process (src/core/multisim_server.cpp) are its open connections.
use native.Mathlib.Decide.{ℕ_discrete}
use mathlib.Core.Option.{some-ne-none}
use multisim.Base.{ℕ, ◌<◌, Bytes, ◌≡◌, ◌≢◌, ◌∙◌, sym, ap, true, Option, none, some}
use multisim.Os.{Os}
use multisim.SocketIo.Ledger.{IsLedger}
use multisim.Names.{find}
use multisim.MultisimServer.{State, update, drop_client}
use multisim.MultisimServer.Start.{update_self, update_ne}

module _ (os : Os) (ledger : IsLedger os) where
  open ledger use {is_open}

  -- Every name has an index below `server_idx`. Of the slots of these servers: every open connection is
  -- in one, each that is taken has an open connection, and no two have the same one. The slots behind
  -- them hold the zeros that they started with, and are not read.
  pub record IsExact (s : State os.World) : Type 0 where
    pub named : (name : Bytes) (i : ℕ) → find name s.server_name_to_idx ≡ some i → i < s.server_idx
    pub in_slot :
        (fd : ℕ)
        → is_open s.world fd ≡ true
        → (i : ℕ) × (i < s.server_idx) × (s.sockets i ≡ some fd)
    pub slot_open :
        (i fd : ℕ) → i < s.server_idx → s.sockets i ≡ some fd → is_open s.world fd ≡ true
    pub one_slot :
        (i j fd : ℕ)
        → i < s.server_idx
        → j < s.server_idx
        → s.sockets i ≡ some fd
        → s.sockets j ≡ some fd
        → i ≡ j

  abbrev pub Same : os.World → os.World → Type 0
  Same w w' = (x : ℕ) → is_open w' x ≡ is_open w x

  pub world-IsExact :
      (s : State os.World) (w : os.World)
      → Same s.world w
      → IsExact s
      → IsExact (record s { world = w })
  world-IsExact s w same h = record {
    named = h.named;
    in_slot = λ fd o. h.in_slot fd (sym (same fd) ∙ o);
    slot_open = λ i fd l e. same fd ∙ h.slot_open i fd l e;
    one_slot = h.one_slot;
  }

  -- The slot `j` is freed, and its connection closed.
  pub drop_client-IsExact :
      (s : State os.World) (w : os.World) (j fd : ℕ)
      → Same s.world w
      → IsExact s
      → j < s.server_idx
      → s.sockets j ≡ some fd
      → IsExact (drop_client os s w j fd)
  unfolding drop_client
  drop_client-IsExact s w j fd same h low c = record {
    named = h.named;
    in_slot = kept;
    slot_open = opens;
    one_slot = one;
  }
    where
      freed : ℕ → Option ℕ
      freed = update s.sockets j none

      elsewhere : (i x : ℕ) → update s.sockets j none i ≡ some x → (i ≢ j) × (s.sockets i ≡ some x)
      elsewhere i x e = elim (ℕ_discrete i j) [
        | yes here ↦ absurd (
            some-ne-none x
              (sym e ∙ ap (update s.sockets j none) here ∙ update_self s.sockets j none))
        | no d ↦ (d, sym (update_ne s.sockets j i none d) ∙ e)
      ]

      kept :
          (x : ℕ)
          → is_open (os.close w fd) x ≡ true
          → (i : ℕ) × (i < s.server_idx) × (update s.sockets j none i ≡ some x)
      kept x o = elim (ℕ_discrete x fd) [
        | yes same_fd ↦
            let gone = ledger.close_gone w fd in
            let o' : is_open (os.close w fd) fd ≡ true =
              ap (is_open (os.close w fd)) (sym same_fd) ∙ o in
            absurd cc
        | no d ↦
            let (i, l, e) = h.in_slot x (sym (same x) ∙ sym (ledger.close_other w fd x d) ∙ o) in
            let other : i ≢ j =
              λ q. let p : some x ≡ some fd = sym e ∙ ap s.sockets q ∙ c in d cc in
            (i, l, update_ne s.sockets j i none other ∙ e)
      ]

      opens :
          (i x : ℕ)
          → i < s.server_idx
          → update s.sockets j none i ≡ some x
          → is_open (os.close w fd) x ≡ true
      opens i x l e =
          let (d, e') = elsewhere i x e in
          let other : x ≢ fd = λ q. d (h.one_slot i j fd l low (e' ∙ ap some q) c) in
          ledger.close_other w fd x other ∙ same x ∙ h.slot_open i x l e'

      one :
          (i k x : ℕ)
          → i < s.server_idx
          → k < s.server_idx
          → update s.sockets j none i ≡ some x
          → update s.sockets j none k ≡ some x
          → i ≡ k
      one i k x l m e e' = h.one_slot i k x l m (elsewhere i x e).1 (elsewhere k x e').1
