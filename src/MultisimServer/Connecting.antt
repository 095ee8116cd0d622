-- ===== src/MultisimServer/Connecting.antt =====
-- A server process (src/core/multisim_server.cpp) puts a new connection into a free slot.
use native.Mathlib.Decide.{ℕ_discrete}
use mathlib.Core.Option.{some-ne-none}
use multisim.Base.{ℕ, ◌<◌, ◌≡◌, ◌≢◌, ◌⊎◌, ◌∙◌, sym, ap, true, false, Option, none, some, inl, inr}
use multisim.Os.{Os}
use multisim.SocketIo.Ledger.{IsLedger}
use multisim.SocketServer.{accept_new_socket}
use multisim.SocketServer.Ledger.{Opened, nothing_new, one_new, accept_new_socket-Opened}
use multisim.MultisimServer.{State, update, connect_client}
use multisim.MultisimServer.Start.{update_self, update_ne}
use multisim.MultisimServer.Ledger.{IsExact, Same}

module _ (os : Os) (ledger : IsLedger os) where
  open ledger use {is_open}

  -- The slot `j`, which is free, stays free.
  still_free-IsExact :
      (s : State os.World) (j : ℕ) (w : os.World) (o : Option ℕ)
      → IsExact os ledger s
      → s.sockets j ≡ none
      → o ≡ none
      → Same os ledger s.world w
      → IsExact os ledger (record s { world = w; sockets = update s.sockets j o })
  still_free-IsExact s j w o h free e same = record {
    named = h.named;
    in_slot = λ fd p. let (i, l, q) = h.in_slot fd (sym (same fd) ∙ p) in (i, l, unchanged i ∙ q);
    slot_open = λ i fd l p. same fd ∙ h.slot_open i fd l (sym (unchanged i) ∙ p);
    one_slot =
        λ i k fd l m p q. h.one_slot i k fd l m (sym (unchanged i) ∙ p) (sym (unchanged k) ∙ q);
  }
    where
      unchanged : (i : ℕ) → update s.sockets j o i ≡ s.sockets i
      unchanged i = elim (ℕ_discrete i j) [
        | yes here ↦
            ap (update s.sockets j o) here
            ∙ update_self s.sockets j o
            ∙ e
            ∙ sym free
            ∙ sym (ap s.sockets here)
        | no d ↦ update_ne s.sockets j i o d
      ]

  -- A new connection is put into the slot `j`, which is free.
  taken-IsExact :
      (s : State os.World) (j fd : ℕ) (w : os.World) (o : Option ℕ)
      → IsExact os ledger s
      → j < s.server_idx
      → s.sockets j ≡ none
      → o ≡ some fd
      → is_open s.world fd ≡ false
      → is_open w fd ≡ true
      → ((x : ℕ) → x ≢ fd → is_open w x ≡ is_open s.world x)
      → IsExact os ledger (record s { world = w; sockets = update s.sockets j o })
  taken-IsExact s j fd w o h low free e fresh opens other = record {
    named = h.named;
    in_slot = kept;
    slot_open = open';
    one_slot = one;
  }
    where
      old_slot : (i x : ℕ) → i < s.server_idx → s.sockets i ≡ some x → (i ≢ j) × (x ≢ fd)
      old_slot i x l p = (
        λ q. some-ne-none x (sym p ∙ ap s.sockets q ∙ free),
        λ q.
            let o' = h.slot_open i x l p in
            let both : is_open s.world x ≡ false = ap (is_open s.world) q ∙ fresh in absurd cc,
      )

      found :
          (i x : ℕ)
          → update s.sockets j o i ≡ some x
          → ((i ≡ j) × (x ≡ fd)) ⊎ (s.sockets i ≡ some x)
      found i x p = elim (ℕ_discrete i j) [
        | yes here ↦
            let v : some x ≡ some fd =
              sym p ∙ ap (update s.sockets j o) here ∙ update_self s.sockets j o ∙ e in
            inl (here, cc)
        | no d ↦ inr (sym (update_ne s.sockets j i o d) ∙ p)
      ]

      kept :
          (x : ℕ)
          → is_open w x ≡ true
          → (i : ℕ) × (i < s.server_idx) × (update s.sockets j o i ≡ some x)
      kept x p = elim (ℕ_discrete x fd) [
        | yes new ↦ (j, low, update_self s.sockets j o ∙ e ∙ ap some (sym new))
        | no d ↦
            let (i, l, q) = h.in_slot x (sym (other x d) ∙ p) in
            (i, l, update_ne s.sockets j i o (old_slot i x l q).0 ∙ q)
      ]

      open' : (i x : ℕ) → i < s.server_idx → update s.sockets j o i ≡ some x → is_open w x ≡ true
      open' i x l p = elim (found i x p) [
        | inl (here, new) ↦ ap (is_open w) new ∙ opens
        | inr q ↦ other x (old_slot i x l q).1 ∙ h.slot_open i x l q
      ]

      one :
          (i k x : ℕ)
          → i < s.server_idx
          → k < s.server_idx
          → update s.sockets j o i ≡ some x
          → update s.sockets j o k ≡ some x
          → i ≡ k
      one i k x l m p q = elim (found i x p) [
        | inl (here, new) ↦ elim (found k x q) [
          | inl (here', new') ↦ here ∙ sym here'
          | inr q' ↦ absurd ((old_slot k x m q').1 new)
        ]
        | inr p' ↦ elim (found k x q) [
          | inl (here', new') ↦ absurd ((old_slot i x l p').1 new')
          | inr q' ↦ h.one_slot i k x l m p' q'
        ]
      ]

  accepted-IsExact :
      (s : State os.World) (j : ℕ) (q : Option ℕ × os.World)
      → IsExact os ledger s
      → j < s.server_idx
      → s.sockets j ≡ none
      → Opened os ledger s.world q
      → IsExact os ledger (record s { world = q.1; sockets = update s.sockets j q.0 })
  accepted-IsExact s j q h low free (nothing_new e same) =
      still_free-IsExact s j q.1 q.0 h free e same
  accepted-IsExact s j q h low free (one_new fd e fresh opens other) =
      taken-IsExact s j fd q.1 q.0 h low free e fresh opens other

  -- The process behind `connect_client` has the client that it gives in the slot.
  pub record Connected (j : ℕ) (c : Option ℕ × State os.World) : Type 0 where
    pub exact : IsExact os ledger c.1
    pub low : j < c.1.server_idx
    pub here : c.1.sockets j ≡ c.0

  pub connect_client-Connected :
      (s : State os.World) (j : ℕ) (o : Option ℕ)
      → IsExact os ledger s
      → j < s.server_idx
      → s.sockets j ≡ o
      → Connected j (connect_client os s j o)
  unfolding connect_client
  connect_client-Connected s j (some fd) h low e = record { exact = h; low = low; here = e }
  connect_client-Connected s j none h low e = record {
    low = low;
    exact =
        accepted-IsExact s j (accept_new_socket os s.world (s.server j)) h low e
          (accept_new_socket-Opened os ledger s.world (s.server j));
    here = update_self s.sockets j _;
  }
