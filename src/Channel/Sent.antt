-- ===== src/Channel/Sent.antt =====
-- What a run of pushes puts on the stream.
use multisim.Base.{
  ℕ, zero, suc, ◌≡◌, sym, subst, length, take, length-take, ◌∙◌, ap, Bool, List, [], ◌∷◌, ◌++◌, map,
  All, Bytes, append_assoc, append-nil, arith, returned,
}
use multisim.Os.{Os}
use multisim.SocketIo.Stream.{IsStream}
use multisim.Names.{find}
use multisim.Data.{Target, message}
use multisim.Data.Message.{Fits}
use multisim.MultisimClient.Transfer.{
  PushOutcome, accepted, refused, broken, multisim_client_push_core-PushOutcome,
}
use multisim.MultisimClient
use multisim.Channel.{BrokeOff, Push, ClientHolds, Pushes, push_end, accept, refuse, push_elsewhere}

-- The messages one behind the other.
abbrev pub flat : List Bytes → Bytes
flat [] = []
flat (m ∷ ms) = m ++ flat ms

module _ (os : Os) (stream : IsStream os) (t : Target) (name : Bytes) (width : ℕ)
    (is_4state : Bool) where
  pub record IsPush (p : Push) : Type 0 where
    pub array_fits : Fits is_4state width p.array
    pub stack_fits : Fits is_4state width p.stack

  abbrev pub wire : Push → Bytes
  wire p = message t is_4state width p.array p.stack

  pub client_kept :
      (i fd : ℕ) (s s' : MultisimClient.State os.World)
      → s' ≡ record s { world = s'.world }
      → ClientHolds os stream t name width is_4state i fd s
      → ClientHolds os stream t name width is_4state i fd s'
  client_kept i fd s s' e h = record {
    index = ap (λ v. find name v.server_name_to_idx) e ∙ h.index;
    socket = ap (λ v. v.sockets i) e ∙ h.socket;
  }

  -- A push that gives success appends its message, and one that gives failure changes no socket.
  accepted_sent :
      (s s' : MultisimClient.State os.World) (i fd : ℕ) (msg : Bytes)
      → PushOutcome os stream msg s fd (1, s')
      → (s' ≡ record s { world = s'.world })
        × (stream.sent s'.world fd ≡ stream.sent s.world fd ++ msg)
  accepted_sent s s' i fd msg (accepted a b c) = (b, c)
  accepted_sent s s' i fd msg (refused a b c) = absurd (omega arith)
  accepted_sent s s' i fd msg (broken k l a b c) = absurd (omega arith)

  failed_kept :
      (s s' : MultisimClient.State os.World) (i fd st : ℕ) (msg : Bytes)
      → PushOutcome os stream msg s fd (st, s')
      → s' ≡ record s { world = s'.world }
  failed_kept s s' i fd st msg (accepted a b c) = b
  failed_kept s s' i fd st msg (refused a b c) = b
  failed_kept s s' i fd st msg (broken k l a b c) = b

  -- A push that failed and did not break off inside its message has sent nothing.
  failed_sent :
      (s s' : MultisimClient.State os.World) (i fd : ℕ) (msg : Bytes)
      → ¬ BrokeOff (length msg) (stream.sent s.world fd) (stream.sent s'.world fd)
      → PushOutcome os stream msg s fd (0, s')
      → stream.sent s'.world fd ≡ stream.sent s.world fd
  failed_sent s s' i fd msg whole (accepted a b c) = absurd (omega arith)
  failed_sent s s' i fd msg whole (refused a b c) = c
  failed_sent s s' i fd msg whole (broken zero l a b c) = c ∙ append-nil _
  failed_sent s s' i fd msg whole (broken (suc k) l a b c) =
      let n = length-take (suc k) msg in
      absurd (whole (take (suc k) msg, omega (arith, l), omega (arith, l), c))

  outcome :
      (i fd fuel : ℕ) (s : MultisimClient.State os.World) (p : Push)
      (q : ℕ × MultisimClient.State os.World)
      → ClientHolds os stream t name width is_4state i fd s
      → MultisimClient.multisim_client_push_core os fuel t s name p.array width is_4state p.stack
        ≡ returned q
      → PushOutcome os stream (wire p) s fd q
  outcome i fd fuel s p q h e =
      subst (λ f. PushOutcome os stream (wire p) s f q) h.socket
        (multisim_client_push_core-PushOutcome os stream fuel t s name p.array width is_4state
          p.stack i q h.index e)

  -- Pushes that succeed append their messages to the stream.
  pub sent-Pushes :
      (i fd : ℕ) (s u : MultisimClient.State os.World) (ps : List Push)
      → Pushes os stream t name width is_4state i fd s ps u
      → ClientHolds os stream t name width is_4state i fd s
      → All IsPush ps × (stream.sent u.world fd ≡ stream.sent s.world fd ++ flat (map wire ps))
  sent-Pushes i fd s u ps push_end h = (tt, sym (append-nil _))
  sent-Pushes i fd s u ps (accept {s' = s'} {ps = rest} fuel p a b e run) h =
      let (same, on) = accepted_sent s s' i fd (wire p) (outcome i fd fuel s p (1, s') h e) in
      let (good, later) = sent-Pushes i fd s' u rest run (client_kept i fd s s' same h) in
      (
        (record { array_fits = a; stack_fits = b }, good),
        later
            ∙ ap (λ x. x ++ flat (map wire rest)) on
            ∙ append_assoc (stream.sent s.world fd) (wire p) (flat (map wire rest)),
      )
  sent-Pushes i fd s u ps (refuse {s' = s'} fuel p e whole run) h =
      let out = outcome i fd fuel s p (0, s') h e in
      let kept = failed_kept s s' i fd 0 (wire p) out in
      let same = failed_sent s s' i fd (wire p) whole out in
      let (good, later) = sent-Pushes i fd s' u ps run (client_kept i fd s s' kept h) in
      (good, later ∙ ap (λ x. x ++ flat (map wire ps)) same)
  sent-Pushes i fd s u ps (push_elsewhere {s' = s'} h' same run) h =
      let (good, later) = sent-Pushes i fd s' u ps run h' in
      (good, later ∙ ap (λ x. x ++ flat (map wire ps)) same)
