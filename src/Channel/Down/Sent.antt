-- ===== src/Channel/Down/Sent.antt =====
-- What a server's run of pushes puts on the stream.
use multisim.Base.{
  ℕ, ◌≡◌, sym, ◌∙◌, ap, refl, true, Bool, List, ◌++◌, map, All, Bytes, append_assoc, append-nil,
  arith, returned, some, none, ◌==◌, ==_iff,
}
use multisim.Os.{Os, Ret}
use multisim.SocketIo.Stream.{IsStream}
use multisim.Data.{Target}
use multisim.MultisimServer.Push.{
  PushOutcome, accepted, blocked, lost, multisim_server_push_core-PushOutcome,
}
use multisim.MultisimServer.{update}
use multisim.MultisimServer
use multisim.Channel.{Push, ServerHolds}
use multisim.Channel.Sent.{flat, IsPush, wire}
use multisim.Channel.Got.{server_kept}
use multisim.Channel.Down.{ServerPushes, push_end, accept, refuse, push_elsewhere}

module _ (os : Os) (stream : IsStream os) (t : Target) (name : Bytes) (width : ℕ)
    (is_4state : Bool) where
  -- What a push leaves: the channel as it was, with the message behind what was sent before where it
  -- gave success, and nothing behind it where it gave failure and kept the client.
  accepted_kept :
      (s s' : MultisimServer.State os.World) (i fd : ℕ) (msg : Bytes) (r : Ret × os.World)
      → ServerHolds os stream t name width is_4state i fd s
      → PushOutcome os stream msg s i fd r (1, s')
      → ServerHolds os stream t name width is_4state i fd s'
        × (stream.sent s'.world fd ≡ stream.sent s.world fd ++ msg)
  accepted_kept s s' i fd msg r h (accepted a b c) = (
    server_kept os stream t name width is_4state i fd s s' r.1 b h,
    ap (λ v. stream.sent v.world fd) b ∙ c,
  )
  accepted_kept s s' i fd msg r h (blocked a b c d) = absurd (omega arith)
  accepted_kept s s' i fd msg r h (lost k m n a b c d) = absurd (omega arith)

  refused_kept :
      (s s' : MultisimServer.State os.World) (i fd : ℕ) (msg : Bytes) (r : Ret × os.World)
      → ServerHolds os stream t name width is_4state i fd s
      → s'.sockets i ≡ some fd
      → PushOutcome os stream msg s i fd r (0, s')
      → ServerHolds os stream t name width is_4state i fd s'
        × (stream.sent s'.world fd ≡ stream.sent s.world fd)
  refused_kept s s' i fd msg r h k (accepted a b c) = absurd (omega arith)
  refused_kept s s' i fd msg r h k (blocked a b c d) = (
    server_kept os stream t name width is_4state i fd s s' r.1 c h,
    ap (λ v. stream.sent v.world fd) c ∙ d,
  )
  refused_kept s s' i fd msg r h k (lost j m n a b c d) =
      let self : (i == i) ≡ true = (==_iff i i).1 refl in
      let gone : s'.sockets i ≡ none = ap (λ v. v.sockets i) d ∙ rw self refl in absurd cc

  outcome :
      (i fd fuel : ℕ) (s : MultisimServer.State os.World) (p : Push)
      (q : ℕ × MultisimServer.State os.World)
      → ServerHolds os stream t name width is_4state i fd s
      → MultisimServer.multisim_server_push_core os fuel t s name p.array width is_4state p.stack
        ≡ returned q
      → (r : Ret × os.World) × PushOutcome os stream
          (wire os stream t name width is_4state p)
          s
          i
          fd
          r
          q
  outcome i fd fuel s p q h e =
      let (r, _, out) =
        multisim_server_push_core-PushOutcome os stream fuel t s name p.array width is_4state
          p.stack i fd q h.index h.socket e in
      (r, out)

  -- Pushes that succeed append their messages to the stream, and nothing else is put there.
  pub sent-ServerPushes :
      (i fd : ℕ) (s u : MultisimServer.State os.World) (ps : List Push)
      → ServerPushes os stream t name width is_4state i fd s ps u
      → ServerHolds os stream t name width is_4state i fd s
      → All (IsPush os stream t name width is_4state) ps
        × (stream.sent u.world fd
            ≡ stream.sent s.world fd ++ flat (map (wire os stream t name width is_4state) ps))
  sent-ServerPushes i fd s u ps push_end h = (tt, sym (append-nil _))
  sent-ServerPushes i fd s u ps (accept {s' = s'} {ps = rest} fuel p a b e run) h =
      let msg = wire os stream t name width is_4state in
      let (r, out) = outcome i fd fuel s p (1, s') h e in
      let (h', on) = accepted_kept s s' i fd (msg p) r h out in
      let (good, later) = sent-ServerPushes i fd s' u rest run h' in
      (
        (record { array_fits = a; stack_fits = b }, good),
        later
            ∙ ap (λ x. x ++ flat (map msg rest)) on
            ∙ append_assoc (stream.sent s.world fd) (msg p) (flat (map msg rest)),
      )
  sent-ServerPushes i fd s u ps (refuse {s' = s'} fuel p e kept run) h =
      let msg = wire os stream t name width is_4state in
      let (r, out) = outcome i fd fuel s p (0, s') h e in
      let (h', same) = refused_kept s s' i fd (msg p) r h kept out in
      let (good, later) = sent-ServerPushes i fd s' u ps run h' in
      (good, later ∙ ap (λ x. x ++ flat (map msg ps)) same)
  sent-ServerPushes i fd s u ps (push_elsewhere {s' = s'} h' same run) h =
      let msg = wire os stream t name width is_4state in
      let (good, later) = sent-ServerPushes i fd s' u ps run h' in
      (good, later ∙ ap (λ x. x ++ flat (map msg ps)) same)
