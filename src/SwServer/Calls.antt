-- ===== src/SwServer/Calls.antt =====
-- The calls of a round of sw_server.cpp (example/sw_server/sw_client/read_write/src) and the
-- connections of its channels.
use multisim.Base.{
  ℕ, suc, ◌≡◌, ◌≢◌, ◌∙◌, ◌⊎◌, inl, inr, refl, sym, ap, true, List, [], Bytes, codes, some, none,
  false, returned, arith, ◌==◌, ==_iff,
}
use multisim.Os.{Os, Ret}
use multisim.SocketIo.Stream.{IsStream}
use multisim.SocketIo.Separate.{IsSeparate}
use multisim.Data.{sw, message}
use multisim.Data.Message.{Fits}
use multisim.MultisimServer.{State, Pulled, multisim_server_pull_core, multisim_server_push_core}
use multisim.MultisimServer.Frame.{
  multisim_server_pull_core-Apart, multisim_server_push_core-Apart, send_msg-open, read_msg-open,
}
use multisim.MultisimServer.Pull.{
  PullOutcome, delivered, nothing, lost, multisim_server_pull_core-PullOutcome,
}
use multisim.MultisimServer.Push.{
  PushOutcome, accepted, blocked, lost as push_lost, multisim_server_push_core-PushOutcome,
}
use multisim.SwServer.Ready.{Ready, Different, exit-Ready, cmd-Ready, rsp-Ready}

some-injective : {x y : ℕ} → some x ≡ some y → x ≡ y
some-injective e = cc

module _ (os : Os) (stream : IsStream os) (sep : IsSeparate os stream) (ie ic ir a b : ℕ)
    (d : Different os stream sep ie ic ir a b) where
  open sep use {is_open}

  abbrev IsReady : State os.World → Type 0
  IsReady = Ready os stream sep ie ic ir a b

  -- What a pull of a command that does not lose the client leaves open, and its status.
  cmd_kept :
      (s : State os.World) (mem : List ℕ) (r : Ret × Bytes × os.World) (p : Pulled os.World)
      → s.sockets ic ≡ some a
      → (p.state.sockets ic ≡ some a) ⊎ (p.status ≢ 0)
      → is_open r.2 a ≡ true
      → PullOutcome os stream sw false 192 mem s ic a r p
      → (p.state.sockets ic ≡ some a)
        × (is_open p.state.world a ≡ true)
        × ((p.status ≡ 0) ⊎ (p.status ≡ 1))
  cmd_kept s mem r p h c o (delivered bs w st e g arr) =
      (ap (λ v. v.sockets ic) e ∙ h, ap (λ v. is_open v.world a) e ∙ o, inr st)
  cmd_kept s mem r p h c o (nothing er f st e g arr) =
      (ap (λ v. v.sockets ic) e ∙ h, ap (λ v. is_open v.world a) e ∙ o, inl st)
  cmd_kept s mem r p h (inl c) o (lost f st e) =
      let self : (ic == ic) ≡ true = (==_iff ic ic).1 refl in
      let gone : p.state.sockets ic ≡ none = ap (λ v. v.sockets ic) e ∙ rw self refl in absurd cc
  cmd_kept s mem r p h (inr c) o (lost f st e) = absurd (c st)

  pub pull_cmd :
      (fuel : ℕ) (s : State os.World) (mem : List ℕ) (p : Pulled os.World)
      → Fits false 192 mem
      → IsReady s
      → multisim_server_pull_core os fuel sw s (codes "rw_cmd") mem 192 false [] ≡ returned p
      → (p.state.sockets ic ≡ some a) ⊎ (p.status ≢ 0)
      → IsReady p.state
        × (stream.sent p.state.world b ≡ stream.sent s.world b)
        × ((p.status ≡ 0) ⊎ (p.status ≡ 1))
  unfolding multisim_server_pull_core
  pull_cmd fuel s mem p m h e c =
      let apart =
        multisim_server_pull_core-Apart os stream sep b ic fuel sw s (codes "rw_cmd") mem 192 false
          [] p h.cmd_index h.rsp_open (λ q. d.ab (some-injective (sym h.cmd_socket ∙ q))) e in
      let (r, reads, out) =
        multisim_server_pull_core-PullOutcome os stream fuel sw s (codes "rw_cmd") mem 192 false mem
          ic a p m m h.cmd_index h.cmd_socket e in
      let (cmd, open_a, st) =
        cmd_kept s mem r p h.cmd_socket c
          (read_msg-open os stream sep fuel s.world a _ _ r h.cmd_open reads) out in
      (
        cmd-Ready os stream sep ie ic ir a b d s p.state h apart cmd open_a,
        apart.kept.sent_same,
        st,
      )

  -- A push of a response that gives success.
  rsp_kept :
      (s : State os.World) (msg : Bytes) (r : Ret × os.World) (k : ℕ) (s' : State os.World)
      → is_open r.1 b ≡ true
      → s.sockets ir ≡ some b
      → PushOutcome os stream msg s ir b r (suc k, s')
      → (is_open s'.world b ≡ true) × (s'.sockets ir ≡ some b) × (k ≡ 0)
  rsp_kept s msg r k s' o c (accepted st e g) =
      (ap (λ v. is_open v.world b) e ∙ o, ap (λ v. v.sockets ir) e ∙ c, omega arith)
  rsp_kept s msg r k s' o c (blocked f st e g) = absurd (omega arith)
  rsp_kept s msg r k s' o c (push_lost n m g f f' st e) = absurd (omega arith)

  pub push_rsp :
      (fuel : ℕ) (s : State os.World) (mem : List ℕ) (k : ℕ) (s' : State os.World)
      → IsReady s
      → multisim_server_push_core os fuel sw s (codes "rw_rsp") mem 64 false []
        ≡ returned (suc k, s')
      → IsReady s' × (stream.got s'.world a ≡ stream.got s.world a) × (k ≡ 0)
  push_rsp fuel s mem k s' h e =
      let apart =
        multisim_server_push_core-Apart os stream sep a ir fuel sw s (codes "rw_rsp") mem 64 false
          [] (suc k, s') h.rsp_index h.cmd_open (λ q. d.ab (some-injective (sym q ∙ h.rsp_socket)))
          e in
      let (r, sends, out) =
        multisim_server_push_core-PushOutcome os stream fuel sw s (codes "rw_rsp") mem 64 false []
          ir b (suc k, s') h.rsp_index h.rsp_socket e in
      let (open_b, c, one) =
        rsp_kept s (message sw false 64 mem []) r k s'
          (send_msg-open os stream sep fuel s.world b _ r h.rsp_open sends) h.rsp_socket out in
      (rsp-Ready os stream sep ie ic ir a b d s s' h apart c open_b, apart.kept.got_same, one)

  pub pull_exit :
      (fuel : ℕ) (s : State os.World) (mem : List ℕ) (p : Pulled os.World)
      → IsReady s
      → multisim_server_pull_core os fuel sw s (codes "exit") mem 1 false [] ≡ returned p
      → IsReady p.state
        × (stream.got p.state.world a ≡ stream.got s.world a)
        × (stream.sent p.state.world b ≡ stream.sent s.world b)
  pull_exit fuel s mem p h e =
      let x =
        multisim_server_pull_core-Apart os stream sep a ie fuel sw s (codes "exit") mem 1 false [] p
          h.exit_index h.cmd_open h.exit_not_cmd e in
      let y =
        multisim_server_pull_core-Apart os stream sep b ie fuel sw s (codes "exit") mem 1 false [] p
          h.exit_index h.rsp_open h.exit_not_rsp e in
      (exit-Ready os stream sep ie ic ir a b d s p.state h x y, x.kept.got_same, y.kept.sent_same)
