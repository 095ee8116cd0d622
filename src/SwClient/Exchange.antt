-- ===== src/SwClient/Exchange.antt =====
-- `write_server` and `read_server` of sw_client.cpp (example/sw_server/sw_client/read_write/src):
-- the push of a command and the pull of its response.
use multisim.Base.{
  ℕ, zero, suc, ◌≡◌, ◌≢◌, ◌∙◌, refl, sym, ap, true, List, [], Bytes, codes, false, Run, returned,
  returned-injective, >>=-eq-returned, aborted-ne-returned, arith, ◌>>=◌,
}
use multisim.Os.{Os}
use multisim.SocketIo.Stream.{IsStream}
use multisim.SocketIo.Separate.{IsSeparate}
use multisim.Names.{find}
use multisim.Data.{sw, message}
use multisim.Data.Message.{Fits}
use multisim.MultisimServer.{success}
use multisim.MultisimClient.{
  State, Pulled, multisim_client_push, multisim_client_pull, multisim_client_push_core,
  multisim_client_pull_core,
}
use multisim.MultisimClient.Frame.{
  multisim_client_push_core-Kept, multisim_client_push_core-open, multisim_client_pull_core-Kept,
  multisim_client_pull_core-open,
}
use multisim.MultisimClient.Transfer.{
  PushOutcome, accepted, refused, broken, multisim_client_push_core-PushOutcome, PullOutcome,
  delivered, nothing, ended, multisim_client_pull_core-PullOutcome,
}
use multisim.Channel.{ClientHolds}
use multisim.SwClient.{check, exchange}

module _ (os : Os) (stream : IsStream os) (sep : IsSeparate os stream) (jc jr a b : ℕ)
    (ab : a ≢ b) where
  open sep use {is_open}

  -- The channels of the process have the indices `jc` and `jr`, and are connected as `a` and `b`.
  pub record Ready (s : State os.World) : Type 0 where
    pub cmd_holds : ClientHolds os stream sw (codes "rw_cmd") 192 false jc a s
    pub rsp_holds : ClientHolds os stream sw (codes "rw_rsp") 64 false jr b s
    pub cmd_open : is_open s.world a ≡ true
    pub rsp_open : is_open s.world b ≡ true

  check-returned :
      (n : ℕ) (p p' : Pulled os.World)
      → (check os n >>= λ u. returned p) ≡ returned p'
      → (k : ℕ) × (n ≡ suc k) × (p ≡ p')
  check-returned zero p p' e = absurd (aborted-ne-returned e)
  check-returned (suc k) p p' e = (k, refl, returned-injective e)

  check-then :
      (n : ℕ) (m : Run (Pulled os.World)) (p : Pulled os.World)
      → (check os n >>= λ u. m) ≡ returned p
      → (k : ℕ) × (n ≡ suc k) × (m ≡ returned p)
  check-then zero m p e = absurd (aborted-ne-returned e)
  check-then (suc k) m p e = (k, refl, e)

  -- A push and a pull that both gave success.
  pub record Exchange (fuel : ℕ) (rsp : List ℕ) (s : State os.World) (cmd : List ℕ)
      (p : Pulled os.World) : Type 0 where
    pub middle : State os.World
    pub pushes :
        multisim_client_push_core os fuel sw s (codes "rw_cmd") cmd 192 false []
        ≡ returned (success, middle)
    pub pulls :
        multisim_client_pull_core os fuel sw middle (codes "rw_rsp") rsp 64 false [] ≡ returned p
    pub status : p.status ≡ success
    pub ready_between : Ready middle
    pub ready : Ready p.state
    pub got_same : stream.got middle.world b ≡ stream.got s.world b
    pub sent_same : stream.sent p.state.world a ≡ stream.sent middle.world a

  same_but_world :
      (s s' : State os.World)
      → s' ≡ record s { world = s'.world }
      → Ready s
      → is_open s'.world a ≡ true
      → is_open s'.world b ≡ true
      → Ready s'
  same_but_world s s' e h oa ob =
      let index = λ (name : Bytes). ap (λ v. find name v.server_name_to_idx) e in
      let socket = λ (i : ℕ). ap (λ v. v.sockets i) e in
      record {
        cmd_holds = record {
          index = index (codes "rw_cmd") ∙ h.cmd_holds.index;
          socket = socket jc ∙ h.cmd_holds.socket;
        };
        rsp_holds = record {
          index = index (codes "rw_rsp") ∙ h.rsp_holds.index;
          socket = socket jr ∙ h.rsp_holds.socket;
        };
        cmd_open = oa;
        rsp_open = ob;
      }

  -- A push that does not give 0 gives success.
  push-success :
      (s s' : State os.World) (msg : Bytes) (fd k : ℕ)
      → PushOutcome os stream msg s fd (suc k, s')
      → (k ≡ 0) × (s' ≡ record s { world = s'.world })
  push-success s s' msg fd k (accepted st e g) = (omega arith, e)
  push-success s s' msg fd k (refused st e g) = absurd (omega arith)
  push-success s s' msg fd k (broken n m st e g) = absurd (omega arith)

  pull-success :
      (s : State os.World) (width fd k : ℕ) (mem : List ℕ) (p : Pulled os.World)
      → p.status ≡ suc k
      → PullOutcome os stream sw false width mem s fd p
      → (p.status ≡ success) × (p.state ≡ record s { world = p.state.world })
  pull-success s width fd k mem p h (delivered t l st e g arr) = (st, e)
  pull-success s width fd k mem p h (nothing st e g arr) = absurd (omega arith)
  pull-success s width fd k mem p h (ended t m st e g) = absurd (omega arith)

  module _ (fuel : ℕ) (rsp cmd : List ℕ) (rsp_fits : Fits false 64 rsp) where
    pushed :
        (s s' : State os.World) (k : ℕ)
        → Ready s
        → multisim_client_push_core os fuel sw s (codes "rw_cmd") cmd 192 false []
          ≡ returned (suc k, s')
        → (k ≡ 0) × Ready s' × (stream.got s'.world b ≡ stream.got s.world b)
    pushed s s' k h e =
        let (one, state) = push-success s s' (message sw false 192 cmd []) (s.sockets jc) k (
          multisim_client_push_core-PushOutcome os stream fuel sw s (codes "rw_cmd") cmd 192 false
            [] jc (suc k, s') h.cmd_holds.index e) in
        let kept =
          multisim_client_push_core-Kept os stream sep fuel sw s (codes "rw_cmd") cmd 192 false []
            jc b (suc k, s') h.cmd_holds.index h.rsp_open (λ q. ab (sym h.cmd_holds.socket ∙ q))
            e in
        let open_a =
          multisim_client_push_core-open os stream sep fuel sw s (codes "rw_cmd") cmd 192 false []
            jc (suc k, s') h.cmd_holds.index (ap (is_open s.world) h.cmd_holds.socket ∙ h.cmd_open)
            e in
        (
          one,
          same_but_world s s' state h (ap (is_open s'.world) (sym h.cmd_holds.socket) ∙ open_a)
              kept.still_open,
          kept.got_same,
        )

    pulled_in :
        (s : State os.World) (k : ℕ) (p : Pulled os.World)
        → Ready s
        → p.status ≡ suc k
        → multisim_client_pull_core os fuel sw s (codes "rw_rsp") rsp 64 false [] ≡ returned p
        → (p.status ≡ success)
          × Ready p.state
          × (stream.sent p.state.world a ≡ stream.sent s.world a)
    unfolding multisim_client_pull_core
    pulled_in s k p h st e =
        let (one, state) = pull-success s 64 (s.sockets jr) k rsp p st (
          multisim_client_pull_core-PullOutcome os stream fuel sw s (codes "rw_rsp") rsp 64 false
            rsp jr p rsp_fits rsp_fits h.rsp_holds.index e) in
        let kept =
          multisim_client_pull_core-Kept os stream sep fuel sw s (codes "rw_rsp") rsp 64 false [] jr
            a p h.rsp_holds.index h.cmd_open (λ q. ab (sym q ∙ h.rsp_holds.socket)) e in
        let open_b =
          multisim_client_pull_core-open os stream sep fuel sw s (codes "rw_rsp") rsp 64 false [] jr
            p h.rsp_holds.index (ap (is_open s.world) h.rsp_holds.socket ∙ h.rsp_open) e in
        (
          one,
          same_but_world s p.state state h kept.still_open
              (ap (is_open p.state.world) (sym h.rsp_holds.socket) ∙ open_b),
          kept.sent_same,
        )

    pub exchange-Exchange :
        (s : State os.World) (p : Pulled os.World)
        → Ready s
        → exchange os fuel rsp s cmd ≡ returned p
        → Exchange fuel rsp s cmd p
    unfolding exchange multisim_client_push multisim_client_pull
    exchange-Exchange s p h e =
        let (q, pushes, e1) =
          >>=-eq-returned (multisim_client_push_core os fuel sw s (codes "rw_cmd") cmd 192 false [])
            _ e in
        let (k, some_pushed, e2) = check-then q.0 _ p e1 in
        let (p', pulls, e3) =
          >>=-eq-returned
            (multisim_client_pull_core os fuel sw q.1 (codes "rw_rsp") rsp 64 false []) _ e2 in
        let (m, some_pulled, same) = check-returned p'.status p' p e3 in
        let (one, between, got) =
          pushed s q.1 k h (pushes ∙ ap (λ n. returned (n, q.1)) some_pushed) in
        let pulls' = pulls ∙ ap returned same in
        let (st, ready, sent) =
          pulled_in q.1 m p between (ap (λ v. v.status) (sym same) ∙ some_pulled) pulls' in
        record {
          middle = q.1;
          pushes = pushes ∙ ap (λ n. returned (n, q.1)) (some_pushed ∙ ap suc one);
          pulls = pulls';
          status = st;
          ready_between = between;
          ready = ready;
          got_same = got;
          sent_same = sent;
        }
