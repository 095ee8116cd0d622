-- ===== src/SwClient/Session.antt =====
-- Whole runs of `write_server` and `read_server` of sw_client.cpp
-- (example/sw_server/sw_client/read_write/src), as runs of the two channels.
use multisim.Base.{
  ℕ, ◌≡◌, ◌≢◌, ◌<◌, ◌^◌, refl, sym, subst, ap, List, [], ◌∷◌, codes, false, returned,
  returned-injective, >>=-eq-returned, arith, map,
}
use multisim.Os.{Os}
use multisim.SocketIo.Stream.{IsStream}
use multisim.SocketIo.Separate.{IsSeparate}
use multisim.Data.{sw, buf_words}
use multisim.Data.Message.{Fits}
use multisim.MultisimClient.{State, Pulled, multisim_client_push_core, multisim_client_pull_core}
use multisim.Channel.{Push, Pushes}
use multisim.Channel.Down.{ClientPulls}
use multisim.SwServer.{dword}
use multisim.SwClient.{Junk, command, exchange, write_server, read_server}
use multisim.SwClient.Exchange.{Ready, Exchange, exchange-Exchange}

-- The uninitialised arrays have their sizes, and hold words.
pub record IsJunk (junk : Junk) : Type 0 where
  pub cmd2_bound : junk.cmd2 < 2 ^ 64
  pub rsp_fits : Fits false 64 junk.rsp

-- The calls that returned: `wrote address wdata`, and `was_read address` with its result.
pub data Op : Type 0 where
  wrote was_read : ℕ → ℕ → Op

-- The arrays that were pushed and pulled for the calls, one of each for one call.
pub data Exchanged : List Op → List (List ℕ) → List (List ℕ) → Type 0 where
  exchanged_none : Exchanged [] [] []
  exchanged_write :
      {ops : List Op} {cmds rsps : List (List ℕ)} (address wdata : ℕ) (rsp : List ℕ)
      → address < 2 ^ 64
      → wdata < 2 ^ 64
      → Exchanged ops cmds rsps
      → Exchanged (wrote address wdata ∷ ops) (command 0 address wdata ∷ cmds) (rsp ∷ rsps)
  exchanged_read :
      {ops : List Op} {cmds rsps : List (List ℕ)} (address cmd2 : ℕ) (rsp : List ℕ)
      → address < 2 ^ 64
      → cmd2 < 2 ^ 64
      → Exchanged ops cmds rsps
      → Exchanged
          (was_read address (dword rsp 0) ∷ ops)
          (command 1 address cmd2 ∷ cmds)
          (rsp ∷ rsps)

pub command-Fits : (rwb address wdata : ℕ) → Fits false 192 (command rwb address wdata)
unfolding buf_words
command-Fits rwb address wdata = record {
  sized = refl;
  words =
      (omega arith, (omega arith, (omega arith, (omega arith, (omega arith, (omega arith, tt))))));
}

abbrev pub push_of : List ℕ → Push
push_of cmd = record { array = cmd; stack = 0 ∷ 0 ∷ 0 ∷ 0 ∷ 0 ∷ 0 ∷ [] }

zeros_fit : Fits false 192 (0 ∷ 0 ∷ 0 ∷ 0 ∷ 0 ∷ 0 ∷ [])
zeros_fit = command-Fits 0 0 0

rsp_zeros_fit : Fits false 64 (0 ∷ 0 ∷ [])
unfolding buf_words
rsp_zeros_fit = record { sized = refl; words = (omega arith, (omega arith, tt)) }

module _ (os : Os) (stream : IsStream os) (sep : IsSeparate os stream) (jc jr a b : ℕ)
    (ab : a ≢ b) where
  abbrev IsReady : State os.World → Type 0
  IsReady = Ready os stream sep jc jr a b ab

  -- A run of the calls, all of which return.
  pub data Session : State os.World → List Op → State os.World → Type 0 where
    session_end : {s : State os.World} → Session s [] s
    session_write :
        {s s1 s' : State os.World} {ops : List Op} (fuel : ℕ) (junk : Junk) (address wdata : ℕ)
        → IsJunk junk
        → address < 2 ^ 64
        → wdata < 2 ^ 64
        → write_server os fuel junk s address wdata ≡ returned s1
        → Session s1 ops s'
        → Session s (wrote address wdata ∷ ops) s'
    session_read :
        {s s1 s' : State os.World} {ops : List Op} (fuel : ℕ) (junk : Junk) (address v : ℕ)
        → IsJunk junk
        → address < 2 ^ 64
        → read_server os fuel junk s address ≡ returned (v, s1)
        → Session s1 ops s'
        → Session s (was_read address v ∷ ops) s'

  abbrev CmdPushes : State os.World → List Push → State os.World → Type 0
  CmdPushes = Pushes os stream sw (codes "rw_cmd") 192 false jc a

  abbrev RspPulls : State os.World → List (List ℕ) → State os.World → Type 0
  RspPulls = ClientPulls os stream sw (codes "rw_rsp") 64 false jr b

  -- The runs of the two channels behind a run of calls.
  pub record Asked (s : State os.World) (ops : List Op) (s' : State os.World) : Type 0 where
    pub cmds : List (List ℕ)
    pub rsps : List (List ℕ)
    pub pushes : CmdPushes s (map push_of cmds) s'
    pub pulls : RspPulls s rsps s'
    pub exchanged : Exchanged ops cmds rsps

  then-Asked :
      (fuel rwb address wdata : ℕ) (rsp : List ℕ) (s s' : State os.World) (p : Pulled os.World)
      (op : Op) (ops : List Op)
      → Fits false 64 rsp
      → Exchange os stream sep jc jr a b ab fuel rsp s (command rwb address wdata) p
      → ((cmds rsps : List (List ℕ))
          → Exchanged ops cmds rsps
          → Exchanged (op ∷ ops) (command rwb address wdata ∷ cmds) (p.array ∷ rsps))
      → Asked p.state ops s'
      → Asked s (op ∷ ops) s'
  unfolding multisim_client_push_core multisim_client_pull_core
  then-Asked fuel rwb address wdata rsp s s' p op ops fits x with_op later = record {
    cmds = command rwb address wdata ∷ later.cmds;
    rsps = p.array ∷ later.rsps;
    pushes =
        Pushes.accept fuel (push_of (command rwb address wdata)) (command-Fits rwb address wdata)
          zeros_fit x.pushes (Pushes.push_elsewhere x.ready.cmd_holds x.sent_same later.pushes);
    pulls =
        ClientPulls.pull_elsewhere x.ready_between.rsp_holds x.got_same
          (ClientPulls.deliver fuel rsp rsp p fits fits x.pulls x.status later.pulls);
    exchanged = with_op later.cmds later.rsps later.exchanged;
  }

  pub Session-Asked :
      (s s' : State os.World) (ops : List Op) → Session s ops s' → IsReady s → Asked s ops s'
  unfolding write_server read_server
  Session-Asked s s' ops session_end h = record {
    cmds = [];
    rsps = [];
    pushes = Pushes.push_end;
    pulls = ClientPulls.pull_end;
    exchanged = exchanged_none;
  }
  Session-Asked s s' ops
        (session_write {s1 = s1} {ops = rest} fuel junk address wdata j al wl e run) h =
      let (p, x, out) =
        >>=-eq-returned (exchange os fuel junk.rsp s (command 0 address wdata)) _ e in
      let ex =
        exchange-Exchange os stream sep jc jr a b ab fuel junk.rsp (command 0 address wdata)
          j.rsp_fits s p h x in
      let same : p.state ≡ s1 = returned-injective out in
      then-Asked fuel 0 address wdata junk.rsp s s' p (wrote address wdata) rest j.rsp_fits ex
        (λ cs rs k. exchanged_write address wdata p.array al wl k)
        (subst (λ v. Asked v rest s') (sym same)
          (Session-Asked s1 s' rest run (subst IsReady same ex.ready)))
  Session-Asked s s' ops (session_read {s1 = s1} {ops = rest} fuel junk address v j al e run) h =
      let (p, x, out) =
        >>=-eq-returned (exchange os fuel junk.rsp s (command 1 address junk.cmd2)) _ e in
      let ex =
        exchange-Exchange os stream sep jc jr a b ab fuel junk.rsp (command 1 address junk.cmd2)
          j.rsp_fits s p h x in
      let same = returned-injective out in
      let state : p.state ≡ s1 = ap (λ y. y.1) same in
      then-Asked fuel 1 address junk.cmd2 junk.rsp s s' p (was_read address v) rest j.rsp_fits ex
        (λ cs rs k.
          subst
            (λ u.
              Exchanged (was_read address u ∷ rest) (command 1 address junk.cmd2 ∷ cs)
                (p.array ∷ rs))
            (ap (λ y. y.0) same) (exchanged_read address junk.cmd2 p.array al j.cmd2_bound k))
        (subst (λ v. Asked v rest s') (sym state)
          (Session-Asked s1 s' rest run (subst IsReady state ex.ready)))
