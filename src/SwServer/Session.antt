-- ===== src/SwServer/Session.antt =====
-- Whole runs of the loop of sw_server.cpp (example/sw_server/sw_client/read_write/src), as runs of
-- the two channels.
use multisim.Base.{
  ℕ, ◌≡◌, ◌≢◌, ◌∙◌, inl, inr, refl, sym, subst, ap, List, [], ◌∷◌, codes, some, false, returned,
  arith,
}
use multisim.Os.{Os}
use multisim.SocketIo.Stream.{IsStream}
use multisim.SocketIo.Separate.{IsSeparate}
use multisim.Data.{sw, buf_words}
use multisim.Data.Message.{Fits}
use multisim.MultisimServer.{State, Pulled, multisim_server_pull_core, multisim_server_push_core}
use multisim.Channel.{Push, ServerHolds, Pulls}
use multisim.Channel.Down.{ServerPushes}
use multisim.SwServer.{Junk, next, words, process, turn}
use multisim.SwServer.Ready.{Ready, Different}
use multisim.SwServer.Round.{Answered, turn-Round}
use multisim.SwServer.Calls.{pull_cmd, push_rsp, pull_exit}

-- The arrays that are not initialised have their sizes, and hold words.
pub record IsJunk (junk : Junk) : Type 0 where
  pub exit_fits : Fits false 1 junk.exit_data
  pub cmd_fits : Fits false 192 junk.rw_cmd

-- The memory behind a list of commands, and their responses.
abbrev pub memory_after : (ℕ → ℕ) → List (List ℕ) → ℕ → ℕ
memory_after mem [] = mem
memory_after mem (c ∷ cs) = memory_after (process mem c).1 cs

abbrev pub responses : (ℕ → ℕ) → List (List ℕ) → List Push
responses mem [] = []
responses mem (c ∷ cs) =
    record { array = words (process mem c).0; stack = 0 ∷ 0 ∷ [] } ∷ responses (process mem c).1 cs

words_fit : (v : ℕ) → Fits false 64 (words v)
unfolding buf_words
words_fit v = record { sized = refl; words = (omega arith, (omega arith, tt)) }

zeros_fit : Fits false 64 (0 ∷ 0 ∷ [])
unfolding buf_words
zeros_fit = record { sized = refl; words = (omega arith, (omega arith, tt)) }

module _ (os : Os) (stream : IsStream os) (sep : IsSeparate os stream) (ie ic ir a b : ℕ)
    (d : Different os stream sep ie ic ir a b) where
  open sep use {is_open}

  -- A run of the loop, with any number of rounds, in none of which the connection of the commands is
  -- lost.
  pub data Session : (ℕ → ℕ) → State os.World → (ℕ → ℕ) → State os.World → Type 0 where
    session_end : {mem : ℕ → ℕ} {s : State os.World} → Session mem s mem s
    session_turn :
        {mem mem1 mem' : ℕ → ℕ} {s s1 s' : State os.World} (fuel : ℕ) (junk : Junk)
        → IsJunk junk
        → turn os fuel junk mem s ≡ returned (next mem1 s1)
        → s1.sockets ic ≡ some a
        → Session mem1 s1 mem' s'
        → Session mem s mem' s'

  abbrev IsReady : State os.World → Type 0
  IsReady = Ready os stream sep ie ic ir a b

  holds_cmd :
      (s : State os.World) → IsReady s → ServerHolds os stream sw (codes "rw_cmd") 192 false ic a s
  holds_cmd s h = record { index = h.cmd_index; socket = h.cmd_socket }

  holds_rsp :
      (s : State os.World) → IsReady s → ServerHolds os stream sw (codes "rw_rsp") 64 false ir b s
  holds_rsp s h = record { index = h.rsp_index; socket = h.rsp_socket }

  abbrev pub CmdPulls : State os.World → List (List ℕ) → State os.World → Type 0
  CmdPulls = Pulls os stream sw (codes "rw_cmd") 192 false ic a

  abbrev pub RspPushes : State os.World → List Push → State os.World → Type 0
  RspPushes = ServerPushes os stream sw (codes "rw_rsp") 64 false ir b

  -- The commands that a run has handled: they were pulled in this order, their responses were pushed in
  -- this order, and the memory is what they make of it.
  pub record Processed (mem : ℕ → ℕ) (s : State os.World) (mem' : ℕ → ℕ) (s' : State os.World)
      : Type 0 where
    pub commands : List (List ℕ)
    pub pulls : CmdPulls s commands s'
    pub pushes : RspPushes s (responses mem commands) s'
    pub memory : mem' ≡ memory_after mem commands

  Idle-Processed :
      (fuel : ℕ) (junk : Junk) (mem mem' : ℕ → ℕ) (s x s' : State os.World) (p : Pulled os.World)
      → Fits false 192 junk.rw_cmd
      → IsReady x
      → stream.got x.world a ≡ stream.got s.world a
      → stream.sent x.world b ≡ stream.sent s.world b
      → multisim_server_pull_core os fuel sw x (codes "rw_cmd") junk.rw_cmd 192 false []
        ≡ returned p
      → p.status ≡ 0
      → p.state.sockets ic ≡ some a
      → (IsReady p.state → Processed mem p.state mem' s')
      → Processed mem s mem' s'
  unfolding multisim_server_pull_core
  Idle-Processed fuel junk mem mem' s x s' p m hx gx sx cmds none_there still later =
      let (ready, sent, _) =
        pull_cmd os stream sep ie ic ir a b d fuel x junk.rw_cmd p m hx cmds (inl still) in
      let v = later ready in
      record {
        commands = v.commands;
        pulls =
            Pulls.pull_elsewhere (holds_cmd x hx) gx
              (Pulls.wait fuel junk.rw_cmd junk.rw_cmd p m m cmds none_there still v.pulls);
        pushes = ServerPushes.push_elsewhere (holds_rsp p.state ready) (sent ∙ sx) v.pushes;
        memory = v.memory;
      }

  Answered-Processed :
      (fuel : ℕ) (junk : Junk) (mem mem1 mem' : ℕ → ℕ) (s x s1 s' : State os.World)
      (p : Pulled os.World)
      → Fits false 192 junk.rw_cmd
      → IsReady x
      → stream.got x.world a ≡ stream.got s.world a
      → stream.sent x.world b ≡ stream.sent s.world b
      → multisim_server_pull_core os fuel sw x (codes "rw_cmd") junk.rw_cmd 192 false []
        ≡ returned p
      → Answered os fuel mem mem1 p s1
      → (IsReady s1 → Processed (process mem p.array).1 s1 mem' s')
      → Processed mem s mem' s'
  unfolding multisim_server_pull_core multisim_server_push_core
  Answered-Processed fuel junk mem mem1 mem' s x s1 s' p m hx gx sx cmds v later =
      let done : p.status ≢ 0 = λ e. absurd (omega (arith, v.some_command)) in
      let (ready, sent, st) =
        pull_cmd os stream sep ie ic ir a b d fuel x junk.rw_cmd p m hx cmds (inr done) in
      let rsp = words (process mem p.array).0 in
      let (ready1, got, one) =
        push_rsp os stream sep ie ic ir a b d fuel p.state rsp v.pushes s1 ready v.response in
      let success : p.status ≡ 1 = elim st [ inl z ↦ absurd (done z) | inr o ↦ o ] in
      let pushed = rw one at v.response in
      let u = later ready1 in
      record {
        commands = p.array ∷ u.commands;
        pulls = Pulls.pull_elsewhere (holds_cmd x hx) gx (
            Pulls.deliver fuel junk.rw_cmd junk.rw_cmd p m m cmds success
              (Pulls.pull_elsewhere (holds_cmd s1 ready1) got u.pulls));
        pushes = ServerPushes.push_elsewhere (holds_rsp p.state ready) (sent ∙ sx) (
            ServerPushes.accept fuel (record { array = rsp; stack = 0 ∷ 0 ∷ [] }) (words_fit _)
              zeros_fit pushed u.pushes);
        memory = u.memory;
      }

  -- A run of the loop as runs of the two channels.
  pub Session-Processed :
      (mem mem' : ℕ → ℕ) (s s' : State os.World)
      → Session mem s mem' s'
      → IsReady s
      → Processed mem s mem' s'
  Session-Processed mem mem' s s' session_end h = record {
    commands = [];
    pulls = Pulls.pull_end;
    pushes = ServerPushes.push_end;
    memory = refl;
  }
  Session-Processed mem mem' s s' (session_turn {mem1 = mem1} {s1 = s1} fuel junk j e c run) h =
      let r = turn-Round os fuel junk mem mem1 s s1 e in
      let (hx, gx, sx) =
        pull_exit os stream sep ie ic ir a b d fuel s junk.exit_data r.exit_pull h r.exit_pulls in
      elim (r.ends) [
        | inl idle ↦
            Idle-Processed fuel junk mem mem' s r.exit_pull.state s' r.cmd_pull j.cmd_fits hx gx sx
              r.cmd_pulls idle.no_command (ap (λ v. v.sockets ic) (sym idle.state) ∙ c)
              (λ ready.
                subst (λ v. Processed v r.cmd_pull.state mem' s') idle.memory
                  (subst (λ v. Processed mem1 v mem' s') idle.state
                    (Session-Processed mem1 mem' s1 s' run (subst IsReady (sym idle.state) ready))))
        | inr v ↦
            Answered-Processed fuel junk mem mem1 mem' s r.exit_pull.state s1 s' r.cmd_pull
              j.cmd_fits hx gx sx r.cmd_pulls v
              (λ ready.
                subst (λ u. Processed u s1 mem' s') v.memory
                  (Session-Processed mem1 mem' s1 s' run ready))
      ]
