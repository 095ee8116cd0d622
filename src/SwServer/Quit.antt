-- ===== src/SwServer/Quit.antt =====
-- How the loop of sw_server.cpp (example/sw_server/sw_client/read_write/src) ends.
use multisim.Base.{
  ℕ, zero, suc, ◌≡◌, ◌≢◌, ◌∙◌, refl, sym, List, [], codes, returned, returned-injective,
  >>=-eq-returned, false,
}
use multisim.Os.{Os}
use multisim.Data.{sw}
use multisim.MultisimServer.{
  State, Pulled, multisim_server_pull, multisim_server_push, multisim_server_pull_core,
  multisim_server_push_core,
}
use multisim.SwServer.{
  Junk, Turn, quit, next, process, words, answered, handle, unless_exit, turn, serve_after, serve,
}
use multisim.SwServer.Round.{Round, turn-Round}

module _ (os : Os) where
  -- Rounds that go on: in each of them the pull on `exit` gives 0.
  pub data Rounds : (ℕ → ℕ) → State os.World → (ℕ → ℕ) → State os.World → Type 0 where
    rounds_end : {mem : ℕ → ℕ} {s : State os.World} → Rounds mem s mem s
    a_round :
        {mem mem1 mem' : ℕ → ℕ} {s s1 s' : State os.World} (fuel : ℕ) (junk : Junk)
        → Round os fuel junk mem s mem1 s1
        → Rounds mem1 s1 mem' s'
        → Rounds mem s mem' s'

  -- Rounds that go on, and behind them a pull on `exit` that does not give 0.
  pub record Ending (mem : ℕ → ℕ) (s s' : State os.World) : Type 0 where
    pub fuel : ℕ
    pub junk : Junk
    pub mem1 : ℕ → ℕ
    pub s1 : State os.World
    pub p : Pulled os.World
    pub rounds : Rounds mem s mem1 s1
    pub pulls :
        multisim_server_pull_core os fuel sw s1 (codes "exit") junk.exit_data 1 false []
        ≡ returned p
    pub message : p.status ≢ 0
    pub state : s' ≡ p.state

  -- One more round in front.
  turn-Ending :
      (fuel : ℕ) (junk : Junk) (mem mem1 : ℕ → ℕ) (s s1 s' : State os.World)
      → turn os fuel junk mem s ≡ returned (next mem1 s1)
      → Ending mem1 s1 s'
      → Ending mem s s'
  turn-Ending fuel junk mem mem1 s s1 s' e h = record {
    fuel = h.fuel;
    junk = h.junk;
    mem1 = h.mem1;
    s1 = h.s1;
    p = h.p;
    rounds = a_round fuel junk (turn-Round os fuel junk mem mem1 s s1 e) h.rounds;
    pulls = h.pulls;
    message = h.message;
    state = h.state;
  }

  -- A round that ends the loop.
  record Quits (fuel : ℕ) (junk : Junk) (s s' : State os.World) : Type 0 where
    pub p : Pulled os.World
    pub pulls :
        multisim_server_pull_core os fuel sw s (codes "exit") junk.exit_data 1 false [] ≡ returned p
    pub message : p.status ≢ 0
    pub same : s' ≡ p.state

  answered-goes_on :
      (mem : ℕ → ℕ) (q : ℕ × State os.World) (s' : State os.World)
      → answered os mem q ≡ returned (quit s')
      → ⊥
  unfolding answered
  answered-goes_on mem (zero, s) s' e = cc
  answered-goes_on mem (suc r, s) s' e =
      let bad : ◌≡◌ {A = Turn os.World} (next mem s) (quit s') = returned-injective e in absurd cc

  handle-goes_on :
      (fuel : ℕ) (mem : ℕ → ℕ) (n : ℕ) (cmd : List ℕ) (s s' : State os.World)
      → handle os fuel mem n cmd s ≡ returned (quit s')
      → ⊥
  unfolding handle multisim_server_push
  handle-goes_on fuel mem zero cmd s s' e =
      let bad : ◌≡◌ {A = Turn os.World} (next mem s) (quit s') = returned-injective e in absurd cc
  handle-goes_on fuel mem (suc n) cmd s s' e =
      let done = process mem cmd in
      let (q, pushes, out) =
        >>=-eq-returned
          (multisim_server_push_core os fuel sw s (codes "rw_rsp") (words done.0) 64 false []) _
          e in
      answered-goes_on done.1 q s' out

  unless_exit-Quits :
      (fuel : ℕ) (junk : Junk) (mem : ℕ → ℕ) (s s' : State os.World) (p : Pulled os.World) (n : ℕ)
      → multisim_server_pull_core os fuel sw s (codes "exit") junk.exit_data 1 false [] ≡ returned p
      → p.status ≡ n
      → unless_exit os fuel junk mem n p.state ≡ returned (quit s')
      → Quits fuel junk s s'
  unfolding unless_exit multisim_server_pull
  unless_exit-Quits fuel junk mem s s' p (suc k) pulls st e =
      let same : ◌≡◌ {A = Turn os.World} (quit p.state) (quit s') = returned-injective e in
      record { p = p; pulls = pulls; message = λ z. cc; same = cc }
  unless_exit-Quits fuel junk mem s s' p zero pulls st e =
      let (c, cmds, out) =
        >>=-eq-returned
          (multisim_server_pull_core os fuel sw p.state (codes "rw_cmd") junk.rw_cmd 192 false []) _
          e in
      absurd (handle-goes_on fuel mem c.status c.array c.state s' out)

  turn-Quits :
      (fuel : ℕ) (junk : Junk) (mem : ℕ → ℕ) (s s' : State os.World)
      → turn os fuel junk mem s ≡ returned (quit s')
      → Quits fuel junk s s'
  unfolding turn multisim_server_pull
  turn-Quits fuel junk mem s s' e =
      let (p, pulls, out) =
        >>=-eq-returned
          (multisim_server_pull_core os fuel sw s (codes "exit") junk.exit_data 1 false []) _ e in
      unless_exit-Quits fuel junk mem s s' p p.status pulls refl out

  after-Ending :
      (rounds fuel : ℕ) (junk : ℕ → Junk) (mem : ℕ → ℕ) (s s' : State os.World) (t : Turn os.World)
      → turn os fuel (junk rounds) mem s ≡ returned t
      → ((m : ℕ → ℕ) (x : State os.World)
          → serve os rounds fuel junk m x ≡ returned s'
          → Ending m x s')
      → serve_after os t (λ m x. serve os rounds fuel junk m x) ≡ returned s'
      → Ending mem s s'
  unfolding serve_after
  after-Ending rounds fuel junk mem s s' (quit s1) e ih out =
      let q = turn-Quits fuel (junk rounds) mem s s1 e in
      record {
        fuel = fuel;
        junk = junk rounds;
        mem1 = mem;
        s1 = s;
        p = q.p;
        rounds = rounds_end;
        pulls = q.pulls;
        message = q.message;
        state = sym (returned-injective out) ∙ q.same;
      }
  after-Ending rounds fuel junk mem s s' (next m x) e ih out =
      turn-Ending fuel (junk rounds) mem m s x s' e (ih m x out)

  -- The loop ends only behind a message on `exit`. Where it returns, it has done some rounds, in each
  -- of which the pull on `exit` gave 0 and the pull of a command gave 0 or its response was pushed,
  -- and behind them a pull on `exit` that did not give 0; the state that this pull left is the last.
  pub serve-Ending :
      (rounds fuel : ℕ) (junk : ℕ → Junk) (mem : ℕ → ℕ) (s s' : State os.World)
      → serve os rounds fuel junk mem s ≡ returned s'
      → Ending mem s s'
  unfolding serve
  serve-Ending zero fuel junk mem s s' e = cc
  serve-Ending (suc rounds) fuel junk mem s s' e =
      let (t, round, out) = >>=-eq-returned (turn os fuel (junk rounds) mem s) _ e in
      after-Ending rounds fuel junk mem s s' t round
        (λ m x e'. serve-Ending rounds fuel junk m x s' e') out
