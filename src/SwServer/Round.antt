-- ===== src/SwServer/Round.antt =====
-- A round of the loop of sw_server.cpp (example/sw_server/sw_client/read_write/src).
use multisim.Base.{
  ℕ, zero, suc, ◌≡◌, ◌∙◌, ◌⊎◌, inl, inr, refl, sym, ap, [], codes, false, returned,
  returned-injective, >>=-eq-returned, aborted-ne-returned,
}
use multisim.Os.{Os}
use multisim.Data.{sw}
use multisim.MultisimServer.{
  State, Pulled, multisim_server_pull, multisim_server_push, multisim_server_pull_core,
  multisim_server_push_core,
}
use multisim.SwServer.{Junk, Turn, quit, next, words, process, answered, handle, unless_exit, turn}

module _ (os : Os) where
  -- What a round does that does not end the loop: the pull on `exit` gives failure, and so does the
  -- pull of a command, or its response is pushed.
  pub record Answered (fuel : ℕ) (mem mem' : ℕ → ℕ) (p : Pulled os.World) (s' : State os.World)
      : Type 0 where
    pub status : ℕ
    pub some_command : p.status ≡ suc status
    pub memory : mem' ≡ (process mem p.array).1
    pub pushes : ℕ
    pub response :
        multisim_server_push_core os fuel sw p.state
          (codes "rw_rsp")
          (words (process mem p.array).0)
          64
          false
          []
        ≡ returned (suc pushes, s')

  pub record Idle (mem mem' : ℕ → ℕ) (p : Pulled os.World) (s' : State os.World) : Type 0 where
    pub no_command : p.status ≡ 0
    pub memory : mem' ≡ mem
    pub state : s' ≡ p.state

  pub record Round (fuel : ℕ) (junk : Junk) (mem : ℕ → ℕ) (s : State os.World) (mem' : ℕ → ℕ)
      (s' : State os.World) : Type 0 where
    pub exit_pull : Pulled os.World
    pub exit_pulls :
        multisim_server_pull_core os fuel sw s (codes "exit") junk.exit_data 1 false []
        ≡ returned exit_pull
    pub no_exit : exit_pull.status ≡ 0
    pub cmd_pull : Pulled os.World
    pub cmd_pulls :
        multisim_server_pull_core os fuel sw exit_pull.state
          (codes "rw_cmd")
          junk.rw_cmd
          192
          false
          []
        ≡ returned cmd_pull
    pub ends : Idle mem mem' cmd_pull s' ⊎ Answered fuel mem mem' cmd_pull s'

  next-injective :
      (mem mem' : ℕ → ℕ) (s s' : State os.World)
      → ◌≡◌ {A = Turn os.World} (next mem s) (next mem' s')
      → (mem' ≡ mem) × (s' ≡ s)
  next-injective mem mem' s s' e = (cc, cc)

  answered-next :
      (m mem' : ℕ → ℕ) (q : ℕ × State os.World) (s' : State os.World)
      → answered os m q ≡ returned (next mem' s')
      → (k : ℕ) × (◌≡◌ {A = ℕ × State os.World} q (suc k, s')) × (mem' ≡ m)
  unfolding answered
  answered-next m mem' (zero, s) s' e = absurd (aborted-ne-returned e)
  answered-next m mem' (suc k, s) s' e =
      let (same, state) = next-injective m mem' s s' (returned-injective e) in
      (k, ap (λ v. (suc k, v)) (sym state), same)

  handle-ends :
      (fuel : ℕ) (mem mem' : ℕ → ℕ) (p : Pulled os.World) (s' : State os.World) (status : ℕ)
      → p.status ≡ status
      → handle os fuel mem status p.array p.state ≡ returned (next mem' s')
      → Idle mem mem' p s' ⊎ Answered fuel mem mem' p s'
  unfolding handle multisim_server_push
  handle-ends fuel mem mem' p s' zero st e =
      let (m, q) = next-injective mem mem' p.state s' (returned-injective e) in
      inl (record { no_command = st; memory = m; state = q })
  handle-ends fuel mem mem' p s' (suc k) st e =
      let done = process mem p.array in
      let (q, pushes, out) =
        >>=-eq-returned
          (multisim_server_push_core os fuel sw p.state (codes "rw_rsp") (words done.0) 64 false [])
          _ e in
      let (n, ends, m) = answered-next done.1 mem' q s' out in
      inr (record {
        status = k;
        some_command = st;
        memory = m;
        pushes = n;
        response = pushes ∙ ap returned ends;
      })

  unless_exit-Round :
      (fuel : ℕ) (junk : Junk) (mem mem' : ℕ → ℕ) (s s' : State os.World) (x : Pulled os.World)
      (status : ℕ)
      → multisim_server_pull_core os fuel sw s (codes "exit") junk.exit_data 1 false [] ≡ returned x
      → x.status ≡ status
      → unless_exit os fuel junk mem status x.state ≡ returned (next mem' s')
      → Round fuel junk mem s mem' s'
  unfolding unless_exit multisim_server_pull
  unless_exit-Round fuel junk mem mem' s s' x (suc k) pulls st e =
      let bad : ◌≡◌ {A = Turn os.World} (quit x.state) (next mem' s') = returned-injective e in
      absurd cc
  unless_exit-Round fuel junk mem mem' s s' x zero pulls st e =
      let (p, cmds, out) =
        >>=-eq-returned
          (multisim_server_pull_core os fuel sw x.state (codes "rw_cmd") junk.rw_cmd 192 false []) _
          e in
      record {
        exit_pull = x;
        exit_pulls = pulls;
        no_exit = st;
        cmd_pull = p;
        cmd_pulls = cmds;
        ends = handle-ends fuel mem mem' p s' p.status refl out;
      }

  pub turn-Round :
      (fuel : ℕ) (junk : Junk) (mem mem' : ℕ → ℕ) (s s' : State os.World)
      → turn os fuel junk mem s ≡ returned (next mem' s')
      → Round fuel junk mem s mem' s'
  unfolding turn multisim_server_pull
  turn-Round fuel junk mem mem' s s' e =
      let (x, pulls, out) =
        >>=-eq-returned
          (multisim_server_pull_core os fuel sw s (codes "exit") junk.exit_data 1 false []) _ e in
      unless_exit-Round fuel junk mem mem' s s' x x.status pulls refl out
