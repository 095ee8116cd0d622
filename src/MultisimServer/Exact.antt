-- ===== src/MultisimServer/Exact.antt =====
-- Runs of starts, pushes and pulls of a server process (src/core/multisim_server.cpp), and the
-- descriptors that it holds.
use multisim.Base.{
  ℕ, ◌<◌, zero, suc, ◌≡◌, ◌∙◌, refl, subst, Bool, List, Bytes, Option, none, some, Bool-cases, inl,
  inr, returned, returned-injective, >>=-eq-returned,
}
use multisim.Os.{Os, Ret, count, failed}
use multisim.SocketIo.{send_msg, read_msg}
use multisim.SocketIo.Frame.{send_msg-keeps, read_msg-keeps}
use multisim.SocketIo.Ledger.{IsLedger}
use multisim.Names.{get_server_idx, get_server_idx-returned}
use multisim.Data.{Target, message, buf_size, read_target}
use multisim.MultisimServer.{
  State, Pulled, would_block, connect_client, push_result, pull_result, push_connected,
  pull_connected, multisim_server_start, multisim_server_push_core, multisim_server_pull_core,
}
use multisim.MultisimServer.Start.{multisim_server_start-Registered}
use multisim.MultisimServer.Starting.{start-IsExact, multisim_server_start-Same}
use multisim.MultisimServer.Ledger.{IsExact, Same, world-IsExact, drop_client-IsExact}
use multisim.MultisimServer.Connecting.{Connected, connect_client-Connected}

module _ (os : Os) (ledger : IsLedger os) where
  open ledger use {is_open}

  -- Starts, pushes and pulls that return, on any channels, with any results.
  pub data Calls : State os.World → State os.World → Type 0 where
    calls_end : {s : State os.World} → Calls s s
    call_start :
        {s s' : State os.World} (fuel : ℕ) (name : Bytes) (q : ℕ × State os.World)
        → multisim_server_start os fuel s name ≡ returned q
        → Calls q.1 s'
        → Calls s s'
    call_push :
        {s s' : State os.World} (fuel : ℕ) (t : Target) (name : Bytes) (mem : List ℕ) (width : ℕ)
        (is_4state : Bool) (stack : List ℕ) (q : ℕ × State os.World)
        → multisim_server_push_core os fuel t s name mem width is_4state stack ≡ returned q
        → Calls q.1 s'
        → Calls s s'
    call_pull :
        {s s' : State os.World} (fuel : ℕ) (t : Target) (name : Bytes) (mem : List ℕ) (width : ℕ)
        (is_4state : Bool) (stack : List ℕ) (p : Pulled os.World)
        → multisim_server_pull_core os fuel t s name mem width is_4state stack ≡ returned p
        → Calls p.state s'
        → Calls s s'

  send_msg-Same :
      (fuel : ℕ) (w : os.World) (fd : ℕ) (buf : Bytes) (r : Ret × os.World)
      → send_msg os fuel w fd buf ≡ returned r
      → Same os ledger w r.1
  send_msg-Same fuel w fd buf r e =
      send_msg-keeps os (Same os ledger w) fd (λ v ev h x. ledger.wait_same v fd x ev ∙ h x)
        (λ v b h x. ledger.send_same v fd x b ∙ h x) fuel w buf r (λ x. refl) e

  read_msg-Same :
      (fuel : ℕ) (w : os.World) (fd size : ℕ) (dst : Bytes) (r : Ret × Bytes × os.World)
      → read_msg os fuel w fd size dst ≡ returned r
      → Same os ledger w r.2
  read_msg-Same fuel w fd size dst r e =
      read_msg-keeps os (Same os ledger w) fd (λ v ev h x. ledger.wait_same v fd x ev ∙ h x)
        (λ v n h x. ledger.read_same v fd x n ∙ h x) fuel w size dst r (λ x. refl) e

  push_result-IsExact :
      (s : State os.World) (i fd : ℕ) (r : Ret × os.World)
      → IsExact os ledger s
      → i < s.server_idx
      → s.sockets i ≡ some fd
      → Same os ledger s.world r.1
      → IsExact os ledger (push_result os s i fd r).1
  unfolding push_result
  push_result-IsExact s i fd (count (suc k), w) h l c same = world-IsExact os ledger s w same h
  push_result-IsExact s i fd (count zero, w) h l c same =
      drop_client-IsExact os ledger s w i fd same h l c
  push_result-IsExact s i fd (failed e, w) h l c same = elim (Bool-cases (would_block e)) [
    | inl t ↦ rw t (world-IsExact os ledger s w same h)
    | inr f ↦ rw f (drop_client-IsExact os ledger s w i fd same h l c)
  ]

  pull_result-IsExact :
      (t : Target) (b : Bool) (width : ℕ) (mem : List ℕ) (s : State os.World) (i fd : ℕ)
      (r : Ret × Bytes × os.World)
      → IsExact os ledger s
      → i < s.server_idx
      → s.sockets i ≡ some fd
      → Same os ledger s.world r.2
      → IsExact os ledger (pull_result os t b width mem s i fd r).state
  unfolding pull_result
  pull_result-IsExact t b width mem s i fd (count (suc k), dst, w) h l c same =
      world-IsExact os ledger s w same h
  pull_result-IsExact t b width mem s i fd (count zero, dst, w) h l c same =
      drop_client-IsExact os ledger s w i fd same h l c
  pull_result-IsExact t b width mem s i fd (failed e, dst, w) h l c same =
      world-IsExact os ledger s w same h

  push_connected-IsExact :
      (fuel : ℕ) (msg : Bytes) (i : ℕ) (c : Option ℕ × State os.World) (q : ℕ × State os.World)
      → Connected os ledger i c
      → push_connected os fuel msg i c ≡ returned q
      → IsExact os ledger q.1
  unfolding push_connected
  push_connected-IsExact fuel msg i (none, s) q h e =
      subst (λ (v : ℕ × State os.World). IsExact os ledger v.1) (returned-injective e) h.exact
  push_connected-IsExact fuel msg i (some fd, s) q h e =
      let (r, sends, out) = >>=-eq-returned (send_msg os fuel s.world fd msg) _ e in
      subst (λ (v : ℕ × State os.World). IsExact os ledger v.1) (returned-injective out)
        (push_result-IsExact s i fd r h.exact h.low h.here
          (send_msg-Same fuel s.world fd msg r sends))

  pull_connected-IsExact :
      (fuel : ℕ) (t : Target) (b : Bool) (width : ℕ) (mem stack : List ℕ) (i : ℕ)
      (c : Option ℕ × State os.World) (p : Pulled os.World)
      → Connected os ledger i c
      → pull_connected os fuel t b width mem stack i c ≡ returned p
      → IsExact os ledger p.state
  unfolding pull_connected
  pull_connected-IsExact fuel t b width mem stack i (none, s) p h e =
      subst (λ (v : Pulled os.World). IsExact os ledger v.state) (returned-injective e) h.exact
  pull_connected-IsExact fuel t b width mem stack i (some fd, s) p h e =
      let (r, reads, out) =
        >>=-eq-returned (read_msg os fuel s.world fd (buf_size b width) (read_target b mem stack)) _
          e in
      subst (λ (v : Pulled os.World). IsExact os ledger v.state) (returned-injective out)
        (pull_result-IsExact t b width mem s i fd r h.exact h.low h.here
          (read_msg-Same fuel s.world fd _ _ r reads))

  -- No connection is lost or shared. Where the open connections of the process are those in the slots of
  -- its servers, one in each slot that is taken, they are so behind any number of starts, pushes and
  -- pulls that return, whatever channels they are on, however they end, and whichever clients come and
  -- go. The slots of `sockets` that no server has yet hold the zeros that they began with, and count for
  -- nothing.
  pub Calls-IsExact :
      (s s' : State os.World) → Calls s s' → IsExact os ledger s → IsExact os ledger s'
  unfolding multisim_server_push_core multisim_server_pull_core
  Calls-IsExact s s' calls_end h = h
  Calls-IsExact s s' (call_start fuel name q e run) h =
      let same = multisim_server_start-Same os ledger fuel s name q e in
      let (_, r) = multisim_server_start-Registered os fuel s name q e in
      Calls-IsExact q.1 s' run (start-IsExact os ledger s q.1 name r same h)
  Calls-IsExact s s' (call_push fuel t name mem width b stack q e run) h =
      let (i, found, out) = >>=-eq-returned (get_server_idx name s.server_name_to_idx) _ e in
      let low = h.named name i (get_server_idx-returned name s.server_name_to_idx i found) in
      Calls-IsExact q.1 s' run (
        push_connected-IsExact fuel (message t b width mem stack) i
          (connect_client os s i (s.sockets i)) q
          (connect_client-Connected os ledger s i (s.sockets i) h low refl) out)
  Calls-IsExact s s' (call_pull fuel t name mem width b stack p e run) h =
      let (i, found, out) = >>=-eq-returned (get_server_idx name s.server_name_to_idx) _ e in
      let low = h.named name i (get_server_idx-returned name s.server_name_to_idx i found) in
      Calls-IsExact p.state s' run (
        pull_connected-IsExact fuel t b width mem stack i (connect_client os s i (s.sockets i)) p
          (connect_client-Connected os ledger s i (s.sockets i) h low refl) out)
