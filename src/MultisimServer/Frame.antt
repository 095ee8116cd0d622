-- ===== src/MultisimServer/Frame.antt =====
-- The calls on one channel of a server process (src/core/multisim_server.cpp) leave the others alone.
use multisim.Base.{
  ℕ, zero, suc, ◌≡◌, ◌≢◌, ◌∙◌, refl, sym, subst, ap, true, Bool, List, Bool-cases, inl, inr, Bytes,
  Option, none, some, returned, returned-injective, >>=-eq-returned,
}
use multisim.Os.{Os, Ret, count, failed}
use multisim.SocketIo.{send_msg, read_msg}
use multisim.SocketIo.Stream.{IsStream}
use multisim.SocketIo.Frame.{send_msg-keeps, read_msg-keeps}
use multisim.SocketIo.Separate.{IsSeparate, Kept, Kept-refl, Kept-trans}
use multisim.SocketServer.Frame.{accept_new_socket-Accepted}
use multisim.Names.{find, get_server_idx}
use multisim.Data.{Target, buf_size, read_target, message}
use multisim.MultisimServer.Start.{update_self, update_ne}
use multisim.MultisimServer.{
  State, Pulled, update, would_block, drop_client, connect_client, pull_result, pull_connected,
  push_result, push_connected, multisim_server_pull_core, multisim_server_push_core,
}

module _ (os : Os) (stream : IsStream os) (sep : IsSeparate os stream) (fd j : ℕ) where
  open sep use {is_open, send_kept, read_kept, wait_kept, close_kept}

  -- From `s` to `s'` only the channel of index `j` has changed, and the connection `fd` is kept; the
  -- socket of the channel is not `fd`.
  pub record Apart (s s' : State os.World) : Type 0 where
    pub kept : Kept os stream is_open fd s.world s'.world
    pub same_names : s'.server_name_to_idx ≡ s.server_name_to_idx
    pub same_sockets : (k : ℕ) → k ≢ j → s'.sockets k ≡ s.sockets k
    pub distinct : s'.sockets j ≢ some fd

  pub Apart-trans : (s s1 s2 : State os.World) → Apart s s1 → Apart s1 s2 → Apart s s2
  Apart-trans s s1 s2 a b = record {
    kept = Kept-trans os stream is_open fd s.world s1.world s2.world a.kept b.kept;
    same_names = b.same_names ∙ a.same_names;
    same_sockets = λ k h. b.same_sockets k h ∙ a.same_sockets k h;
    distinct = b.distinct;
  }

  world-Apart :
      (s : State os.World) (w : os.World)
      → Kept os stream is_open fd s.world w
      → s.sockets j ≢ some fd
      → Apart s (record s { world = w })
  world-Apart s w k d = record {
    kept = k;
    same_names = refl;
    same_sockets = λ i h. refl;
    distinct = d;
  }

  socket-Apart :
      (s : State os.World) (w : os.World) (o : Option ℕ)
      → Kept os stream is_open fd s.world w
      → o ≢ some fd
      → Apart s (record s { world = w; sockets = update s.sockets j o })
  socket-Apart s w o k d = record {
    kept = k;
    same_names = refl;
    same_sockets = λ i h. update_ne s.sockets j i o h;
    distinct = λ e. d (sym (update_self s.sockets j o) ∙ e);
  }

  drop_client-Apart :
      (s : State os.World) (w : os.World) (x : ℕ)
      → Kept os stream is_open fd s.world w
      → x ≢ fd
      → Apart s (drop_client os s w j x)
  unfolding drop_client
  drop_client-Apart s w x k d =
      socket-Apart s (os.close w x) none
        (Kept-trans os stream is_open fd s.world w (os.close w x) k
          (close_kept w fd x k.still_open d))
        (λ e. cc)

  connect_client-Apart :
      (s : State os.World) (o : Option ℕ)
      → is_open s.world fd ≡ true
      → s.sockets j ≡ o
      → o ≢ some fd
      → Apart s (connect_client os s j o).1 × ((connect_client os s j o).0 ≢ some fd)
  unfolding connect_client
  connect_client-Apart s (some x) h e d =
      (world-Apart s s.world (Kept-refl os stream is_open fd s.world h) (λ f. d (sym e ∙ f)), d)
  connect_client-Apart s none h e d =
      let a = accept_new_socket-Accepted os stream sep fd s.world (s.server j) h in
      (socket-Apart s _ _ a.kept a.other, a.other)

  pull_result-Apart :
      (t : Target) (b : Bool) (width : ℕ) (mem : List ℕ) (s : State os.World) (x : ℕ)
      (r : Ret × Bytes × os.World)
      → Kept os stream is_open fd s.world r.2
      → s.sockets j ≢ some fd
      → x ≢ fd
      → Apart s (pull_result os t b width mem s j x r).state
  unfolding pull_result
  pull_result-Apart t b width mem s x (count (suc k), dst, w) h d e = world-Apart s w h d
  pull_result-Apart t b width mem s x (count zero, dst, w) h d e = drop_client-Apart s w x h e
  pull_result-Apart t b width mem s x (failed er, dst, w) h d e = world-Apart s w h d

  push_result-Apart :
      (s : State os.World) (x : ℕ) (r : Ret × os.World)
      → Kept os stream is_open fd s.world r.1
      → s.sockets j ≢ some fd
      → x ≢ fd
      → Apart s (push_result os s j x r).1
  unfolding push_result
  push_result-Apart s x (count (suc k), w) h d e = world-Apart s w h d
  push_result-Apart s x (count zero, w) h d e = drop_client-Apart s w x h e
  push_result-Apart s x (failed er, w) h d e = elim (Bool-cases (would_block er)) [
    | inl t ↦ rw t (world-Apart s w h d)
    | inr f ↦ rw f (drop_client-Apart s w x h e)
  ]

  pull_connected-Apart :
      (fuel : ℕ) (t : Target) (b : Bool) (width : ℕ) (mem stack : List ℕ)
      (c : Option ℕ × State os.World) (p : Pulled os.World)
      → is_open c.1.world fd ≡ true
      → c.1.sockets j ≢ some fd
      → c.0 ≢ some fd
      → pull_connected os fuel t b width mem stack j c ≡ returned p
      → Apart c.1 p.state
  unfolding pull_connected
  pull_connected-Apart fuel t b width mem stack (none, s) p h d x e =
      subst (λ (v : Pulled os.World). Apart s v.state) (returned-injective e)
        (world-Apart s s.world (Kept-refl os stream is_open fd s.world h) d)
  pull_connected-Apart fuel t b width mem stack (some x, s) p h d ne e =
      let other : x ≢ fd = λ q. ne (ap some q) in
      let (r, reads, out) =
        >>=-eq-returned (read_msg os fuel s.world x (buf_size b width) (read_target b mem stack)) _
          e in
      let k =
        read_msg-keeps os (Kept os stream is_open fd s.world) x
          (λ w ev q.
            Kept-trans os stream is_open fd s.world w _ q (wait_kept w fd x ev q.still_open))
          (λ w n q.
            Kept-trans os stream is_open fd s.world w _ q (read_kept w fd x n q.still_open other))
          fuel s.world (buf_size b width) (read_target b mem stack) r
          (Kept-refl os stream is_open fd s.world h) reads in
      subst (λ (v : Pulled os.World). Apart s v.state) (returned-injective out)
        (pull_result-Apart t b width mem s x r k d other)

  push_connected-Apart :
      (fuel : ℕ) (msg : Bytes) (c : Option ℕ × State os.World) (q : ℕ × State os.World)
      → is_open c.1.world fd ≡ true
      → c.1.sockets j ≢ some fd
      → c.0 ≢ some fd
      → push_connected os fuel msg j c ≡ returned q
      → Apart c.1 q.1
  unfolding push_connected
  push_connected-Apart fuel msg (none, s) p h d x e =
      subst (λ (v : ℕ × State os.World). Apart s v.1) (returned-injective e)
        (world-Apart s s.world (Kept-refl os stream is_open fd s.world h) d)
  push_connected-Apart fuel msg (some x, s) p h d ne e =
      let other : x ≢ fd = λ q. ne (ap some q) in
      let (r, sends, out) = >>=-eq-returned (send_msg os fuel s.world x msg) _ e in
      let k =
        send_msg-keeps os (Kept os stream is_open fd s.world) x
          (λ w ev q.
            Kept-trans os stream is_open fd s.world w _ q (wait_kept w fd x ev q.still_open))
          (λ w buf q.
            Kept-trans os stream is_open fd s.world w _ q (send_kept w fd x buf q.still_open other))
          fuel s.world msg r (Kept-refl os stream is_open fd s.world h) sends in
      subst (λ (v : ℕ × State os.World). Apart s v.1) (returned-injective out)
        (push_result-Apart s x r k d other)

  -- A pull and a push on the channel of index `j`, connected or not, however they end, leave the
  -- connection `fd` of another channel alone.
  pub multisim_server_pull_core-Apart :
      (fuel : ℕ) (t : Target) (s : State os.World) (name : Bytes) (mem : List ℕ) (width : ℕ)
      (b : Bool) (stack : List ℕ) (p : Pulled os.World)
      → find name s.server_name_to_idx ≡ some j
      → is_open s.world fd ≡ true
      → s.sockets j ≢ some fd
      → multisim_server_pull_core os fuel t s name mem width b stack ≡ returned p
      → Apart s p.state
  unfolding multisim_server_pull_core get_server_idx
  multisim_server_pull_core-Apart fuel t s name mem width b stack p f h d e =
      let (a, ne) = connect_client-Apart s (s.sockets j) h refl d in
      Apart-trans s (connect_client os s j (s.sockets j)).1 p.state a (
        pull_connected-Apart fuel t b width mem stack (connect_client os s j (s.sockets j)) p
          a.kept.still_open a.distinct ne (rw (f, get_server_idx) at e))

  pub multisim_server_push_core-Apart :
      (fuel : ℕ) (t : Target) (s : State os.World) (name : Bytes) (mem : List ℕ) (width : ℕ)
      (b : Bool) (stack : List ℕ) (q : ℕ × State os.World)
      → find name s.server_name_to_idx ≡ some j
      → is_open s.world fd ≡ true
      → s.sockets j ≢ some fd
      → multisim_server_push_core os fuel t s name mem width b stack ≡ returned q
      → Apart s q.1
  unfolding multisim_server_push_core get_server_idx
  multisim_server_push_core-Apart fuel t s name mem width b stack q f h d e =
      let (a, ne) = connect_client-Apart s (s.sockets j) h refl d in
      Apart-trans s (connect_client os s j (s.sockets j)).1 q.1 a (
        push_connected-Apart fuel (message t b width mem stack)
          (connect_client os s j (s.sockets j)) q a.kept.still_open a.distinct ne
          (rw (f, get_server_idx) at e))

module _ (os : Os) (stream : IsStream os) (sep : IsSeparate os stream) where
  open sep use {is_open, send_open, read_open, wait_kept}

  -- The transfer of a message keeps its connection open.
  pub send_msg-open :
      (fuel : ℕ) (w : os.World) (fd : ℕ) (msg : Bytes) (r : Ret × os.World)
      → is_open w fd ≡ true
      → send_msg os fuel w fd msg ≡ returned r
      → is_open r.1 fd ≡ true
  send_msg-open fuel w fd msg r h e =
      send_msg-keeps os (λ v. is_open v fd ≡ true) fd
        (λ v ev k. (wait_kept v fd fd ev k).still_open) (λ v buf k. send_open v fd buf k) fuel w msg
        r h e

  pub read_msg-open :
      (fuel : ℕ) (w : os.World) (fd size : ℕ) (dst : Bytes) (r : Ret × Bytes × os.World)
      → is_open w fd ≡ true
      → read_msg os fuel w fd size dst ≡ returned r
      → is_open r.2 fd ≡ true
  read_msg-open fuel w fd size dst r h e =
      read_msg-keeps os (λ v. is_open v fd ≡ true) fd
        (λ v ev k. (wait_kept v fd fd ev k).still_open) (λ v n k. read_open v fd n k) fuel w size
        dst r h e
