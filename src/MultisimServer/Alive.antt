-- ===== src/MultisimServer/Alive.antt =====
-- `multisim_server_push_core` (src/core/multisim_server.cpp) to a client that stays.
use multisim.Base.{
  ℕ, zero, suc, ◌≡◌, ◌∙◌, ◌<◌, refl, sym, ap, subst, inl, inr, Bool, List, Bytes, length, some,
  returned, returned-injective, >>=-eq-returned,
}
use multisim.Os.{Os, Ret, count, failed, eagain, ewouldblock, eintr, other}
use multisim.SocketIo.{send_msg}
use multisim.SocketIo.Alive.{IsAlive, Whole, whole, blocks, send_msg-Whole}
use multisim.Names.{find, get_server_idx}
use multisim.Data.{Target, message}
use multisim.MultisimServer.{
  State, would_block, push_result, connect_client, push_connected, multisim_server_push_core,
}

module _ (os : Os) where
  push_result-kept :
      (s : State os.World) (i fd : ℕ) (r : Ret × os.World)
      → Whole r.0
      → (push_result os s i fd r).1 ≡ record s { world = r.1 }
  unfolding push_result would_block
  push_result-kept s i fd (count (suc k), w) h = refl
  push_result-kept s i fd (count zero, w) (whole k e) = absurd cc
  push_result-kept s i fd (count zero, w) (blocks (inl e)) = absurd cc
  push_result-kept s i fd (count zero, w) (blocks (inr e)) = absurd cc
  push_result-kept s i fd (failed eagain, w) h = refl
  push_result-kept s i fd (failed ewouldblock, w) h = refl
  push_result-kept s i fd (failed eintr, w) (whole k e) = absurd cc
  push_result-kept s i fd (failed eintr, w) (blocks (inl e)) = absurd cc
  push_result-kept s i fd (failed eintr, w) (blocks (inr e)) = absurd cc
  push_result-kept s i fd (failed (other n), w) (whole k e) = absurd cc
  push_result-kept s i fd (failed (other n), w) (blocks (inl e)) = absurd cc
  push_result-kept s i fd (failed (other n), w) (blocks (inr e)) = absurd cc

  -- A push to a client that stays keeps it, whatever the push gives, and changes the world only.
  pub multisim_server_push_core-kept :
      (fuel : ℕ) (t : Target) (s : State os.World) (name : Bytes) (mem : List ℕ) (width : ℕ)
      (is_4state : Bool) (stack : List ℕ) (i fd : ℕ) (q : ℕ × State os.World)
      → IsAlive os fd
      → 0 < length (message t is_4state width mem stack)
      → find name s.server_name_to_idx ≡ some i
      → s.sockets i ≡ some fd
      → multisim_server_push_core os fuel t s name mem width is_4state stack ≡ returned q
      → q.1 ≡ record s { world = q.1.world }
  unfolding multisim_server_push_core get_server_idx connect_client push_connected
  multisim_server_push_core-kept fuel t s name mem width is_4state stack i fd q alive size f c e =
      let msg = message t is_4state width mem stack in
      let (r, sends, e1) =
        >>=-eq-returned (send_msg os fuel s.world fd msg) _
          (rw (f, get_server_idx, c, connect_client) at e) in
      let kept =
        push_result-kept s i fd r (send_msg-Whole os fd alive fuel s.world msg r size sends) in
      subst (λ (v : ℕ × State os.World). v.1 ≡ record s { world = v.1.world })
        (returned-injective e1)
        (kept ∙ ap (λ w. record s { world = w }) (sym (ap (λ v. v.world) kept)))
