-- ===== src/StreamTest/Push.antt =====
-- The server of stream.cpp (example/sw_server/sw_client/unit): what its loop has pushed.
use multisim.Base.{
  ℕ, zero, suc, ◌+◌, ◌≡◌, ◌∙◌, ◌<◌, refl, ap, subst, false, List, [], ◌∷◌, All, Run, Bytes, codes,
  length, returned, returned-injective, >>=-eq-returned, arith,
}
use multisim.Os.{Os, Ret}
use multisim.SocketIo.Stream.{IsStream}
use multisim.SocketIo.Alive.{IsAlive}
use multisim.Names.{find}
use multisim.Data.{sw, message, buf_32b_size, buf_words, buf_size}
use multisim.Data.Words.{IsWord}
use multisim.Data.Message.{Fits, length-message}
use multisim.MultisimServer.{State, multisim_server_push, multisim_server_push_core}
use multisim.MultisimServer.Alive.{multisim_server_push_core-kept}
use multisim.MultisimServer.Push.{
  PushOutcome, accepted, blocked, lost, multisim_server_push_core-PushOutcome,
}
use multisim.Channel.{Push, ServerHolds}
use multisim.Channel.Down.{ServerPushes}
use multisim.StreamTest.{fill, numbered, tried_again, push_until, push_numbered}

fill-Fits : (i k n : ℕ) → (length (fill i k n) ≡ n) × All IsWord (fill i k n)
fill-Fits i k zero = (refl, tt)
fill-Fits i k (suc n) = let (l, a) = fill-Fits i (k + 1) n in (ap suc l, (omega arith, a))

numbered-Fits : (w i : ℕ) → Fits false w (numbered w i)
unfolding numbered buf_words
numbered-Fits w i = let (l, a) = fill-Fits i 0 (buf_32b_size w) in record { sized = l; words = a }

length-numbered-pos : (w i : ℕ) → 0 < w → 0 < length (message sw false w (numbered w i) [])
unfolding message buf_size buf_words buf_32b_size
length-numbered-pos w i h =
    let n =
      length-message sw false w (numbered w i) (numbered w i) (numbered-Fits w i)
        (numbered-Fits w i) in
    omega (arith, n)

-- `left` messages from `i` on.
abbrev pub push_of : ℕ → ℕ → Push
push_of w i = record { array = numbered w i; stack = numbered w i }

abbrev pub pushes_from : ℕ → ℕ → ℕ → List Push
pushes_from w i zero = []
pushes_from w i (suc left) = push_of w i ∷ pushes_from w (i + 1) left

module _ (os : Os) (stream : IsStream os) (usleep sleep : os.World → os.World) (idx fd w : ℕ)
    (wide : 0 < w) (alive : IsAlive os fd)
    (quiet : (v : os.World) → stream.sent (usleep v) fd ≡ stream.sent v fd) where
  abbrev Holds : State os.World → Type 0
  Holds = ServerHolds os stream sw (codes "ch") w false idx fd

  abbrev Pushed : State os.World → List Push → State os.World → Type 0
  Pushed = ServerPushes os stream sw (codes "ch") w false idx fd

  still_connected :
      (s s' : State os.World) → s' ≡ record s { world = s'.world } → Holds s → Holds s'
  still_connected s s' e h = record {
    index = ap (λ v. find (codes "ch") v.server_name_to_idx) e ∙ h.index;
    socket = ap (λ v. v.sockets idx) e ∙ h.socket;
  }

  succeeds :
      (s : State os.World) (msg : Bytes) (r : Ret × os.World) (k : ℕ) (s' : State os.World)
      → PushOutcome os stream msg s idx fd r (suc k, s')
      → k ≡ 0
  succeeds s msg r k s' (accepted st e g) = omega arith
  succeeds s msg r k s' (blocked f st e g) = absurd (omega arith)
  succeeds s msg r k s' (lost n m g f f' st e) = absurd (omega arith)

  -- One more message in front of what is pushed behind it.
  record Extends (i : ℕ) (s s' : State os.World) : Type 0 where
    pub holds : Holds s'
    pub extend :
        (ps : List Push) (u : State os.World) → Pushed s' ps u → Pushed s (push_of w i ∷ ps) u

  tried_again-Extends :
      (fuel i : ℕ) (s s' : State os.World) (q : ℕ × State os.World)
      (next : State os.World → Run (State os.World))
      → Holds s
      → multisim_server_push_core os fuel sw s (codes "ch") (numbered w i) w false [] ≡ returned q
      → ((x : State os.World) → Holds x → next x ≡ returned s' → Extends i x s')
      → tried_again os usleep sleep q next ≡ returned s'
      → Extends i s s'
  unfolding tried_again multisim_server_push_core
  tried_again-Extends fuel i s s' (zero, s1) next h pushes ih e =
      let kept =
        multisim_server_push_core-kept os fuel sw s (codes "ch") (numbered w i) w false [] idx fd
          (zero, s1) alive (length-numbered-pos w i wide) h.index h.socket pushes in
      let h1 = still_connected s s1 kept h in
      let h2 : Holds (record s1 { world = usleep s1.world }) = record {
        index = h1.index;
        socket = h1.socket;
      } in
      let x = ih (record s1 { world = usleep s1.world }) h2 e in
      record {
        holds = x.holds;
        extend = λ ps u run.
            ServerPushes.refuse fuel (push_of w i) pushes h1.socket
              (ServerPushes.push_elsewhere h2 (quiet s1.world) (x.extend ps u run));
      }
  tried_again-Extends fuel i s s' (suc k, s1) next h pushes ih e =
      let same : s1 ≡ s' = returned-injective e in
      let kept =
        multisim_server_push_core-kept os fuel sw s (codes "ch") (numbered w i) w false [] idx fd
          (suc k, s1) alive (length-numbered-pos w i wide) h.index h.socket pushes in
      let (r, sends, out) =
        multisim_server_push_core-PushOutcome os stream fuel sw s (codes "ch") (numbered w i) w
          false [] idx fd (suc k, s1) h.index h.socket pushes in
      let done = rw (succeeds s _ r k s1 out) at pushes in
      subst (Extends i s) same (record {
        holds = still_connected s s1 kept h;
        extend = λ ps u run.
            ServerPushes.accept fuel (push_of w i) (numbered-Fits w i) (numbered-Fits w i) done run;
      })

  push_until-Extends :
      (tries fuel i : ℕ) (s s' : State os.World)
      → Holds s
      → push_until os usleep sleep tries fuel w (numbered w i) s ≡ returned s'
      → Extends i s s'
  unfolding push_until multisim_server_push
  push_until-Extends zero fuel i s s' h e = cc
  push_until-Extends (suc tries) fuel i s s' h e =
      let (q, pushes, out) =
        >>=-eq-returned
          (multisim_server_push_core os fuel sw s (codes "ch") (numbered w i) w false []) _ e in
      tried_again-Extends fuel i s s' q
        (λ x. push_until os usleep sleep tries fuel w (numbered w i) x) h pushes
        (λ x hx ex. push_until-Extends tries fuel i x s' hx ex) out

  -- The server has pushed the messages in order, each of them once.
  pub push_numbered-ServerPushes :
      (tries fuel left i : ℕ) (s s' : State os.World)
      → Holds s
      → push_numbered os usleep sleep tries fuel w left i s ≡ returned s'
      → Pushed s (pushes_from w i left) s'
  unfolding push_numbered
  push_numbered-ServerPushes tries fuel zero i s s' h e =
      subst (Pushed s []) (returned-injective e) ServerPushes.push_end
  push_numbered-ServerPushes tries fuel (suc left) i s s' h e =
      let (s1, one, out) =
        >>=-eq-returned (push_until os usleep sleep tries fuel w (numbered w i) s) _ e in
      let x = push_until-Extends tries fuel i s s1 h one in
      x.extend (pushes_from w (i + 1) left) s'
        (push_numbered-ServerPushes tries fuel left (i + 1) s1 s' x.holds out)
