-- ===== src/Bench/Push.antt =====
-- The server of bench.cpp (example/sw_server/sw_client/bench) in the mode `stream`: what it has
-- pushed.
use native.Mathlib.Decide.{ℕ_discrete}
use multisim.Base.{
  ℕ, zero, suc, ◌+◌, ◌%◌, ◌≡◌, ◌≢◌, ◌∙◌, ◌<◌, ◌^◌, ap, subst, true, false, List, [], ◌∷◌, ◌==◌,
  ==_iff, length-set, Bytes, codes, length, returned, returned-injective, >>=-eq-returned, arith,
}
use multisim.Os.{Os, Ret}
use multisim.SocketIo.Stream.{IsStream}
use multisim.SocketIo.Alive.{IsAlive}
use multisim.Names.{find}
use multisim.Data.{sw, message, buf_32b_size, buf_words, buf_size}
use multisim.Data.Pack.{set-IsWord}
use multisim.Data.Message.{Fits, length-message}
use multisim.MultisimServer.{State, success, multisim_server_push, multisim_server_push_core}
use multisim.MultisimServer.Alive.{multisim_server_push_core-kept}
use multisim.MultisimServer.Push.{
  PushOutcome, accepted, blocked, lost, multisim_server_push_core-PushOutcome,
}
use multisim.Channel.{Push, ServerHolds}
use multisim.Channel.Down.{ServerPushes}
use multisim.Bench.{number, Ended, server_push, stream_rounds}

-- `left` messages from `i` on, from the buffer `buf`.
abbrev pub push_of : List ℕ → Push
push_of buf = record { array = buf; stack = buf }

abbrev pub pushes_from : ℕ → ℕ → List ℕ → List Push
pushes_from i zero buf = []
pushes_from i (suc left) buf = push_of (number i buf) ∷ pushes_from (i + 1) left (number i buf)

number-Fits : (w i : ℕ) (buf : List ℕ) → Fits false w buf → Fits false w (number i buf)
number-Fits w i buf f = record {
  sized = length-set buf 0 (i % 2 ^ 32) ∙ f.sized;
  words = set-IsWord buf 0 (i % 2 ^ 32) f.words (omega arith);
}

length-message_pos :
    (w : ℕ) (buf : List ℕ) → 0 < w → Fits false w buf → 0 < length (message sw false w buf [])
unfolding message buf_size buf_words buf_32b_size
length-message_pos w buf h f = let n = length-message sw false w buf buf f f in omega (arith, n)

module _ (os : Os) (stream : IsStream os) (idx fd w : ℕ) (wide : 0 < w)
    (alive : IsAlive os fd) where
  abbrev Holds : State os.World → Type 0
  Holds = ServerHolds os stream sw (codes "rsp") w false idx fd

  abbrev Pushed : State os.World → List Push → State os.World → Type 0
  Pushed = ServerPushes os stream sw (codes "rsp") w false idx fd

  only_world : (s s' : State os.World) → s' ≡ record s { world = s'.world } → Holds s → Holds s'
  only_world s s' e h = record {
    index = ap (λ v. find (codes "rsp") v.server_name_to_idx) e ∙ h.index;
    socket = ap (λ v. v.sockets idx) e ∙ h.socket;
  }

  -- One more message in front of what is pushed behind it.
  record Extends (buf : List ℕ) (s s' : State os.World) : Type 0 where
    pub holds : Holds s'
    pub extend :
        (ps : List Push) (u : State os.World) → Pushed s' ps u → Pushed s (push_of buf ∷ ps) u

  succeeds :
      (s : State os.World) (msg : Bytes) (r : Ret × os.World) (q : ℕ × State os.World)
      → q.0 ≢ 0
      → PushOutcome os stream msg s idx fd r q
      → q.0 ≡ success
  succeeds s msg r q n (accepted st e g) = st
  succeeds s msg r q n (blocked f st e g) = absurd (n st)
  succeeds s msg r q n (lost j m g f f' st e) = absurd (n st)

  server_push-Extends :
      (tries fuel : ℕ) (buf : List ℕ) (s s' : State os.World)
      → Fits false w buf
      → Holds s
      → server_push os tries fuel w buf s ≡ returned s'
      → Extends buf s s'
  unfolding server_push multisim_server_push multisim_server_push_core
  server_push-Extends zero fuel buf s s' f h e = cc
  server_push-Extends (suc tries) fuel buf s s' f h e =
      let (q, pushes, out) =
        >>=-eq-returned (multisim_server_push_core os fuel sw s (codes "rsp") buf w false []) _ e in
      let kept =
        multisim_server_push_core-kept os fuel sw s (codes "rsp") buf w false [] idx fd q alive
          (length-message_pos w buf wide f) h.index h.socket pushes in
      let h' = only_world s q.1 kept h in
      elim (ℕ_discrete q.0 0) [
        | yes z ↦
            let test : (q.0 == 0) ≡ true = (==_iff q.0 0).1 z in
            let x = server_push-Extends tries fuel buf q.1 s' f h' (rw test at out) in
            record {
              holds = x.holds;
              extend = λ ps u run.
                  ServerPushes.refuse fuel (push_of buf) (pushes ∙ ap (λ n. returned (n, q.1)) z)
                    h'.socket (x.extend ps u run);
            }
        | no n ↦
            let test : (q.0 == 0) ≡ false = ground (arith, n) in
            let same : q.1 ≡ s' = returned-injective (rw test at out) in
            let (r, sends, outcome) =
              multisim_server_push_core-PushOutcome os stream fuel sw s (codes "rsp") buf w false []
                idx fd q h.index h.socket pushes in
            let one = succeeds s (message sw false w buf []) r q n outcome in
            subst (Extends buf s) same (record {
              holds = h';
              extend = λ ps u run.
                  ServerPushes.accept fuel (push_of buf) f f
                    (pushes ∙ ap (λ n. returned (n, q.1)) one) run;
            })
      ]

  -- The server has pushed the messages in order, each of them once.
  pub stream_rounds-ServerPushes :
      (tries fuel left i : ℕ) (buf : List ℕ) (s : State os.World) (r : Ended × State os.World)
      → Fits false w buf
      → Holds s
      → stream_rounds os tries fuel w left i buf s ≡ returned r
      → Pushed s (pushes_from i left buf) r.1
  unfolding stream_rounds
  stream_rounds-ServerPushes tries fuel zero i buf s r f h e =
      subst (λ (v : Ended × State os.World). Pushed s [] v.1) (returned-injective e)
        ServerPushes.push_end
  stream_rounds-ServerPushes tries fuel (suc left) i buf s r f h e =
      let (s1, one, out) = >>=-eq-returned (server_push os tries fuel w (number i buf) s) _ e in
      let f' = number-Fits w i buf f in
      let x = server_push-Extends tries fuel (number i buf) s s1 f' h one in
      x.extend (pushes_from (i + 1) left (number i buf)) r.1
        (stream_rounds-ServerPushes tries fuel left (i + 1) (number i buf) s1 r f' x.holds out)
