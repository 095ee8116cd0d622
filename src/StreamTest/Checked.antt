-- ===== src/StreamTest/Checked.antt =====
-- The client and the server of stream.cpp (example/sw_server/sw_client/unit) together.
use multisim.Base.{
  ℕ, zero, suc, ◌+◌, ◌≡◌, ◌≢◌, ◌∙◌, ◌<◌, refl, sym, ap, inl, List, [], ◌∷◌, ◌++◌, map, Bytes, codes,
  length, returned, arith, false,
}
use mathlib.Core.Option.{some-ne-none}
use multisim.Os.{Os}
use multisim.SocketIo.Stream.{IsStream}
use multisim.SocketIo.Alive.{IsAlive}
use multisim.Data.{sw}
use multisim.MultisimServer
use multisim.MultisimClient
use multisim.Channel.{ClientHolds, ServerHolds}
use multisim.Channel.Down.Order.{fifo_down}
use multisim.StreamTest.{numbered, first_bad, Verdict, bad_word, push_numbered, pull_numbered}
use multisim.StreamTest.Push.{pushes_from, push_numbered-ServerPushes}
use multisim.StreamTest.Pull.{first_bad-numbered, pull_numbered-Wrong}

last_numbered :
    (w i n : ℕ) (before later : List (List ℕ)) (last : List ℕ)
    → (before ++ last ∷ []) ++ later ≡ map (λ p. p.array) (pushes_from w i n)
    → last ≡ numbered w (i + length before)
last_numbered w i zero [] later last e = absurd cc
last_numbered w i zero (b ∷ before) later last e = absurd cc
last_numbered w i (suc n) [] later last e =
    let here : last ≡ numbered w i = cc in here ∙ ap (numbered w) (omega arith)
last_numbered w i (suc n) (b ∷ before) later last e =
    let tail : (before ++ last ∷ []) ++ later ≡ map (λ p. p.array) (pushes_from w (i + 1) n) = cc in
    last_numbered w (i + 1) n before later last tail ∙ ap (numbered w) (omega arith)

-- The client never finds a wrong word. The server has pushed its numbered messages to a client that
-- stays, each of them until it was accepted, and the client has pulled some of them, each in a process
-- whose channel is connected and on which nothing has passed before, for a width more than 0. Where
-- the connection has handed out a first part of the bytes that it was given, and usleep() sends
-- nothing, the client ends well, or at a pull that failed.
pub pull_numbered-push_numbered :
    (os : Os) (stream : IsStream os) (usleep sleep : os.World → os.World)
    (tries fuel fuel' w n n' i fd j fd' : ℕ) (s s' : MultisimServer.State os.World)
    (c c' : MultisimClient.State os.World) (v : Verdict) (rest : Bytes) (m k : ℕ)
    → 0 < w
    → IsAlive os fd
    → ((x : os.World) → stream.sent (usleep x) fd ≡ stream.sent x fd)
    → ServerHolds os stream sw (codes "ch") w false i fd s
    → ClientHolds os stream sw (codes "ch") w false j fd' c
    → stream.sent s.world fd ≡ []
    → stream.got c.world fd' ≡ []
    → push_numbered os usleep sleep tries fuel w n 0 s ≡ returned s'
    → pull_numbered os usleep sleep fuel' w n' 0 c ≡ returned (v, c')
    → stream.sent s'.world fd ≡ stream.got c'.world fd' ++ rest
    → v ≢ bad_word m k
pull_numbered-push_numbered os stream usleep sleep tries fuel fuel' w n n' i fd j fd' s s' c c' v
      rest m k wide alive quiet hs hc unsent untaken pushes pulls on e =
    let pushed =
      push_numbered-ServerPushes os stream usleep sleep i fd w wide alive quiet tries fuel n 0 s s'
        hs pushes in
    let x =
      pull_numbered-Wrong os stream usleep sleep j fd' w fuel' n' 0 m k c c' hc
        (pulls ∙ ap (λ u. returned (u, c')) e) in
    let (later, order, _) =
      fifo_down os stream sw sw (codes "ch") w false (inl refl) wide i fd j fd' s s' c c'
        (pushes_from w 0 n) (x.before ++ x.last ∷ []) rest pushed hs x.pulls hc unsent untaken on in
    let right = last_numbered w 0 n x.before later x.last order in
    some-ne-none x.k (
      sym x.wrong
      ∙ ap (first_bad (0 + length x.before) 0) right
      ∙ first_bad-numbered w (0 + length x.before))
