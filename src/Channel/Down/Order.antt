-- ===== src/Channel/Down/Order.antt =====
-- What a server pushed into a channel is pulled from it, in the same order.
use multisim.Base.{
  ℕ, ◌*◌, ◌<◌, ◌≡◌, ◌∙◌, sym, ap, ◌⊎◌, Bool, false, List, [], ◌++◌, map, Bytes, length,
}
use multisim.Os.{Os}
use multisim.SocketIo.Stream.{IsStream}
use multisim.Data.{Target, buf_size}
use multisim.MultisimServer
use multisim.MultisimClient
use multisim.Channel.{Push, ClientHolds, ServerHolds}
use multisim.Channel.Order.{match_chunks}
use multisim.Channel.Down.{ServerPushes, ClientPulls}
use multisim.Channel.Down.Sent.{sent-ServerPushes}
use multisim.Channel.Down.Got.{got-ClientPulls}

module _ (os : Os) (stream : IsStream os) (ts tc : Target) (name : Bytes) (width : ℕ)
    (is_4state : Bool) (agree : (is_4state ≡ false) ⊎ (ts ≡ tc)) (wide : 0 < width) where
  -- First in, first out, from a server to a client. Both processes run, each from a state in which
  -- the channel is connected and nothing has passed on it yet, with any number of pushes and pulls,
  -- any of which may fail and be tried again as long as no failed push lost the client and no
  -- failed pull broke off inside a message, for data of one width more than 0, in 2-state for any
  -- two targets or in 4-state for one target. Where the connection has handed out a first part of
  -- the bytes that it was given, the arrays that the pulls gave are the first of those that were
  -- pushed, in order and unchanged, none twice and none left out; and as many more as are still to
  -- come are exactly the bytes that wait in the connection.
  pub fifo_down :
      (i fd j fd' : ℕ) (s s' : MultisimServer.State os.World) (c c' : MultisimClient.State os.World)
      (ps : List Push) (ms : List (List ℕ)) (rest : Bytes)
      → ServerPushes os stream ts name width is_4state i fd s ps s'
      → ServerHolds os stream ts name width is_4state i fd s
      → ClientPulls os stream tc name width is_4state j fd' c ms c'
      → ClientHolds os stream tc name width is_4state j fd' c
      → stream.sent s.world fd ≡ []
      → stream.got c.world fd' ≡ []
      → stream.sent s'.world fd ≡ stream.got c'.world fd' ++ rest
      → (later : List (List ℕ)) × (ms ++ later ≡ map (λ p. p.array) ps)
        × (length rest ≡ length later * buf_size is_4state width)
  fifo_down i fd j fd' s s' c c' ps ms rest pushes hs pulls hc none_sent none_got wire_on =
      let (good, sent) =
        sent-ServerPushes os stream ts name width is_4state i fd s s' ps pushes hs in
      let g = got-ClientPulls os stream tc name width is_4state j fd' c c' ms pulls hc in
      let sent_all = rw none_sent at sent in
      let got_all = rw none_got at g.stream_after in
      let flight =
        match_chunks os stream ts tc name width is_4state agree wide ps g.chunks rest good g.good
          (ap (λ x. x ++ rest) (sym got_all) ∙ sym wire_on ∙ sent_all) in
      (flight.later, ap (λ x. x ++ flight.later) g.arrays ∙ flight.order, flight.waiting)
