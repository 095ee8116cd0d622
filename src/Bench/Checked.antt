-- ===== src/Bench/Checked.antt =====
-- The client and the server of bench.cpp (example/sw_server/sw_client/bench) together, in the mode
-- `stream`.
use multisim.Base.{
  IsByte, ℕ, zero, suc, ◌+◌, ◌%◌, ◌^◌, ◌≡◌, ◌≢◌, ◌∙◌, ◌<◌, refl, ap, subst, inl, true, false, List,
  [], ◌∷◌, ◌++◌, ==_iff, map, All, Bytes, codes, length, length-set, get_or-set_self, returned,
  arith,
}
use multisim.Os.{Os}
use multisim.SocketIo.Stream.{IsStream}
use multisim.SocketIo.Alive.{IsAlive, IsFed}
use multisim.Data.{sw, buf_words, buf_32b_size}
use multisim.Data.Message.{Fits}
use multisim.MultisimServer
use multisim.MultisimClient
use multisim.Channel.{ClientHolds, ServerHolds}
use multisim.Channel.Down.Order.{fifo_down}
use multisim.Bench.{stream, number, is_numbered, Ended, bad_data, client_rounds, stream_rounds}
use multisim.Bench.Push.{pushes_from, stream_rounds-ServerPushes}
use multisim.Bench.Pull.{client_rounds-Wrong}

is_numbered-number : (i : ℕ) (buf : List ℕ) → 0 < length buf → is_numbered i (number i buf) ≡ true
is_numbered-number i buf h = (==_iff _ (i % 2 ^ 32)).1 (get_or-set_self buf 0 (i % 2 ^ 32) 0 h)

last_numbered :
    (i n : ℕ) (buf : List ℕ) (before later : List (List ℕ)) (last : List ℕ)
    → 0 < length buf
    → (before ++ last ∷ []) ++ later ≡ map (λ p. p.array) (pushes_from i n buf)
    → is_numbered (i + length before) last ≡ true
last_numbered i zero buf [] later last h e = absurd cc
last_numbered i zero buf (b ∷ before) later last h e = absurd cc
last_numbered i (suc n) buf [] later last h e =
    let here : last ≡ number i buf = cc in
    let index : i + 0 ≡ i = omega arith in rw (here, index) (is_numbered-number i buf h)
last_numbered i (suc n) buf (b ∷ before) later last h e =
    let tail : (before ++ last ∷ []) ++ later
        ≡ map (λ p. p.array) (pushes_from (i + 1) n (number i buf)) =
      cc in
    let index : i + 1 + length before ≡ i + suc (length before) = omega arith in
    subst (λ j. is_numbered j last ≡ true) index
      (last_numbered (i + 1) n (number i buf) before later last
        (omega (arith, length-set buf 0 (i % 2 ^ 32))) tail)

length-pos : (w : ℕ) (buf : List ℕ) → 0 < w → Fits false w buf → 0 < length buf
unfolding buf_words buf_32b_size
length-pos w buf h f = omega (arith, f.sized)

-- In the mode `stream` the client never sees bad data. The server has pushed its messages to a client
-- that stays, each until it was accepted, and the client has pulled some of them from a server that
-- stays, each until one came, in processes whose channel is connected and on which nothing has passed
-- before, for a width more than 0 and buffers of its size. Where the connection hands out bytes, a
-- first part of those that it was given, the client does not end at a bad word.
pub client_rounds-stream_rounds :
    (os : Os) (str : IsStream os) (tries tries' fuel fuel' w n n' i fd j fd' m k : ℕ)
    (sbuf cbuf : List ℕ) (s : MultisimServer.State os.World)
    (r : Ended × MultisimServer.State os.World) (c : MultisimClient.State os.World)
    (v : Ended × MultisimClient.State os.World) (rest : Bytes)
    → 0 < w
    → Fits false w sbuf
    → Fits false w cbuf
    → IsAlive os fd
    → IsFed os fd'
    → ((x : os.World) → All IsByte (str.got x fd'))
    → ServerHolds os str sw (codes "rsp") w false i fd s
    → ClientHolds os str sw (codes "rsp") w false j fd' c
    → str.sent s.world fd ≡ []
    → str.got c.world fd' ≡ []
    → stream_rounds os tries fuel w n 0 sbuf s ≡ returned r
    → client_rounds os tries' fuel' stream w n' 0 cbuf c ≡ returned v
    → str.sent r.1.world fd ≡ str.got v.1.world fd' ++ rest
    → v.0 ≢ bad_data k m
client_rounds-stream_rounds os str tries tries' fuel fuel' w n n' i fd j fd' m k sbuf cbuf s r c v
      rest wide fs fc alive fed bytes hs hc unsent untaken pushes pulls on e =
    let pushed =
      stream_rounds-ServerPushes os str i fd w wide alive tries fuel n 0 sbuf s r fs hs pushes in
    let x =
      client_rounds-Wrong os str j fd' w wide fed bytes tries' fuel' n' 0 k m cbuf c v.1 fc hc
        (pulls ∙ ap (λ u. returned (u, v.1)) e) in
    let (later, order, _) =
      fifo_down os str sw sw (codes "rsp") w false (inl refl) wide i fd j fd' s r.1 c v.1
        (pushes_from 0 n sbuf) (x.before ++ x.last ∷ []) rest pushed hs x.pulls hc unsent untaken
        on in
    let right = last_numbered 0 n sbuf x.before later x.last (length-pos w sbuf wide fs) order in
    let wrong = x.wrong in absurd cc
