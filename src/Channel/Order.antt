-- ===== src/Channel/Order.antt =====
-- What was pushed into a channel is pulled from it, in the same order.
use multisim.Base.{
  ℕ, ◌*◌, ◌<◌, ◌≡◌, ◌∙◌, ◌≢◌, refl, sym, ap, ap₂, ◌⊎◌, inl, inr, Bool, true, false, List, [], ◌∷◌,
  ◌++◌, map, All, Bytes, length, append_inj, append_assoc, length-append, arith,
}
use multisim.Os.{Os}
use multisim.SocketIo.Stream.{IsStream}
use multisim.Data.{Target, buf_size, buf_words, buf_32b_size, message, pulled}
use multisim.Data.Message.{Fits, length-message, pulled-message}
use multisim.MultisimServer
use multisim.MultisimClient
use multisim.Channel.{Push, ClientHolds, ServerHolds, Pushes, Pulls}
use multisim.Channel.Sent.{flat, IsPush, wire, sent-Pushes}
use multisim.Channel.Got.{Chunk, arrived, arrival, IsChunk, got-Pulls}

buf_size_pos : (is_4state : Bool) (width : ℕ) → 0 < width → 0 < buf_size is_4state width
unfolding buf_size buf_words buf_32b_size
buf_size_pos true width h = omega arith
buf_size_pos false width h = omega arith

length-append-pos : (xs ys : Bytes) → 0 < length xs → xs ++ ys ≢ []
length-append-pos [] ys h e = absurd (omega arith)
length-append-pos (x ∷ xs) ys h e = absurd cc

-- 2-state messages have one form for all targets.
two_state_message :
    (ts tc : Target) (width : ℕ) (b : Bool) (mem stack mem' : List ℕ)
    → Fits b width mem
    → Fits b width stack
    → Fits b width mem'
    → b ≡ false
    → pulled ts b width mem' (message tc b width mem stack) ≡ mem
unfolding pulled message
two_state_message ts tc width true mem stack mem' m k m' e = absurd cc
two_state_message ts tc width false mem stack mem' m k m' e =
    pulled-message tc false width mem stack mem' m k m'

module _ (os : Os) (stream : IsStream os) (tc ts : Target) (name : Bytes) (width : ℕ)
    (is_4state : Bool) (agree : (is_4state ≡ false) ⊎ (tc ≡ ts)) (wide : 0 < width) where
  -- The pushes behind those that have arrived, and the bytes of theirs that wait.
  pub record InFlight (ps : List Push) (cs : List Chunk) (rest : Bytes) : Type 0 where
    pub later : List (List ℕ)
    pub order : map (arrival os stream ts name width is_4state) cs ++ later ≡ map (λ p. p.array) ps
    pub waiting : length rest ≡ length later * buf_size is_4state width

  two_state :
      (p : Push) (mem : List ℕ)
      → IsPush os stream tc name width is_4state p
      → Fits is_4state width mem
      → is_4state ≡ false
      → pulled ts is_4state width mem (wire os stream tc name width is_4state p) ≡ p.array
  two_state p mem v m two =
      two_state_message ts tc width is_4state p.array p.stack mem v.array_fits v.stack_fits m two

  same_array :
      (p : Push) (mem : List ℕ)
      → IsPush os stream tc name width is_4state p
      → Fits is_4state width mem
      → pulled ts is_4state width mem (wire os stream tc name width is_4state p) ≡ p.array
  same_array p mem v m = elim agree [
    | inl two ↦ two_state p mem v m two
    | inr same ↦
        rw same (pulled-message ts is_4state width p.array p.stack mem v.array_fits v.stack_fits m)
  ]

  length-wires :
      (ps : List Push)
      → All (IsPush os stream tc name width is_4state) ps
      → length (flat (map (wire os stream tc name width is_4state) ps))
        ≡ length (map (λ p. p.array) ps) * buf_size is_4state width
  length-wires [] v = omega arith
  length-wires (p ∷ ps) (v, vs) = omega (
    arith,
    length-append (wire os stream tc name width is_4state p)
        (flat (map (wire os stream tc name width is_4state) ps)),
    length-message tc is_4state width p.array p.stack v.array_fits v.stack_fits,
    length-wires ps vs,
  )

  -- Messages have one length, so the bytes that arrived split where those that were sent do.
  pub match_chunks :
      (ps : List Push) (cs : List Chunk) (rest : Bytes)
      → All (IsPush os stream tc name width is_4state) ps
      → All (IsChunk os stream ts name width is_4state) cs
      → arrived cs ++ rest ≡ flat (map (wire os stream tc name width is_4state) ps)
      → InFlight ps cs rest
  match_chunks ps [] rest v k e = record {
    later = map (λ p. p.array) ps;
    order = refl;
    waiting = ap length e ∙ length-wires ps v;
  }
  match_chunks [] (c ∷ cs) rest v (k, ks) e = absurd (
      length-append-pos c.bytes (arrived cs ++ rest)
        (omega (arith, k.whole, buf_size_pos is_4state width wide))
        (sym (append_assoc c.bytes (arrived cs) rest) ∙ e))
  match_chunks (p ∷ ps) (c ∷ cs) rest (v, vs) (k, ks) e =
      let msg = wire os stream tc name width is_4state p in
      let (head, tail) = append_inj c.bytes msg (sym (append_assoc c.bytes (arrived cs) rest) ∙ e) (
        k.whole
        ∙ sym (length-message tc is_4state width p.array p.stack v.array_fits v.stack_fits)) in
      let ih = match_chunks ps cs rest vs ks tail in
      let here : arrival os stream ts name width is_4state c ≡ p.array =
        ap (pulled ts is_4state width c.array) head ∙ same_array p c.array v k.array_fits in
      record { later = ih.later; order = ap₂ ◌∷◌ here ih.order; waiting = ih.waiting }

  -- First in, first out. A connected client and server process run, each from a state in which
  -- nothing has passed on the channel yet, with any number of pushes and pulls, any of which may
  -- fail and be tried again as long as no failed push broke off inside its message and no failed
  -- pull lost the client, for data of one width more than 0, in 2-state for any two targets or in
  -- 4-state for one target. Where the connection has handed out a first part of the bytes that it
  -- was given, the arrays that the pulls gave are the first of those that were pushed, in order and
  -- unchanged, none twice and none left out; and as many more as are still to come are exactly the
  -- bytes that wait in the connection.
  pub fifo :
      (i fd j fd' : ℕ) (c c' : MultisimClient.State os.World) (s s' : MultisimServer.State os.World)
      (ps : List Push) (ms : List (List ℕ)) (rest : Bytes)
      → Pushes os stream tc name width is_4state i fd c ps c'
      → ClientHolds os stream tc name width is_4state i fd c
      → Pulls os stream ts name width is_4state j fd' s ms s'
      → ServerHolds os stream ts name width is_4state j fd' s
      → stream.sent c.world fd ≡ []
      → stream.got s.world fd' ≡ []
      → stream.sent c'.world fd ≡ stream.got s'.world fd' ++ rest
      → (later : List (List ℕ)) × (ms ++ later ≡ map (λ p. p.array) ps)
        × (length rest ≡ length later * buf_size is_4state width)
  fifo i fd j fd' c c' s s' ps ms rest pushes hc pulls hs none_sent none_got wire_on =
      let (good, sent) = sent-Pushes os stream tc name width is_4state i fd c c' ps pushes hc in
      let g = got-Pulls os stream ts name width is_4state j fd' s s' ms pulls hs in
      let sent_all = rw none_sent at sent in
      let got_all = rw none_got at g.stream_after in
      let flight =
        match_chunks ps g.chunks rest good g.good
          (ap (λ x. x ++ rest) (sym got_all) ∙ sym wire_on ∙ sent_all) in
      (flight.later, ap (λ x. x ++ flight.later) g.arrays ∙ flight.order, flight.waiting)
