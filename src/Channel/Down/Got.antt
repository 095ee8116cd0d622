-- ===== src/Channel/Down/Got.antt =====
-- What a client's run of pulls takes off the stream.
use multisim.Base.{
  ℕ, ◌≡◌, refl, sym, subst, ◌∙◌, ap, List, [], ◌∷◌, ◌++◌, Bool, Bytes, append_assoc, append-nil,
  arith, returned,
}
use multisim.Os.{Os}
use multisim.SocketIo.Stream.{IsStream}
use multisim.Data.{Target, buf_size}
use multisim.Data.Message.{Fits}
use multisim.MultisimClient
use multisim.MultisimClient.Transfer.{
  PullOutcome, delivered, nothing, ended, multisim_client_pull_core-PullOutcome,
}
use multisim.Channel.{ClientHolds, BrokeOff}
use multisim.Channel.Sent.{client_kept}
use multisim.Channel.Got.{arrived, Got}
use multisim.Channel.Down.{ClientPulls, pull_end, deliver, wait, pull_elsewhere}

module _ (os : Os) (stream : IsStream os) (t : Target) (name : Bytes) (width : ℕ)
    (is_4state : Bool) where
  pub delivered_client :
      (mem : List ℕ) (s : MultisimClient.State os.World) (i fd : ℕ)
      (p : MultisimClient.Pulled os.World) (after : Bytes) (ms : List (List ℕ))
      → Fits is_4state width mem
      → p.status ≡ 1
      → Got os stream t name width is_4state (stream.got p.state.world fd) after ms
      → PullOutcome os stream t is_4state width mem s fd p
      → Got os stream t name width is_4state (stream.got s.world fd) after (p.array ∷ ms)
  delivered_client mem s i fd p after ms m ok g (delivered bs whole st kept on arr) = record {
    chunks = record { bytes = bs; array = mem } ∷ g.chunks;
    good = (record { whole = whole; array_fits = m }, g.good);
    stream_after =
        g.stream_after
        ∙ ap (λ x. x ++ arrived g.chunks) on
        ∙ append_assoc (stream.got s.world fd) bs (arrived g.chunks);
    arrays = rw (arr, g.arrays) refl;
  }
  delivered_client mem s i fd p after ms m ok g (nothing st kept on arr) = absurd (omega arith)
  delivered_client mem s i fd p after ms m ok g (ended bs l st kept on) = absurd (omega arith)

  pub only_world :
      (mem : List ℕ) (s : MultisimClient.State os.World) (fd : ℕ)
      (p : MultisimClient.Pulled os.World)
      → PullOutcome os stream t is_4state width mem s fd p
      → p.state ≡ record s { world = p.state.world }
  only_world mem s fd p (delivered bs whole st kept on arr) = kept
  only_world mem s fd p (nothing st kept on arr) = kept
  only_world mem s fd p (ended bs l st kept on) = kept

  -- A pull that failed and did not break off inside the message has taken nothing.
  failed_got :
      (mem : List ℕ) (s : MultisimClient.State os.World) (fd : ℕ)
      (p : MultisimClient.Pulled os.World)
      → p.status ≡ 0
      → ¬ BrokeOff (buf_size is_4state width) (stream.got s.world fd) (stream.got p.state.world fd)
      → PullOutcome os stream t is_4state width mem s fd p
      → stream.got p.state.world fd ≡ stream.got s.world fd
  failed_got mem s fd p bad whole (delivered bs l st kept on arr) = absurd (omega arith)
  failed_got mem s fd p bad whole (nothing st kept on arr) = on
  failed_got mem s fd p bad whole (ended [] l st kept on) = on ∙ append-nil _
  failed_got mem s fd p bad whole (ended (b ∷ bs) l st kept on) =
      absurd (whole (b ∷ bs, omega arith, l, on))

  outcome :
      (i fd fuel : ℕ) (s : MultisimClient.State os.World) (mem stack : List ℕ)
      (p : MultisimClient.Pulled os.World)
      → Fits is_4state width mem
      → Fits is_4state width stack
      → ClientHolds os stream t name width is_4state i fd s
      → MultisimClient.multisim_client_pull_core os fuel t s name mem width is_4state stack
        ≡ returned p
      → PullOutcome os stream t is_4state width mem s fd p
  outcome i fd fuel s mem stack p m b h e =
      subst (λ f. PullOutcome os stream t is_4state width mem s f p) h.socket
        (multisim_client_pull_core-PullOutcome os stream fuel t s name mem width is_4state stack i p
          m b h.index e)

  -- Pulls that succeed take whole messages off the stream, one behind the other, and nothing else.
  pub got-ClientPulls :
      (i fd : ℕ) (s u : MultisimClient.State os.World) (ms : List (List ℕ))
      → ClientPulls os stream t name width is_4state i fd s ms u
      → ClientHolds os stream t name width is_4state i fd s
      → Got os stream t name width is_4state (stream.got s.world fd) (stream.got u.world fd) ms
  got-ClientPulls i fd s u ms pull_end h = record {
    chunks = [];
    good = tt;
    stream_after = sym (append-nil _);
    arrays = refl;
  }
  got-ClientPulls i fd s u ms (deliver {ms = rest} fuel mem stack p m b e ok run) h =
      let out = outcome i fd fuel s mem stack p m b h e in
      let h' =
        client_kept os stream t name width is_4state i fd s p.state (only_world mem s fd p out) h in
      delivered_client mem s i fd p (stream.got u.world fd) rest m ok
        (got-ClientPulls i fd p.state u rest run h') out
  got-ClientPulls i fd s u ms (wait fuel mem stack p m b e bad whole run) h =
      let out = outcome i fd fuel s mem stack p m b h e in
      let same = failed_got mem s fd p bad whole out in
      let h' =
        client_kept os stream t name width is_4state i fd s p.state (only_world mem s fd p out) h in
      rw same at (got-ClientPulls i fd p.state u ms run h')
  got-ClientPulls i fd s u ms (pull_elsewhere {s' = s'} h' same run) h =
      rw same at (got-ClientPulls i fd s' u ms run h')
