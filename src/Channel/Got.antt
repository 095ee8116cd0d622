-- ===== src/Channel/Got.antt =====
-- What a run of pulls takes off the stream.
use multisim.Base.{
  ℕ, ◌≡◌, ◌==◌, ==_iff, refl, sym, ◌∙◌, ap, true, List, [], ◌∷◌, ◌++◌, map, All, Bool, Bytes,
  length, append_assoc, append-nil, arith, none, some, returned,
}
use multisim.Os.{Os, Ret}
use multisim.SocketIo.Stream.{IsStream}
use multisim.Names.{find}
use multisim.Data.{Target, buf_size, pulled}
use multisim.Data.Message.{Fits}
use multisim.MultisimServer.{update}
use multisim.MultisimServer
use multisim.MultisimServer.Pull.{
  PullOutcome, delivered, nothing, lost, multisim_server_pull_core-PullOutcome,
}
use multisim.Channel.{ServerHolds, Pulls, pull_end, deliver, wait, pull_elsewhere}
use multisim.Channel.Sent.{flat}

-- A message as it arrived, and the array that it arrived in as that was before.
pub record Chunk : Type 0 where
  pub bytes : Bytes
  pub array : List ℕ

-- The bytes of all messages that arrived.
abbrev pub arrived : List Chunk → Bytes
arrived cs = flat (map (λ c. c.bytes) cs)

module _ (os : Os) (stream : IsStream os) (t : Target) (name : Bytes) (width : ℕ)
    (is_4state : Bool) where
  pub record IsChunk (c : Chunk) : Type 0 where
    pub whole : length c.bytes ≡ buf_size is_4state width
    pub array_fits : Fits is_4state width c.array

  abbrev pub arrival : Chunk → List ℕ
  arrival c = pulled t is_4state width c.array c.bytes

  -- What pulls took off the stream from `before` to `after` that gave the arrays `ms`.
  pub record Got (before after : Bytes) (ms : List (List ℕ)) : Type 0 where
    pub chunks : List Chunk
    pub good : All IsChunk chunks
    pub stream_after : after ≡ before ++ arrived chunks
    pub arrays : ms ≡ map arrival chunks

  pub server_kept :
      (i fd : ℕ) (s s' : MultisimServer.State os.World) (w : os.World)
      → s' ≡ record s { world = w }
      → ServerHolds os stream t name width is_4state i fd s
      → ServerHolds os stream t name width is_4state i fd s'
  server_kept i fd s s' w e h = record {
    index = ap (λ v. find name v.server_name_to_idx) e ∙ h.index;
    socket = ap (λ v. v.sockets i) e ∙ h.socket;
  }

  delivered_got :
      (mem : List ℕ) (s u : MultisimServer.State os.World) (i fd : ℕ) (ms : List (List ℕ))
      (r : Ret × Bytes × os.World) (p : MultisimServer.Pulled os.World)
      → Fits is_4state width mem
      → ServerHolds os stream t name width is_4state i fd s
      → p.status ≡ 1
      → (ServerHolds os stream t name width is_4state i fd p.state
          → Got (stream.got p.state.world fd) (stream.got u.world fd) ms)
      → PullOutcome os stream t is_4state width mem s i fd r p
      → Got (stream.got s.world fd) (stream.got u.world fd) (p.array ∷ ms)
  delivered_got mem s u i fd ms r p m h ok later (delivered bs whole st kept on arr) =
      let g = later (server_kept i fd s p.state r.2 kept h) in
      record {
        chunks = record { bytes = bs; array = mem } ∷ g.chunks;
        good = (record { whole = whole; array_fits = m }, g.good);
        stream_after =
            g.stream_after
            ∙ ap (λ x. x ++ arrived g.chunks) (ap (λ v. stream.got v.world fd) kept ∙ on)
            ∙ append_assoc (stream.got s.world fd) bs (arrived g.chunks);
        arrays = rw (arr, g.arrays) refl;
      }
  delivered_got mem s u i fd ms r p m h ok later (nothing er same st kept on arr) =
      absurd (omega arith)
  delivered_got mem s u i fd ms r p m h ok later (lost same st kept) = absurd (omega arith)

  waited_got :
      (mem : List ℕ) (s u : MultisimServer.State os.World) (i fd : ℕ) (ms : List (List ℕ))
      (r : Ret × Bytes × os.World) (p : MultisimServer.Pulled os.World)
      → ServerHolds os stream t name width is_4state i fd s
      → p.status ≡ 0
      → p.state.sockets i ≡ some fd
      → (ServerHolds os stream t name width is_4state i fd p.state
          → Got (stream.got p.state.world fd) (stream.got u.world fd) ms)
      → PullOutcome os stream t is_4state width mem s i fd r p
      → Got (stream.got s.world fd) (stream.got u.world fd) ms
  waited_got mem s u i fd ms r p h ok c later (delivered bs whole st kept on arr) =
      absurd (omega arith)
  waited_got mem s u i fd ms r p h ok c later (nothing er same st kept on arr) =
      rw (ap (λ v. stream.got v.world fd) kept ∙ on) at
        (later (server_kept i fd s p.state r.2 kept h))
  waited_got mem s u i fd ms r p h ok c later (lost same st kept) =
      let self : (i == i) ≡ true = (==_iff i i).1 refl in
      let gone : p.state.sockets i ≡ none = ap (λ v. v.sockets i) kept ∙ rw self refl in absurd cc

  outcome :
      (i fd fuel : ℕ) (s : MultisimServer.State os.World) (mem stack : List ℕ)
      (p : MultisimServer.Pulled os.World)
      → Fits is_4state width mem
      → Fits is_4state width stack
      → ServerHolds os stream t name width is_4state i fd s
      → MultisimServer.multisim_server_pull_core os fuel t s name mem width is_4state stack
        ≡ returned p
      → (r : Ret × Bytes × os.World) × PullOutcome os stream t is_4state width mem s i fd r p
  outcome i fd fuel s mem stack p m b h e =
      let (r, _, out) =
        multisim_server_pull_core-PullOutcome os stream fuel t s name mem width is_4state stack i fd
          p m b h.index h.socket e in
      (r, out)

  -- Pulls that succeed take whole messages off the stream, one behind the other, and nothing else.
  pub got-Pulls :
      (i fd : ℕ) (s u : MultisimServer.State os.World) (ms : List (List ℕ))
      → Pulls os stream t name width is_4state i fd s ms u
      → ServerHolds os stream t name width is_4state i fd s
      → Got (stream.got s.world fd) (stream.got u.world fd) ms
  got-Pulls i fd s u ms pull_end h = record {
    chunks = [];
    good = tt;
    stream_after = sym (append-nil _);
    arrays = refl;
  }
  got-Pulls i fd s u ms (deliver {ms = rest} fuel mem stack p m b e ok run) h =
      let (r, out) = outcome i fd fuel s mem stack p m b h e in
      delivered_got mem s u i fd rest r p m h ok (got-Pulls i fd p.state u rest run) out
  got-Pulls i fd s u ms (wait fuel mem stack p m b e ok c run) h =
      let (r, out) = outcome i fd fuel s mem stack p m b h e in
      waited_got mem s u i fd ms r p h ok c (got-Pulls i fd p.state u ms run) out
  got-Pulls i fd s u ms (pull_elsewhere {s' = s'} h' same run) h =
      rw same at (got-Pulls i fd s' u ms run h')
