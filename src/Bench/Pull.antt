-- ===== src/Bench/Pull.antt =====
-- The client of bench.cpp (example/sw_server/sw_client/bench) in the mode `stream`: what it has
-- pulled where it finds bad data.
use native.Mathlib.Decide.{ℕ_discrete}
use multisim.Base.{
  IsByte, ℕ, zero, suc, ◌+◌, ◌≡◌, ◌≢◌, ◌∙◌, ◌<◌, sym, ap, subst, inl, inr, Bool-cases, true, false,
  List, [], ◌∷◌, ◌++◌, ◌==◌, ==_iff, All, Bytes, codes, length, returned, returned-injective,
  >>=-eq-returned, arith,
}
use multisim.Os.{Os}
use multisim.SocketIo.Stream.{IsStream}
use multisim.SocketIo.Alive.{IsFed}
use multisim.Names.{find}
use multisim.Data.{sw, buf_32b_size, buf_words, buf_size, pulled}
use multisim.Data.Message.{Fits}
use multisim.MultisimClient.{State, Pulled, multisim_client_pull, multisim_client_pull_core}
use multisim.MultisimClient.Alive.{
  from_bytes-IsWord, All-append_right, multisim_client_pull_core-Unmoved,
}
use multisim.MultisimClient.Transfer.{
  PullOutcome, delivered, nothing, ended, multisim_client_pull_core-PullOutcome,
}
use multisim.Channel.{not-BrokeOff, ClientHolds}
use multisim.Channel.Down.{ClientPulls}
use multisim.Bench.{
  stream, is_numbered, Ended, all_rounds, bad_data, client_pull, client_sends, client_receives,
  client_rounds,
}

buf_size_pos : (w : ℕ) → 0 < w → 0 < buf_size false w
unfolding buf_size buf_words buf_32b_size
buf_size_pos w h = omega arith

shift : (i n : ℕ) → i + 1 + n ≡ i + suc n
shift i n = omega arith

plus_none : (i : ℕ) → i ≡ i + 0
plus_none i = omega arith

module _ (os : Os) (str : IsStream os) (idx fd w : ℕ) (wide : 0 < w) (fed : IsFed os fd)
    (bytes : (v : os.World) → All IsByte (str.got v fd)) where
  abbrev Holds : State os.World → Type 0
  Holds = ClientHolds os str sw (codes "rsp") w false idx fd

  abbrev GotFrom : State os.World → List (List ℕ) → State os.World → Type 0
  GotFrom = ClientPulls os str sw (codes "rsp") w false idx fd

  only_world : (s s' : State os.World) → s' ≡ record s { world = s'.world } → Holds s → Holds s'
  only_world s s' e h = record {
    index = ap (λ v. find (codes "rsp") v.server_name_to_idx) e ∙ h.index;
    socket = ap (λ v. v.sockets idx) e ∙ h.socket;
  }

  taken-Fits :
      (buf : List ℕ) (taken : Bytes) (p : Pulled os.World)
      → length taken ≡ buf_size false w
      → All IsByte taken
      → p.array ≡ pulled sw false w buf taken
      → Fits false w p.array
  unfolding buf_size pulled
  taken-Fits buf taken p n v e =
      let (l, a) = from_bytes-IsWord (buf_words false w) taken n v in
      rw e (record { sized = l; words = a })

  -- One more array in front of what is pulled behind it.
  record Extends (buf : List ℕ) (s s' : State os.World) : Type 0 where
    pub fits : Fits false w buf
    pub holds : Holds s'
    pub extend :
        (ms : List (List ℕ)) (u : State os.World) → GotFrom s' ms u → GotFrom s (buf ∷ ms) u

  delivered-Extends :
      (fuel : ℕ) (buf : List ℕ) (s : State os.World) (p : Pulled os.World)
      → Fits false w buf
      → Holds s
      → multisim_client_pull_core os fuel sw s (codes "rsp") buf w false [] ≡ returned p
      → p.status ≢ 0
      → PullOutcome os str sw false w buf s (s.sockets idx) p
      → Extends p.array s p.state
  unfolding multisim_client_pull_core
  delivered-Extends fuel buf s p f h e some_data (delivered taken n st x g arr) =
      let all = rw (ap (str.got p.state.world) (sym h.socket) ∙ g) at (bytes p.state.world) in
      record {
        fits =
            taken-Fits buf taken p n (All-append_right (str.got s.world (s.sockets idx)) taken all)
              arr;
        holds = only_world s p.state x h;
        extend = λ ms u run. ClientPulls.deliver fuel buf buf p f f e st run;
      }
  delivered-Extends fuel buf s p f h e some_data (nothing st x g arr) = absurd (some_data st)
  delivered-Extends fuel buf s p f h e some_data (ended taken m st x g) = absurd (some_data st)

  client_pull-Extends :
      (tries fuel : ℕ) (buf buf' : List ℕ) (s s' : State os.World)
      → Fits false w buf
      → Holds s
      → client_pull os tries fuel w buf s ≡ returned (buf', s')
      → Extends buf' s s'
  unfolding client_pull multisim_client_pull multisim_client_pull_core
  client_pull-Extends zero fuel buf buf' s s' f h e = cc
  client_pull-Extends (suc tries) fuel buf buf' s s' f h e =
      let (p, pulls, out) =
        >>=-eq-returned (multisim_client_pull_core os fuel sw s (codes "rsp") buf w false []) _ e in
      elim (ℕ_discrete p.status 0) [
        | yes z ↦
            let test : (p.status == 0) ≡ true = (==_iff p.status 0).1 z in
            let same =
              multisim_client_pull_core-Unmoved os str fuel sw s (codes "rsp") buf w false buf idx p
                (subst (IsFed os) (sym h.socket) fed) (buf_size_pos w wide) f f h.index pulls z in
            let x =
              client_pull-Extends tries fuel p.array buf' p.state s' (rw same.array_same f)
                (only_world s p.state same.only_world h) (rw test at out) in
            record {
              fits = x.fits;
              holds = x.holds;
              extend = λ ms u run.
                  ClientPulls.wait fuel buf buf p f f pulls z
                    (not-BrokeOff _ (str.got s.world fd) (str.got p.state.world fd) (
                      ap (str.got p.state.world) (sym h.socket)
                      ∙ same.got_same
                      ∙ ap (str.got s.world) h.socket))
                    (x.extend ms u run);
            }
        | no n ↦
            let test : (p.status == 0) ≡ false = ground (arith, n) in
            let done : ◌≡◌ {A = List ℕ × State os.World} (p.array, p.state) (buf', s') =
              returned-injective (rw test at out) in
            let x = delivered-Extends fuel buf s p f h pulls n (
              multisim_client_pull_core-PullOutcome os str fuel sw s (codes "rsp") buf w false buf
                idx p f f h.index pulls) in
            subst (λ (v : List ℕ × State os.World). Extends v.0 s v.1) done x
      ]

  -- The arrays pulled before, and the one with bad data behind them.
  pub record Wrong (i : ℕ) (s s' : State os.World) : Type 0 where
    pub before : List (List ℕ)
    pub last : List ℕ
    pub pulls : GotFrom s (before ++ last ∷ []) s'
    pub wrong : is_numbered (i + length before) last ≡ false

  pub client_rounds-Wrong :
      (tries fuel left i n m : ℕ) (buf : List ℕ) (s s' : State os.World)
      → Fits false w buf
      → Holds s
      → client_rounds os tries fuel stream w left i buf s ≡ returned (bad_data n m, s')
      → Wrong i s s'
  unfolding client_rounds client_sends client_receives
  client_rounds-Wrong tries fuel zero i n m buf s s' f h e =
      let bad : all_rounds buf ≡ bad_data n m =
        ap (λ (x : Ended × State os.World). x.0) (returned-injective e) in
      absurd cc
  client_rounds-Wrong tries fuel (suc left) i n m buf s s' f h e =
      let (b, pulls, out) = >>=-eq-returned (client_pull os tries fuel w buf s) _ e in
      let x = client_pull-Extends tries fuel buf b.0 s b.1 f h pulls in
      elim (Bool-cases (is_numbered i b.0)) [
        | inl good ↦
            let later =
              client_rounds-Wrong tries fuel left (i + 1) n m b.0 b.1 s' x.fits x.holds
                (rw good at out) in
            record {
              before = b.0 ∷ later.before;
              last = later.last;
              pulls = x.extend (later.before ++ later.last ∷ []) s' later.pulls;
              wrong =
                  subst (λ j. is_numbered j later.last ≡ false) (shift i (length later.before))
                    later.wrong;
            }
        | inr bad ↦
            let same : b.1 ≡ s' =
              ap (λ (y : Ended × State os.World). y.1) (returned-injective (rw bad at out)) in
            subst (Wrong i s) same (record {
              before = [];
              last = b.0;
              pulls = x.extend [] b.1 ClientPulls.pull_end;
              wrong = subst (λ j. is_numbered j b.0 ≡ false) (plus_none i) bad;
            })
      ]
