-- ===== src/StreamTest/Pull.antt =====
-- The client of stream.cpp (example/sw_server/sw_client/unit): what it has pulled where it finds a
-- wrong word.
use multisim.Base.{
  ℕ, zero, suc, ◌+◌, ◌≡◌, ◌∙◌, refl, ap, subst, true, false, List, [], ◌∷◌, ◌++◌, ◌==◌, ==_iff, All,
  Run, codes, length, Option, none, some, returned, returned-injective, >>=-eq-returned, arith,
}
use multisim.Os.{Os}
use multisim.SocketIo.Stream.{IsStream}
use multisim.Names.{find}
use multisim.Data.{sw, buf_32b_size, buf_words}
use multisim.Data.Words.{IsWord}
use multisim.Data.Message.{Fits}
use multisim.MultisimServer.{success}
use multisim.MultisimClient.{State, Pulled, multisim_client_pull, multisim_client_pull_core}
use multisim.MultisimClient.Transfer.{
  PullOutcome, delivered, nothing, ended, multisim_client_pull_core-PullOutcome,
}
use multisim.Channel.{ClientHolds}
use multisim.Channel.Down.{ClientPulls}
use multisim.StreamTest.{
  word_of, fill, numbered, ones, first_bad, Verdict, passed, pull_failed, bad_word, checked, judged,
  pull_numbered,
}

first_bad-fill : (i k n : ℕ) → first_bad i k (fill i k n) ≡ none
unfolding first_bad
first_bad-fill i k zero = refl
first_bad-fill i k (suc n) =
    let same : (word_of i k == word_of i k) ≡ true = (==_iff (word_of i k) (word_of i k)).1 refl in
    rw same (first_bad-fill i (k + 1) n)

pub first_bad-numbered : (w i : ℕ) → first_bad i 0 (numbered w i) ≡ none
unfolding numbered
first_bad-numbered w i = first_bad-fill i 0 (buf_32b_size w)

ones_words : (n : ℕ) → (length (ones n) ≡ n) × All IsWord (ones n)
ones_words zero = (refl, tt)
ones_words (suc n) = let (l, a) = ones_words n in (ap suc l, (omega arith, a))

ones-Fits : (w : ℕ) → Fits false w (ones (buf_32b_size w))
unfolding buf_words
ones-Fits w = let (l, a) = ones_words (buf_32b_size w) in record { sized = l; words = a }

shift : (i n : ℕ) → i + 1 + n ≡ i + suc n
shift i n = omega arith

plus_none : (i : ℕ) → i ≡ i + 0
plus_none i = omega arith

module _ (os : Os) (stream : IsStream os) (usleep sleep : os.World → os.World) (idx fd w : ℕ) where
  abbrev Holds : State os.World → Type 0
  Holds = ClientHolds os stream sw (codes "ch") w false idx fd

  abbrev GotFrom : State os.World → List (List ℕ) → State os.World → Type 0
  GotFrom = ClientPulls os stream sw (codes "ch") w false idx fd

  succeeds :
      (s : State os.World) (mem : List ℕ) (r : ℕ) (p : Pulled os.World)
      → p.status ≡ suc r
      → Holds s
      → PullOutcome os stream sw false w mem s (s.sockets idx) p
      → (p.status ≡ success) × Holds p.state
  succeeds s mem r p h k (delivered t l st e g arr) = (
    st,
    record {
      index = ap (λ v. find (codes "ch") v.server_name_to_idx) e ∙ k.index;
      socket = ap (λ v. v.sockets idx) e ∙ k.socket;
    },
  )
  succeeds s mem r p h k (nothing st e g arr) = absurd (omega arith)
  succeeds s mem r p h k (ended t m st e g) = absurd (omega arith)

  -- The arrays pulled before, and the wrong one behind them.
  pub record Wrong (i : ℕ) (s s' : State os.World) : Type 0 where
    pub before : List (List ℕ)
    pub last : List ℕ
    pub pulls : GotFrom s (before ++ last ∷ []) s'
    pub k : ℕ
    pub wrong : first_bad (i + length before) 0 last ≡ some k

  later-Wrong :
      (fuel i : ℕ) (s s' : State os.World) (p : Pulled os.World)
      → multisim_client_pull_core os fuel sw s (codes "ch") (ones (buf_32b_size w)) w false []
        ≡ returned p
      → p.status ≡ success
      → Wrong (i + 1) p.state s'
      → Wrong i s s'
  unfolding multisim_client_pull_core
  later-Wrong fuel i s s' p e st v = record {
    before = p.array ∷ v.before;
    last = v.last;
    pulls =
        ClientPulls.deliver fuel (ones (buf_32b_size w)) (ones (buf_32b_size w)) p (ones-Fits w)
          (ones-Fits w) e st v.pulls;
    k = v.k;
    wrong = subst (λ j. first_bad j 0 v.last ≡ some v.k) (shift i (length v.before)) v.wrong;
  }

  checked-Wrong :
      (fuel i m n : ℕ) (s s' : State os.World) (p : Pulled os.World)
      (next : Run (Verdict × State os.World)) (bad : Option ℕ)
      → first_bad i 0 p.array ≡ bad
      → multisim_client_pull_core os fuel sw s (codes "ch") (ones (buf_32b_size w)) w false []
        ≡ returned p
      → p.status ≡ success
      → (next ≡ returned (bad_word m n, s') → Wrong (i + 1) p.state s')
      → checked os usleep sleep i bad p.state next ≡ returned (bad_word m n, s')
      → Wrong i s s'
  unfolding checked multisim_client_pull_core
  checked-Wrong fuel i m n s s' p next none b e st ih out = later-Wrong fuel i s s' p e st (ih out)
  checked-Wrong fuel i m n s s' p next (some k) b e st ih out =
      let same : p.state ≡ s' =
        ap (λ (x : Verdict × State os.World). x.1) (returned-injective out) in
      subst (Wrong i s) same (record {
        before = [];
        last = p.array;
        pulls =
            ClientPulls.deliver fuel (ones (buf_32b_size w)) (ones (buf_32b_size w)) p (ones-Fits w)
              (ones-Fits w) e st ClientPulls.pull_end;
        k = k;
        wrong = subst (λ j. first_bad j 0 p.array ≡ some k) (plus_none i) b;
      })

  judged-Wrong :
      (fuel i m n : ℕ) (s s' : State os.World) (p : Pulled os.World)
      (next : Run (Verdict × State os.World)) (status : ℕ)
      → Holds s
      → p.status ≡ status
      → multisim_client_pull_core os fuel sw s (codes "ch") (ones (buf_32b_size w)) w false []
        ≡ returned p
      → (Holds p.state → next ≡ returned (bad_word m n, s') → Wrong (i + 1) p.state s')
      → judged os usleep sleep i status p.array p.state next ≡ returned (bad_word m n, s')
      → Wrong i s s'
  unfolding judged multisim_client_pull_core
  judged-Wrong fuel i m n s s' p next zero h z e ih out =
      let bad : pull_failed i ≡ bad_word m n =
        ap (λ (x : Verdict × State os.World). x.0) (returned-injective out) in
      absurd cc
  judged-Wrong fuel i m n s s' p next (suc r) h z e ih out =
      let (st, h') = succeeds s (ones (buf_32b_size w)) r p z h (
        multisim_client_pull_core-PullOutcome os stream fuel sw s (codes "ch")
          (ones (buf_32b_size w)) w false (ones (buf_32b_size w)) idx p (ones-Fits w) (ones-Fits w)
          h.index e) in
      checked-Wrong fuel i m n s s' p next (first_bad i 0 p.array) refl e st (ih h') out

  pub pull_numbered-Wrong :
      (fuel left i m n : ℕ) (s s' : State os.World)
      → Holds s
      → pull_numbered os usleep sleep fuel w left i s ≡ returned (bad_word m n, s')
      → Wrong i s s'
  unfolding pull_numbered multisim_client_pull
  pull_numbered-Wrong fuel zero i m n s s' h e =
      let bad : passed ≡ bad_word m n =
        ap (λ (x : Verdict × State os.World). x.0) (returned-injective e) in
      absurd cc
  pull_numbered-Wrong fuel (suc left) i m n s s' h e =
      let (p, pulls, out) =
        >>=-eq-returned
          (multisim_client_pull_core os fuel sw s (codes "ch") (ones (buf_32b_size w)) w false []) _
          e in
      judged-Wrong fuel i m n s s' p (pull_numbered os usleep sleep fuel w left (i + 1) p.state)
        p.status h refl pulls (λ h' e'. pull_numbered-Wrong fuel left (i + 1) m n p.state s' h' e')
        out
