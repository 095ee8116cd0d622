-- ===== src/SwClient/Coherent.antt =====
-- sw_client.cpp and sw_server.cpp (example/sw_server/sw_client/read_write/src) together: a memory.
use multisim.Base.{
  ℕ, suc, ◌≡◌, ◌≢◌, ◌∙◌, ◌<◌, ◌≤◌, ◌^◌, ◌%◌, inl, inr, refl, sym, ap, List, [], ◌∷◌, Bytes, codes,
  false, arith, ◌++◌, length, map, length-append, append-nil, Bool-cases, ◌==◌,
}
use multisim.Os.{Os}
use multisim.SocketIo.Stream.{IsStream}
use multisim.SocketIo.Separate.{IsSeparate}
use multisim.Data.{sw}
use multisim.Channel.{Push}
use multisim.Channel.Order.{fifo}
use multisim.Channel.Down.Order.{fifo_down}
use multisim.MultisimServer.{update}
use multisim.MultisimServer
use multisim.MultisimClient
use multisim.SwServer.{words, dword, process}
use multisim.SwServer.Ready.{Different, Ready as ServerReady}
use multisim.SwServer.Session.{memory_after, responses, Session-Processed, Session as ServerSession}
use multisim.SwClient.{command}
use multisim.SwClient.Exchange.{Ready as ClientReady}
use multisim.SwClient.Session.{
  Op, wrote, was_read, Exchanged, exchanged_none, exchanged_write, exchanged_read, push_of,
  Session-Asked, Session as ClientSession,
}

-- What calls in order see of a memory of 256 words: a read gives what the last write to its address
-- has stored, where addresses are taken modulo 256.
abbrev pub Coherent : (ℕ → ℕ) → List Op → Type 0
Coherent mem [] = Unit {0}
Coherent mem (wrote address wdata ∷ ops) = Coherent (update mem (address % 256) wdata) ops
Coherent mem (was_read address v ∷ ops) = (v ≡ mem (address % 256)) × Coherent mem ops

abbrev pub stored : (ℕ → ℕ) → List Op → ℕ → ℕ
stored mem [] = mem
stored mem (wrote address wdata ∷ ops) = stored (update mem (address % 256) wdata) ops
stored mem (was_read address v ∷ ops) = stored mem ops

abbrev IsMemory : (ℕ → ℕ) → Type 0
IsMemory mem = (i : ℕ) → mem i < 2 ^ 64

dword-words : (v : ℕ) → v < 2 ^ 64 → dword (words v) 0 ≡ v
dword-words v h = omega arith

update-IsMemory : (mem : ℕ → ℕ) (i v : ℕ) → IsMemory mem → v < 2 ^ 64 → IsMemory (update mem i v)
update-IsMemory mem i v h k j = elim (Bool-cases (j == i)) [ inl e ↦ rw e k | inr e ↦ rw e (h j) ]

process-write :
    (mem : ℕ → ℕ) (address wdata : ℕ)
    → address < 2 ^ 64
    → wdata < 2 ^ 64
    → process mem (command 0 address wdata) ≡ (0, update mem (address % 256) wdata)
unfolding process
process-write mem address wdata a w =
    let ea : dword (command 0 address wdata) 1 ≡ address = omega arith in
    let ew : dword (command 0 address wdata) 2 ≡ wdata = omega arith in rw (ea, ew) refl

process-read :
    (mem : ℕ → ℕ) (address cmd2 : ℕ)
    → address < 2 ^ 64
    → process mem (command 1 address cmd2) ≡ (mem (address % 256), mem)
unfolding process
process-read mem address cmd2 a =
    let ea : dword (command 1 address cmd2) 1 ≡ address = omega arith in rw ea refl

abbrev arrays : List Push → List (List ℕ)
arrays = map (λ p. p.array)

cons-injective :
    {x y : List ℕ} {xs ys : List (List ℕ)}
    → ◌≡◌ {A = List (List ℕ)} (x ∷ xs) (y ∷ ys)
    → (x ≡ y) × (xs ≡ ys)
cons-injective e = (cc, cc)

Exchanged-Coherent :
    (mem : ℕ → ℕ) (ops : List Op) (cmds rsps : List (List ℕ))
    → Exchanged ops cmds rsps
    → IsMemory mem
    → rsps ≡ arrays (responses mem cmds)
    → Coherent mem ops × (memory_after mem cmds ≡ stored mem ops)
Exchanged-Coherent mem ops cmds rsps exchanged_none h e = (tt, refl)
Exchanged-Coherent mem ops cmds rsps
      (exchanged_write {ops = rest} {cmds = cs} {rsps = rs} address wdata rsp al wl x) h e =
    let done = process-write mem address wdata al wl in
    let tail = rw done at (cons-injective e).1 in
    rw done (
      Exchanged-Coherent (update mem (address % 256) wdata) rest cs rs x
        (update-IsMemory mem (address % 256) wdata h wl) tail)
Exchanged-Coherent mem ops cmds rsps
      (exchanged_read {ops = rest} {cmds = cs} {rsps = rs} address cmd2 rsp al cl x) h e =
    let done = process-read mem address cmd2 al in
    let (head, tail) = cons-injective e in
    let value : dword rsp 0 ≡ mem (address % 256) =
      ap (λ r. dword r 0) (rw done at head)
      ∙ dword-words (mem (address % 256)) (h (address % 256)) in
    let (good, last) = Exchanged-Coherent mem rest cs rs x h (rw done at tail) in
    ((value, good), rw done last)

all-responses :
    (mem : ℕ → ℕ) (cmds : List (List ℕ)) → length (arrays (responses mem cmds)) ≡ length cmds
all-responses mem [] = refl
all-responses mem (c ∷ cs) = ap suc (all-responses (process mem c).1 cs)

all-pushes : (cmds : List (List ℕ)) → arrays (map push_of cmds) ≡ cmds
all-pushes [] = refl
all-pushes (c ∷ cs) = ap (λ x. c ∷ x) (all-pushes cs)

one_each :
    (ops : List Op) (cmds rsps : List (List ℕ))
    → Exchanged ops cmds rsps
    → length rsps ≡ length cmds
one_each ops cmds rsps exchanged_none = refl
one_each ops cmds rsps
      (exchanged_write {ops = o} {cmds = cs} {rsps = rs} address wdata rsp al wl x) =
    ap suc (one_each o cs rs x)
one_each ops cmds rsps (exchanged_read {ops = o} {cmds = cs} {rsps = rs} address cmd2 rsp al cl x) =
    ap suc (one_each o cs rs x)

none_later : (xs later ys : List (List ℕ)) → xs ++ later ≡ ys → length ys ≤ length xs → xs ≡ ys
none_later xs [] ys e h = sym (append-nil xs) ∙ e
none_later xs (x ∷ later) ys e h = absurd (omega (arith, length-append xs (x ∷ later), ap length e))

-- Every command was handled, and every response has come, where the client has as many responses as
-- commands.
all_handled :
    (mem : ℕ → ℕ) (handled cmds rsps later later' : List (List ℕ))
    → handled ++ later ≡ cmds
    → rsps ++ later' ≡ arrays (responses mem handled)
    → length rsps ≡ length cmds
    → (handled ≡ cmds) × (rsps ≡ arrays (responses mem handled))
all_handled mem handled cmds rsps later later' e e' n =
    let sizes = length-append handled later in
    let sizes' = length-append rsps later' in
    let r = all-responses mem handled in
    (
      none_later handled later cmds e (omega (arith, sizes', ap length e')),
      none_later rsps later' (arrays (responses mem handled)) e'
          (omega (arith, sizes, ap length e)),
    )

module _ (os : Os) (stream : IsStream os) (sep : IsSeparate os stream) where
  -- The client and the server together are a memory. A client process runs `write_server` and
  -- `read_server` any number of times, all of which return, on two open connections; a server process
  -- runs rounds of its loop from a memory of zeros, in none of which the connection of the commands is
  -- lost, with its three channels apart and those of the commands and the responses connected. Nothing
  -- has passed on the two connections before, and each of them hands out at one end a first part of
  -- what it was given at the other. Then every read gave what the last write to its address modulo 256
  -- stored, or 0 if there was none, and the server's memory holds what the writes stored.
  pub Session-Coherent :
      (ie ic ir a b jc jr a' b' : ℕ) (mem' : ℕ → ℕ) (s s' : MultisimServer.State os.World)
      (c c' : MultisimClient.State os.World) (ops : List Op) (rest rest' : Bytes)
      (d : Different os stream sep ie ic ir a b) (ab : a' ≢ b')
      → ServerSession os stream sep ie ic ir a b d (λ i. 0) s mem' s'
      → ServerReady os stream sep ie ic ir a b s
      → ClientSession os stream sep jc jr a' b' ab c ops c'
      → ClientReady os stream sep jc jr a' b' ab c
      → stream.sent c.world a' ≡ []
      → stream.got s.world a ≡ []
      → stream.sent s.world b ≡ []
      → stream.got c.world b' ≡ []
      → stream.sent c'.world a' ≡ stream.got s'.world a ++ rest
      → stream.sent s'.world b ≡ stream.got c'.world b' ++ rest'
      → Coherent (λ i. 0) ops × (mem' ≡ stored (λ i. 0) ops)
  Session-Coherent ie ic ir a b jc jr a' b' mem' s s' c c' ops rest rest' d ab serving hs asking hc
        a_unsent a_untaken b_unsent b_untaken to_server to_client =
      let asked = Session-Asked os stream sep jc jr a' b' ab c c' ops asking hc in
      let served = Session-Processed os stream sep ie ic ir a b d (λ i. 0) mem' s s' serving hs in
      let (later, order, n) =
        fifo os stream sw sw (codes "rw_cmd") 192 false (inl refl) (omega arith) jc a' ic a c c' s
          s' (map push_of asked.cmds) served.commands rest asked.pushes hc.cmd_holds served.pulls
          (record { index = hs.cmd_index; socket = hs.cmd_socket }) a_unsent a_untaken to_server in
      let (later', order', n') =
        fifo_down os stream sw sw (codes "rw_rsp") 64 false (inl refl) (omega arith) ir b jr b' s s'
          c c' (responses (λ i. 0) served.commands) asked.rsps rest' served.pushes
          (record { index = hs.rsp_index; socket = hs.rsp_socket }) asked.pulls hc.rsp_holds
          b_unsent b_untaken to_client in
      let (same, answers) =
        all_handled (λ i. 0) served.commands asked.cmds asked.rsps later later'
          (order ∙ all-pushes asked.cmds) order'
          (one_each ops asked.cmds asked.rsps asked.exchanged) in
      let (good, last) =
        Exchanged-Coherent (λ i. 0) ops asked.cmds asked.rsps asked.exchanged (λ i. omega arith)
          (answers ∙ ap (λ cs. arrays (responses (λ i. 0) cs)) same) in
      (good, served.memory ∙ ap (memory_after (λ i. 0)) same ∙ last)
