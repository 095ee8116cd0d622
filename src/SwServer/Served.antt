-- ===== src/SwServer/Served.antt =====
-- What the loop of sw_server.cpp (example/sw_server/sw_client/read_write/src) answers, as a memory of
-- 256 words of 64 bits.
use multisim.Base.{
  ℕ, ◌≡◌, ◌≢◌, ◌%◌, refl, true, false, Bool-cases, inl, inr, arith, List, [], ◌∷◌, map, ◌==◌,
  ==_iff,
}
use multisim.Os.{Os}
use multisim.SocketIo.Stream.{IsStream}
use multisim.SocketIo.Separate.{IsSeparate}
use multisim.MultisimServer.{State, update}
use multisim.Channel.{Push}
use multisim.SwServer.{dword, words, process}
use multisim.SwServer.Ready.{Ready, Different}
use multisim.SwServer.Session.{
  Session, CmdPulls, RspPushes, responses, memory_after, Session-Processed,
}

-- The memory `mem'` is `mem` but for the cell `i`, which holds `v`.
pub record Stored (mem : ℕ → ℕ) (i v : ℕ) (mem' : ℕ → ℕ) : Type 0 where
  pub here : mem' i ≡ v
  pub elsewhere : (j : ℕ) → j ≢ i → mem' j ≡ mem j

-- A memory answers commands: the words 0 and 1 of a command are its `rwb`, 2 and 3 its address, and 4
-- and 5 its data. A command whose `rwb` is 0 is a write: it is answered with 0, and its data is then
-- in the cell that its address modulo 256 names, and all other cells are as before. Every other command
-- is a read: it is answered with what is in the cell that its address modulo 256 names, and changes no
-- cell.
pub data Serves : (ℕ → ℕ) → List (List ℕ) → List (List ℕ) → (ℕ → ℕ) → Type 0 where
  serves_end : {mem : ℕ → ℕ} → Serves mem [] [] mem
  serves_write :
      {mem mem1 mem' : ℕ → ℕ} {cs rs : List (List ℕ)} (c : List ℕ)
      → dword c 0 ≡ 0
      → Stored mem (dword c 1 % 256) (dword c 2) mem1
      → Serves mem1 cs rs mem'
      → Serves mem (c ∷ cs) (words 0 ∷ rs) mem'
  serves_read :
      {mem mem' : ℕ → ℕ} {cs rs : List (List ℕ)} (c : List ℕ)
      → dword c 0 ≢ 0
      → Serves mem cs rs mem'
      → Serves mem (c ∷ cs) (words (mem (dword c 1 % 256)) ∷ rs) mem'

update-Stored : (mem : ℕ → ℕ) (i v : ℕ) → Stored mem i v (update mem i v)
update-Stored mem i v = record {
  here = let self : (i == i) ≡ true = (==_iff i i).1 refl in rw self refl;
  elsewhere = λ j d. let test : (j == i) ≡ false = ground (arith, d) in rw test refl;
}

responses-Serves :
    (mem : ℕ → ℕ) (cs : List (List ℕ))
    → Serves mem cs (map (λ (p : Push). p.array) (responses mem cs)) (memory_after mem cs)
unfolding process
responses-Serves mem [] = serves_end
responses-Serves mem (c ∷ cs) = elim (Bool-cases (dword c 0 == 0)) [
  | inl write ↦
      let mem1 = update mem (dword c 1 % 256) (dword c 2) in
      rw (write, process)
        (serves_write c ((==_iff (dword c 0) 0).0 write)
          (update-Stored mem (dword c 1 % 256) (dword c 2)) (responses-Serves mem1 cs))
  | inr read ↦
      rw (read, process) (serves_read c (λ z. absurd (ground (arith, z))) (responses-Serves mem cs))
]

module _ (os : Os) (stream : IsStream os) (sep : IsSeparate os stream) (ie ic ir a b : ℕ)
    (d : Different os stream sep ie ic ir a b) where
  -- The commands that a run has handled: they were pulled in this order, their responses were pushed in
  -- this order, and both are those of a memory that was `mem` and is `mem'`.
  pub record Served (mem : ℕ → ℕ) (s : State os.World) (mem' : ℕ → ℕ) (s' : State os.World)
      : Type 0 where
    pub commands : List (List ℕ)
    pub rsps : List Push
    pub pulls : CmdPulls os stream sep ie ic ir a b d s commands s'
    pub pushes : RspPushes os stream sep ie ic ir a b d s rsps s'
    pub serves : Serves mem commands (map (λ (p : Push). p.array) rsps) mem'

  -- The loop answers every command that it pulls, once and in order, as a memory does. A run of it from
  -- a state in which the three channels stand apart and those of the commands and the responses are
  -- connected, in which the connection of the commands is not lost, is a run of pulls of some commands
  -- and a run of pushes of as many responses: a write is answered with 0 and leaves its data at its
  -- address modulo 256 and every other cell as it was, and a read is answered with what is stored at
  -- its address modulo 256 and changes nothing. The `mem` of the program is that memory behind the run.
  pub serve-Served :
      (mem mem' : ℕ → ℕ) (s s' : State os.World)
      → Session os stream sep ie ic ir a b d mem s mem' s'
      → Ready os stream sep ie ic ir a b s
      → Served mem s mem' s'
  serve-Served mem mem' s s' run h =
      let v = Session-Processed os stream sep ie ic ir a b d mem mem' s s' run h in
      record {
        commands = v.commands;
        rsps = responses mem v.commands;
        pulls = v.pulls;
        pushes = v.pushes;
        serves = rw v.memory (responses-Serves mem v.commands);
      }
