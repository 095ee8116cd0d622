-- ===== src/MultisimClient/Alive.antt =====
-- `multisim_client_pull_core` (src/core/multisim_client.cpp) from a server that stays.
use multisim.Base.{
  empty_of_length, IsByte, ℕ, zero, suc, ◌-◌, ◌*◌, ◌≡◌, ◌∙◌, ◌<◌, refl, ap, subst, Bool, List, [],
  ◌∷◌, ◌++◌, All, Bytes, length, some, returned, returned-injective, >>=-eq-returned, arith,
  append-nil,
}
use multisim.Os.{Os, Ret, count, failed}
use multisim.SocketIo.{read_msg}
use multisim.SocketIo.Stream.{IsStream}
use multisim.SocketIo.Read.{Taken, read_msg-Taken}
use multisim.SocketIo.Alive.{IsFed, WholeRead, whole_read, nothing_read, read_msg-WholeRead}
use multisim.Names.{find, get_server_idx}
use multisim.Data.{Target, buf_size, read_target, from_bytes, not_pulled}
use multisim.Data.Words.{IsWord}
use multisim.Data.Message.{Fits, length-read_target, not_pulled-read_target}
use multisim.MultisimClient.{State, Pulled, pull_result, multisim_client_pull_core}

module _ (os : Os) (stream : IsStream os) where
  -- A pull that has taken nothing and changed the world only.
  pub record Unmoved (mem : List ℕ) (s : State os.World) (fd : ℕ) (p : Pulled os.World)
      : Type 0 where
    pub got_same : stream.got p.state.world fd ≡ stream.got s.world fd
    pub array_same : p.array ≡ mem
    pub only_world : p.state ≡ record s { world = p.state.world }

  pull_result-Unmoved :
      (t : Target) (b : Bool) (width : ℕ) (mem stack : List ℕ) (s : State os.World) (fd : ℕ)
      (r : Ret × Bytes × os.World)
      → Fits b width mem
      → WholeRead r.0
      → Taken
          (buf_size b width)
          (read_target b mem stack)
          (stream.got s.world fd)
          r.0
          r.1
          (stream.got r.2 fd)
      → (pull_result os t b width mem s r).status ≡ 0
      → Unmoved mem s fd (pull_result os t b width mem s r)
  unfolding pull_result
  pull_result-Unmoved t b width mem stack s fd (count (suc k), dst, w) m h v e =
      absurd (omega arith)
  pull_result-Unmoved t b width mem stack s fd (count zero, dst, w) m (whole_read k x) v e =
      absurd cc
  pull_result-Unmoved t b width mem stack s fd (count zero, dst, w) m (nothing_read er x) v e =
      absurd cc
  pull_result-Unmoved t b width mem stack s fd (failed er, dst, w) m h v e =
      let none' = empty_of_length v.taken v.counted in
      let same : dst ≡ read_target b mem stack = rw none' at v.memory in
      record {
        got_same = v.stream ∙ ap (◌++◌ (stream.got s.world fd)) none' ∙ append-nil _;
        array_same = ap (not_pulled b mem) same ∙ not_pulled-read_target b width mem stack m;
        only_world = refl;
      }

  -- A pull that fails has taken nothing off the stream, and the array is as before.
  pub multisim_client_pull_core-Unmoved :
      (fuel : ℕ) (t : Target) (s : State os.World) (name : Bytes) (mem : List ℕ) (width : ℕ)
      (b : Bool) (stack : List ℕ) (i : ℕ) (p : Pulled os.World)
      → IsFed os (s.sockets i)
      → 0 < buf_size b width
      → Fits b width mem
      → Fits b width stack
      → find name s.server_name_to_idx ≡ some i
      → multisim_client_pull_core os fuel t s name mem width b stack ≡ returned p
      → p.status ≡ 0
      → Unmoved mem s (s.sockets i) p
  unfolding multisim_client_pull_core get_server_idx
  multisim_client_pull_core-Unmoved fuel t s name mem width b stack i p fed size m k f e st =
      let fd = s.sockets i in
      let target = read_target b mem stack in
      let (r, reads, e1) =
        >>=-eq-returned (read_msg os fuel s.world fd (buf_size b width) target) _
          (rw (f, get_server_idx) at e) in
      let out : pull_result os t b width mem s r ≡ p = returned-injective e1 in
      let same =
        pull_result-Unmoved t b width mem stack s fd r m
          (read_msg-WholeRead os fd fed fuel s.world (buf_size b width) target r size reads)
          (read_msg-Taken os stream fuel s.world fd (buf_size b width) target r
            (omega (arith, length-read_target b width mem stack m k)) reads)
          (ap (λ v. v.status) out ∙ st) in
      subst (Unmoved mem s fd) out same

-- Whole words of bytes are 32-bit words.
pub from_bytes-IsWord :
    (n : ℕ) (bs : Bytes)
    → length bs ≡ 4 * n
    → All IsByte bs
    → (length (from_bytes bs) ≡ n) × All IsWord (from_bytes bs)
unfolding from_bytes
from_bytes-IsWord n (a ∷ b ∷ c ∷ d ∷ bs) h (ha, (hb, (hc, (hd, hs)))) =
    let (l, w) = from_bytes-IsWord (n - 1) bs (omega arith) hs in (omega arith, (omega arith, w))
from_bytes-IsWord n [] h v = (omega arith, tt)
from_bytes-IsWord n (a ∷ []) h v = absurd (omega arith)
from_bytes-IsWord n (a ∷ b ∷ []) h v = absurd (omega arith)
from_bytes-IsWord n (a ∷ b ∷ c ∷ []) h v = absurd (omega arith)

pub All-append_right : (xs ys : Bytes) → All IsByte (xs ++ ys) → All IsByte ys
All-append_right [] ys h = h
All-append_right (x ∷ xs) ys (h, hs) = All-append_right xs ys hs
