-- ===== src/Data.antt =====
-- src/core/multisim_client.cpp and src/core/multisim_server.cpp: the buffers of `push_core` and
-- `pull_core`. The memory behind a `data_handle_t` is a list of 32-bit words. The targets of
-- src/core/multisim_common.h are a value of `Target`.
pub mod Pack
pub mod Words
pub mod Message
pub mod Planes
use multisim.Base.{
  ℕ, zero, suc, ◌+◌, ◌*◌, ◌/◌, ◌%◌, Bool, true, false, List, [], ◌∷◌, if◌then◌else◌, Bytes, get_or,
  set, take,
}

-- ZEBU is a flavour of EMULATION.
pub data Target : Type 0 where
  simulation emulation sw : Target

-- MULTISIM_SV_DPI_OPEN_ARRAY
abbrev pub open_array : Target → Bool
open_array simulation = true
open_array emulation = false
open_array sw = false

-- MULTISIM_4STATE_UNSUPPORTED
abbrev pub four_state_unsupported : Target → Bool
four_state_unsupported simulation = false
four_state_unsupported emulation = true
four_state_unsupported sw = false

unfoldable pub buf_32b_size : ℕ → ℕ
buf_32b_size data_width = (data_width + 31) / 32

-- The size of `send_buf` and `read_buf`, in words.
unfoldable pub buf_words : Bool → ℕ → ℕ
unfolding buf_32b_size
buf_words is_4state data_width =
    if is_4state then 2 * buf_32b_size data_width else buf_32b_size data_width

-- Where element `i` of a 4-state array of `n` elements lies: an open array is one of
-- `svLogicVecVal`, a struct of `aval` and `bval`; the others hold all `aval`s before all `bval`s.
abbrev pub aval_index : Target → ℕ → ℕ → ℕ
aval_index t n i = if open_array t then 2 * i else i

abbrev pub bval_index : Target → ℕ → ℕ → ℕ
bval_index t n i = if open_array t then 2 * i + 1 else n + i

-- The loop over `i` that fills `send_buf`, with `left` rounds left.
pub pack_loop : Target → ℕ → ℕ → ℕ → List ℕ → List ℕ → List ℕ
pack_loop t n zero i mem send_buf = send_buf
pack_loop t n (suc left) i mem send_buf = pack_loop t n left (i + 1) mem (
    set (set send_buf i (get_or mem (aval_index t n i) 0)) (n + i)
      (get_or mem (bval_index t n i) 0))

-- The loop over `i` that stores `read_buf` into the array.
pub unpack_loop : Target → ℕ → ℕ → ℕ → List ℕ → List ℕ → List ℕ
unpack_loop t n zero i read_buf mem = mem
unpack_loop t n (suc left) i read_buf mem = unpack_loop t n left (i + 1) read_buf (
    set (set mem (aval_index t n i) (get_or read_buf i 0)) (bval_index t n i)
      (get_or read_buf (n + i) 0))

-- `send_buf` starts with whatever the stack holds.
unfoldable pub pack : Target → ℕ → List ℕ → List ℕ → List ℕ
unfolding pack_loop
pack t n mem send_buf = pack_loop t n n 0 mem send_buf

unfoldable pub unpack : Target → ℕ → List ℕ → List ℕ → List ℕ
unfolding unpack_loop
unpack t n read_buf mem = unpack_loop t n n 0 read_buf mem

-- The bytes of a `uint32_t` array in memory, on a little-endian host.
unfoldable pub to_bytes : List ℕ → Bytes
to_bytes [] = []
to_bytes (x ∷ xs) = x % 256 ∷ x / 256 % 256 ∷ x / 65536 % 256 ∷ x / 16777216 % 256 ∷ to_bytes xs

-- A tail of less than four bytes is no word.
unfoldable pub from_bytes : Bytes → List ℕ
from_bytes (a ∷ b ∷ c ∷ d ∷ bs) = (a + 256 * b + 65536 * c + 16777216 * d) ∷ from_bytes bs
from_bytes _ = []

-- `sizeof(send_buf)` and `sizeof(read_buf)`, in bytes.
unfoldable pub buf_size : Bool → ℕ → ℕ
unfolding buf_words
buf_size is_4state data_width = 4 * buf_words is_4state data_width

-- The bytes at `msg` in `push_core`: the array itself, or `send_buf`, which starts as `stack`.
unfoldable pub message : Target → Bool → ℕ → List ℕ → List ℕ → Bytes
unfolding buf_32b_size to_bytes pack
message t true data_width mem stack = to_bytes (pack t (buf_32b_size data_width) mem stack)
message t false data_width mem stack = to_bytes (take (buf_32b_size data_width) mem)

-- The memory that `pull_core` reads into: the array itself, or `read_buf`, which starts as `stack`.
unfoldable pub read_target : Bool → List ℕ → List ℕ → Bytes
unfolding to_bytes
read_target true mem stack = to_bytes stack
read_target false mem stack = to_bytes mem

-- The array behind a read that ended with `dst` in that memory; 4-state data is copied to the array
-- only where the whole message has come.
unfoldable pub pulled : Target → Bool → ℕ → List ℕ → Bytes → List ℕ
unfolding buf_32b_size from_bytes unpack
pulled t true data_width mem dst = unpack t (buf_32b_size data_width) (from_bytes dst) mem
pulled t false data_width mem dst = from_bytes dst

unfoldable pub not_pulled : Bool → List ℕ → Bytes → List ℕ
unfolding from_bytes
not_pulled true mem dst = mem
not_pulled false mem dst = from_bytes dst
