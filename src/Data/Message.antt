-- ===== src/Data/Message.antt =====
-- A message on the wire, and the array that it arrives in.
use multisim.Base.{
  ℕ, ◌≡◌, refl, Bool, true, false, arith, List, length, take, All, take_all, length-take,
}
use multisim.Data.{
  Target, buf_32b_size, buf_words, buf_size, pack, message, read_target, pulled, not_pulled,
}
use multisim.Data.Words.{IsWord, length-to_bytes, from_bytes-to_bytes}
use multisim.Data.Pack.{length-pack, unpack-pack, pack-IsWord}

-- Arrays and buffers of the size that the data width asks for, of 32-bit words.
pub record Fits (is_4state : Bool) (width : ℕ) (mem : List ℕ) : Type 0 where
  pub sized : length mem ≡ buf_words is_4state width
  pub words : All IsWord mem

pub length-message :
    (t : Target) (is_4state : Bool) (width : ℕ) (mem stack : List ℕ)
    → Fits is_4state width mem
    → Fits is_4state width stack
    → length (message t is_4state width mem stack) ≡ buf_size is_4state width
unfolding message buf_size
length-message t true width mem stack m k = omega (
  arith,
  length-to_bytes (pack t (buf_32b_size width) mem stack),
  length-pack t (buf_32b_size width) mem stack,
  k.sized,
)
length-message t false width mem stack m k = omega (
  arith,
  length-to_bytes (take (buf_32b_size width) mem),
  length-take (buf_32b_size width) mem,
  m.sized,
)

-- What is pushed from an array arrives in the array of a pull of the same width, on a side with the
-- same target, in 2-state and in 4-state, whatever that array and the buffers held before; the arrays
-- and buffers have the size that the width asks for, and hold 32-bit words.
pub pulled-message :
    (t : Target) (is_4state : Bool) (width : ℕ) (mem stack mem' : List ℕ)
    → Fits is_4state width mem
    → Fits is_4state width stack
    → Fits is_4state width mem'
    → pulled t is_4state width mem' (message t is_4state width mem stack) ≡ mem
unfolding pulled message buf_words
pulled-message t true width mem stack mem' m k m' =
    rw (from_bytes-to_bytes _ (pack-IsWord t (buf_32b_size width) mem stack m.words k.words))
      (unpack-pack t (buf_32b_size width) mem stack mem' m.sized k.sized m'.sized)
pulled-message t false width mem stack mem' m k m' =
    let whole : take (buf_32b_size width) mem ≡ mem =
      take_all (buf_32b_size width) mem (omega (arith, m.sized)) in
    rw whole (from_bytes-to_bytes mem m.words)

pub length-read_target :
    (is_4state : Bool) (width : ℕ) (mem stack : List ℕ)
    → Fits is_4state width mem
    → Fits is_4state width stack
    → length (read_target is_4state mem stack) ≡ buf_size is_4state width
unfolding read_target buf_size
length-read_target true width mem stack m k = omega (arith, length-to_bytes stack, k.sized)
length-read_target false width mem stack m k = omega (arith, length-to_bytes mem, m.sized)

-- Where nothing was read, the array is as it was.
pub not_pulled-read_target :
    (is_4state : Bool) (width : ℕ) (mem stack : List ℕ)
    → Fits is_4state width mem
    → not_pulled is_4state mem (read_target is_4state mem stack) ≡ mem
unfolding not_pulled read_target
not_pulled-read_target true width mem stack m = refl
not_pulled-read_target false width mem stack m = from_bytes-to_bytes mem m.words
