-- ===== src/SocketIo.antt =====
-- src/core/socket_server/socket_io.h: whole messages over a stream socket.
pub mod Stream
pub mod Send
pub mod Read
pub mod Progress
pub mod Frame
pub mod Separate
pub mod Alive
pub mod Ledger
use multisim.Base.{
  ℕ, zero, suc, ◌+◌, ◌-◌, Bool, true, false, [], ◌∷◌, ltb, if◌then◌else◌, Bytes, length, drop, Run,
  returned, running, Option, none, some,
}
use multisim.Os.{
  Os, Errno, eagain, ewouldblock, eintr, other, Ret, count, failed, Input, bytes, no_bytes, Events,
  pollin, pollout,
}

-- The errors after which a message that is under way goes on.
unfoldable pub is_transient : Errno → Bool
is_transient eagain = true
is_transient ewouldblock = true
is_transient eintr = true
is_transient (other n) = false

-- `dst[off..]` overwritten by `src`; what does not fit in `dst` is dropped.
abbrev pub write_at : Bytes → ℕ → Bytes → Bytes
write_at [] off src = []
write_at (x ∷ dst) zero [] = x ∷ dst
write_at (x ∷ dst) zero (b ∷ src) = b ∷ write_at dst zero src
write_at (x ∷ dst) (suc off) src = x ∷ write_at dst off src

-- How a round of one of the loops ends: with new variables, by a return, or never, in a call that does
-- not come back.
pub data Round (S : Type 0) : Type 0 where
  again : S → Round S
  leave : Ret → Round S
  blocked : Round S

module _ {World S : Type 0} where
  -- The loops return what `socket_wait_and_retry` gives, unless that is more than 0.
  pub retried : S → Option Ret × World → Round S × World
  retried s (some (count (suc k)), w) = (again s, w)
  retried s (some (count zero), w) = (leave (count 0), w)
  retried s (some (failed e), w) = (leave (failed e), w)
  retried s (none, w) = (blocked, w)

-- The next round, or the return; a call that does not come back leaves the loop running.
pub advance {ℓ} :
    {World S : Type 0} {R : Type ℓ}
    → Round S × World
    → (S → World → Run R)
    → (Ret → World → Run R)
    → Run R
advance (again s, w) next stop = next s w
advance (leave r, w) next stop = stop r w
advance (blocked, w) next stop = running

module _ (os : Os) where
  open os use {World, send, read, comes_back, wait}

  -- `none` where the poll(), which has no time limit, never comes back.
  pub socket_wait_and_retry : World → ℕ → Events → ℕ → Ret → Option Ret × World
  unfolding is_transient
  socket_wait_and_retry w fd events zero r = (some r, w)
  socket_wait_and_retry w fd events (suc n) (failed e) =
      if is_transient e
      then (if comes_back w fd events then some (count 1) else none, wait w fd events)
      else (some (count 0), w)
  socket_wait_and_retry w fd events (suc n) (count k) = (some (count 0), w)

  -- A round of `send_msg` with the result of its `send`.
  pub after_send : ℕ → ℕ → Ret × World → Round ℕ × World
  unfolding socket_wait_and_retry retried
  after_send fd done (count (suc k), w) = (again (done + suc k), w)
  after_send fd done (count zero, w) =
      retried done (socket_wait_and_retry w fd pollout done (count 0))
  after_send fd done (failed e, w) =
      retried done (socket_wait_and_retry w fd pollout done (failed e))

  -- `send_msg(fd, buf, size)` from `done` on, where `buf` has `size` bytes, with `fuel` rounds.
  pub send_loop : ℕ → World → ℕ → Bytes → ℕ → Run (Ret × World)
  unfolding after_send advance
  send_loop zero w fd buf done = running
  send_loop (suc fuel) w fd buf done =
      if ltb done (length buf)
      then advance (after_send fd done (send w fd (drop done buf)))
          (λ done' w'. send_loop fuel w' fd buf done') (λ r w'. returned (r, w'))
      else returned (count done, w)

  unfoldable pub send_msg : ℕ → World → ℕ → Bytes → Run (Ret × World)
  unfolding send_loop
  send_msg fuel w fd buf = send_loop fuel w fd buf 0

  -- A round of `read_msg` with the result of its `read`; `dst` is the memory at `buf`.
  pub after_read : ℕ → ℕ → Bytes → Input × World → Round (ℕ × Bytes) × World
  unfolding socket_wait_and_retry retried
  after_read fd done dst (bytes (b ∷ bs), w) =
      (again (done + length (b ∷ bs), write_at dst done (b ∷ bs)), w)
  after_read fd done dst (bytes [], w) =
      retried (done, dst) (socket_wait_and_retry w fd pollin done (count 0))
  after_read fd done dst (no_bytes e, w) =
      retried (done, dst) (socket_wait_and_retry w fd pollin done (failed e))

  -- `read_msg(fd, buf, size)` from `done` on, with `fuel` rounds, and the memory at `buf` after it.
  pub read_loop : ℕ → World → ℕ → ℕ → ℕ → Bytes → Run (Ret × Bytes × World)
  unfolding after_read advance
  read_loop zero w fd size done dst = running
  read_loop (suc fuel) w fd size done dst =
      if ltb done size
      then advance (after_read fd done dst (read w fd (size - done)))
          (λ s w'. read_loop fuel w' fd size s.0 s.1) (λ r w'. returned (r, dst, w'))
      else returned (count done, dst, w)

  unfoldable pub read_msg : ℕ → World → ℕ → ℕ → Bytes → Run (Ret × Bytes × World)
  unfolding read_loop
  read_msg fuel w fd size dst = read_loop fuel w fd size 0 dst
