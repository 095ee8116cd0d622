-- ===== src/UnixSocket.antt =====
-- src/core/socket_server/unix_socket.h: the file name and the address of a server's Unix socket.
pub mod Laws
pub mod Frame
use multisim.Base.{
  ℕ, zero, suc, ◌+◌, ◌/◌, ◌%◌, [], ◌∷◌, ◌++◌, ltb, leb, ◌==◌, if◌then◌else◌, Bytes, codes, length,
  take, Option, none, some, Bool, true, false,
}
use multisim.InfoFile.{fnv1a_hash_str}

unfoldable pub unix_socket_file : Bytes → Bytes
unix_socket_file name =
    if leb (length name) 64
    then codes "server_" ++ (name ++ codes ".sock")
    else codes "server_" ++ (take 40 name ++ (codes "_" ++ (fnv1a_hash_str name ++ codes ".sock")))

-- `std::to_string` of a value with at most `fuel` digits behind its first.
unfoldable pub decimal : ℕ → ℕ → Bytes
decimal zero n = (b'0' + n % 10) ∷ []
decimal (suc fuel) n =
    let front = decimal fuel (n / 10) in
    if ltb n 10 then (b'0' + n) ∷ [] else front ++ (b'0' + n % 10) ∷ []

-- A non-negative `int` has ten digits at most.
abbrev pub to_string : ℕ → Bytes
to_string n = decimal 9 n

-- `sizeof(addr->sun_path)`
abbrev pub sun_path_size : ℕ
sun_path_size = 108

-- The directory is opened and closed by the operating system, `open_dir` and `close` here.
-- `path` is `addr->sun_path` where the call returns 0, and `none` where it returns -1; `dirfd` is
-- the descriptor left to the caller, `none` for -1.
pub record Addr (World : Type 0) : Type 0 where
  pub path : Option Bytes
  pub dirfd : Option ℕ
  pub world : World

module _ {World : Type 0} (open_dir : World → Bytes → Option ℕ × World)
    (close : World → ℕ → World) where
  -- The directory is open as `fd`.
  pub through_proc : World → Bytes → ℕ → Addr World
  through_proc w file fd =
      let path = codes "/proc/self/fd/" ++ (to_string fd ++ (codes "/" ++ file)) in
      if leb sun_path_size (length path)
      then record { path = none; dirfd = none; world = close w fd }
      else record { path = some path; dirfd = some fd; world = w }

  pub after_open : Bytes → Option ℕ × World → Addr World
  unfolding through_proc
  after_open file (none, w) = record { path = none; dirfd = none; world = w }
  after_open file (some fd, w) = through_proc w file fd

  unfoldable pub unix_socket_addr : World → Bytes → Bytes → Addr World
  unfolding after_open
  unix_socket_addr w dir file =
      let path = dir ++ (codes "/" ++ file) in
      if leb sun_path_size (length path)
      then after_open file (open_dir w dir)
      else record { path = some path; dirfd = none; world = w }
