-- ===== src/Os.antt =====
-- The system calls that the socket layer makes (src/core/socket_server), as an interface: the
-- operating system is not part of the repository. `World` is the system as one process sees it; a
-- call may also move whatever the other processes do meanwhile.
use multisim.Base.{ℕ, Bool, Option, List, Bytes}

-- The values of `errno` that the code tells apart.
pub data Errno : Type 0 where
  eagain ewouldblock eintr : Errno
  other : ℕ → Errno

-- An `ssize_t` result: a count, or -1 with the `errno` that the call left.
pub data Ret : Type 0 where
  count : ℕ → Ret
  failed : Errno → Ret

-- What `read` gives: the bytes that it stored, whose number it returns, or -1.
pub data Input : Type 0 where
  bytes : Bytes → Input
  no_bytes : Errno → Input

-- The events of a `poll` on one descriptor.
pub data Events : Type 0 where
  pollin pollout : Events

-- A network interface of getifaddrs(): its name, and its address in print if it has one of AF_INET.
pub record Interface : Type 0 where
  pub name : Bytes
  pub inet : Option Bytes

-- Where a call returns a descriptor, `none` is a negative result; where it returns 0 or a negative
-- number, the Boolean says that it was 0.
pub record Os : Type 1 where
  pub World : Type 0
  -- send(fd, buf, size, MSG_NOSIGNAL), of the bytes given
  pub send : World → ℕ → Bytes → Ret × World
  -- read(fd, buf, size)
  pub read : World → ℕ → ℕ → Input × World
  -- poll(&pfd, 1, -1) for one event, with no time limit: whether the call ever comes back, and the
  -- system when it has
  pub comes_back : World → ℕ → Events → Bool
  pub wait : World → ℕ → Events → World
  pub close : World → ℕ → World
  -- socket(AF_INET, SOCK_STREAM, 0) and socket(AF_UNIX, SOCK_STREAM, 0)
  pub socket_inet : World → Option ℕ × World
  pub socket_unix : World → Option ℕ × World
  -- fcntl(fd, F_SETFL, O_NONBLOCK)
  pub set_nonblock : World → ℕ → World
  -- bind() to a port of INADDR_ANY, and to a path
  pub bind_inet : World → ℕ → ℕ → Bool × World
  pub bind_unix : World → ℕ → Bytes → Bool × World
  -- listen(fd, 8)
  pub listen : World → ℕ → Bool × World
  -- poll(pfd, n, 0) for POLLIN on each descriptor: the POLLIN bits of `revents`, or `none` for a
  -- result of 0 or -1
  pub poll_in : World → List ℕ → Option (List Bool) × World
  pub accept : World → ℕ → Option ℕ × World
  -- getifaddrs() and freeifaddrs(), `none` for -1
  pub interfaces : World → Option (List Interface) × World
  -- mkdir(path, 0777)
  pub mkdir : World → Bytes → World
  pub realpath : World → Bytes → Option Bytes × World
  pub unlink : World → Bytes → World
  -- open(path, O_RDONLY | O_DIRECTORY)
  pub open_dir : World → Bytes → Option ℕ × World
  -- fopen(path, "w+"), the text printed, and fclose(); false where fopen() gives NULL
  pub write_file : World → Bytes → Bytes → Bool × World
  -- fopen(path, "r") and the text read from it; `none` where fopen() gives NULL
  pub read_file : World → Bytes → Option Bytes × World
  -- fopen(path, "a"), the text printed, and fclose(); false where fopen() gives NULL
  pub append_file : World → Bytes → Bytes → Bool × World
  -- connect() to a path, and to a port of an address; inet_pton() of the address
  pub connect_unix : World → ℕ → Bytes → Bool × World
  pub connect_inet : World → ℕ → Bytes → ℕ → Bool × World
  pub inet_pton : Bytes → Bool
  -- usleep(100000)
  pub sleep : World → World
  -- fcntl(fd, F_SETFL, flags) with flags that lack O_NONBLOCK
  pub set_blocking : World → ℕ → World
  pub getpid : World → ℕ
