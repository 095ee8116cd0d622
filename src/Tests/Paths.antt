-- ===== src/Tests/Paths.antt =====
-- Files of servers with short and long names.
use multisim.Base.{
  ℕ, zero, suc, ◌≤◌, ◌<◌, ◌≡◌, ◌≢◌, refl, arith, [], ◌∷◌, ◌++◌, length, none, some, Option, Bytes,
  codes,
}
use multisim.InfoFile.{info_file_name, info_file_path}
use multisim.InfoFile.Path.{
  alias, length-info_file_name-le, info_file_path_injective, info_file_path_one_byte,
  info_file_path-alias,
}
use multisim.UnixSocket.{decimal, unix_socket_file, unix_socket_addr, sun_path_size}
use multisim.UnixSocket.Laws.{
  NoLeak, length-unix_socket_addr-lt, unix_socket_addr_found, unix_socket_addr-NoLeak,
}

abbrev repeat : ℕ → ℕ → Bytes
repeat zero c = []
repeat (suc n) c = c ∷ repeat n c

-- 300 times `a`.
abbrev long : Bytes
long = repeat 300 b'a'

info_file_path_one_byte_example :
    info_file_path (codes "d") (codes "server_") (long ++ b'0' ∷ [])
    ≢ info_file_path (codes "d") (codes "server_") (long ++ b'1' ∷ [])
info_file_path_one_byte_example =
    info_file_path_one_byte (codes "d") (codes "server_") long [] b'0' b'1' (omega arith)
      (omega arith) tt (omega arith)

info_file_path_injective_example : codes "cpu" ≡ codes "cpu"
info_file_path_injective_example =
    info_file_path_injective (codes "d") (codes "server_") (codes "cpu") (codes "cpu") (omega arith)
      (omega arith) refl

length-info_file_name-le_example : length (info_file_name (codes "server_") long) ≤ 255
length-info_file_name-le_example = length-info_file_name-le (codes "server_") long (omega arith)

info_file_path-alias_example :
    (alias long ≢ long)
    × (info_file_path (codes "d") (codes "server_") (alias long)
        ≡ info_file_path (codes "d") (codes "server_") long)
info_file_path-alias_example =
    info_file_path-alias (codes "d") (codes "server_") long (omega arith) (omega arith)

-- A system whose directories can be opened as 9, or cannot be opened; closing counts.
abbrev opens : ℕ → Bytes → Option ℕ × ℕ
opens w dir = (some 9, w)

abbrev closes : ℕ → ℕ → ℕ
closes w fd = suc w

unix_socket_addr_found_example :
    (unix_socket_addr opens closes 0 long (unix_socket_file long)).path ≢ none
unix_socket_addr_found_example = unix_socket_addr_found opens closes 0 0 long long 9 refl

-- A file whose path is too long in both ways.
unix_socket_addr-NoLeak_example :
    NoLeak opens closes (some 9, 0) (unix_socket_addr opens closes 0 long long)
unfolding unix_socket_addr decimal
unix_socket_addr-NoLeak_example = unix_socket_addr-NoLeak opens closes 0 long long refl

length-unix_socket_addr-lt_example : length (codes "d/cpu.sock") < sun_path_size
unfolding unix_socket_addr decimal
length-unix_socket_addr-lt_example =
    length-unix_socket_addr-lt opens closes 0 (codes "d") (codes "cpu.sock") refl
