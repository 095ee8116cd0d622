-- ===== src/SocketClient/Info.antt =====
-- The info file: what `Server::start` writes, `getServerIpAndPort` reads back
-- (src/core/socket_server/server.cpp and client.cpp).
use mathlib.Core.Option.{some-ne-none}
use multisim.Base.{
  ℕ, ◌^◌, ◌≤◌, ◌<◌, ◌≡◌, ◌≢◌, refl, sym, ◌∙◌, ap, ◌⊎◌, inl, inr, true, false, [], ◌∷◌, ◌++◌, Bytes,
  codes, bytes_eq, none, some, Option-cases, All, length, arith,
}
use multisim.UnixSocket.{to_string}
use multisim.Scan.{is_space, is_digit, scan_word}
use multisim.Scan.Laws.{IsToken, scan_word-token, scan_word-space, scan_int-decimal}
use multisim.SocketServer.{Server, info_text}
use multisim.SocketClient.{Client, parse_info, scan_unix, or_empty}

-- The path that the info file publishes.
abbrev pub published : Server → Bytes
published s = elim (s.unix_fd) [ none ↦ [] | some fd ↦ s.unix_socket_path ]

-- The texts of a server that the client's conversions read whole.
pub record IsReadable (s : Server) : Type 0 where
  pub ip : IsToken 127 s.server_ip
  pub port : s.server_port < 2 ^ 31
  pub path : (s.unix_fd ≡ none) ⊎ IsToken 4095 s.unix_socket_path

label : (w : Bytes) → w ≢ [] → All (λ c. is_space c ≡ false) w → length w ≤ 127 → IsToken 127 w
label w n u f = record { nonempty = n; unspaced = u; fits = f }

ip_label : IsToken 127 (codes "ip:")
unfolding is_space
ip_label = label (codes "ip:") (λ e. cc) (refl, (refl, (refl, tt))) (omega arith)

port_label : IsToken 127 (codes "port:")
unfolding is_space
port_label =
    label (codes "port:") (λ e. cc) (refl, (refl, (refl, (refl, (refl, tt))))) (omega arith)

unix_label : IsToken 127 (codes "unix:")
unfolding is_space
unix_label =
    label (codes "unix:") (λ e. cc) (refl, (refl, (refl, (refl, (refl, tt))))) (omega arith)

space_is_space : is_space 32 ≡ true
unfolding is_space
space_is_space = refl

newline_is_space : is_space 10 ≡ true
unfolding is_space
newline_is_space = refl

newline_no_digit : is_digit 10 ≡ false
unfolding is_digit
newline_no_digit = refl

-- A token behind a space and before a line's end, and a label behind one and before a space.
scan_field :
    (width : ℕ) (w s : Bytes)
    → IsToken width w
    → scan_word width (32 ∷ (w ++ 10 ∷ s)) ≡ some (w, 10 ∷ s)
scan_field width w s t =
    scan_word-space width 32 _ space_is_space ∙ scan_word-token width w 10 s t newline_is_space

scan_label : (w s : Bytes) → IsToken 127 w → scan_word 127 (10 ∷ (w ++ 32 ∷ s)) ≡ some (w, 32 ∷ s)
scan_label w s t =
    scan_word-space 127 10 _ newline_is_space ∙ scan_word-token 127 w 32 s t space_is_space

scan_unix-line :
    (path : Bytes)
    → IsToken 4095 path
    → scan_unix (10 ∷ (codes "unix:" ++ 32 ∷ (path ++ 10 ∷ []))) ≡ some path
unfolding scan_unix bytes_eq
scan_unix-line path t =
    rw (scan_label (codes "unix:") (path ++ 10 ∷ []) unix_label, scan_field 4095 path [] t)

scan_unix-end : scan_unix (10 ∷ []) ≡ none
unfolding scan_unix scan_word
scan_unix-end = refl

-- The three lines, with what the third gives.
parse_lines :
    (ip rest : Bytes) (port : ℕ) (c : Client)
    → IsToken 127 ip
    → port < 2 ^ 31
    → parse_info
        (codes "ip:" ++ 32 ∷ (ip ++ 10 ∷ (codes "port:" ++ 32 ∷ (to_string port ++ 10 ∷ rest))))
        c
      ≡ some (record c {
        server_ip = ip;
        server_port = port;
        server_unix_socket = or_empty (scan_unix (10 ∷ rest));
      })
unfolding parse_info
parse_lines ip rest port c t small = rw (
  scan_word-token 127 (codes "ip:") 32 _ ip_label space_is_space,
  scan_field 127 ip _ t,
  scan_label (codes "port:") _ port_label,
  scan_int-decimal 9 port 10 32 rest (omega arith) space_is_space newline_no_digit,
)

unix_line : Server → Bytes
unix_line s = elim (s.unix_fd) [
  | none ↦ []
  | some fd ↦ codes "unix:" ++ 32 ∷ (s.unix_socket_path ++ 10 ∷ [])
]

scan_unix-published :
    (s : Server) → IsReadable s → or_empty (scan_unix (10 ∷ unix_line s)) ≡ published s
unfolding unix_line
scan_unix-published s r = elim (Option-cases s.unix_fd) [
  | inl e ↦ rw e (ap or_empty scan_unix-end)
  | inr (fd, e) ↦ elim r.path [
    | inl e' ↦ absurd (some-ne-none fd (sym e ∙ e'))
    | inr t ↦ rw e (ap or_empty (scan_unix-line s.unix_socket_path t))
  ]
]

-- A client reads back what a server wrote: the address, the port, and the path of the Unix socket if
-- the server has one. The path of a server without one is empty, whatever the client had before. The
-- address and the path are not empty, have no white space, and fit the buffers of 128 and 4096 bytes;
-- the port fits an `int`.
pub parse_info-info_text :
    (s : Server) (c : Client)
    → IsReadable s
    → parse_info (info_text s) c
      ≡ some (record c {
        server_ip = s.server_ip;
        server_port = s.server_port;
        server_unix_socket = published s;
      })
unfolding info_text unix_line
parse_info-info_text s c r =
    parse_lines s.server_ip (unix_line s) s.server_port c r.ip r.port
    ∙ ap
        (λ (p : Bytes). some (record c {
          server_ip = s.server_ip;
          server_port = s.server_port;
          server_unix_socket = p;
        }))
        (scan_unix-published s r)
