-- ===== src/SocketServer/Starting.antt =====
-- `Server::start` (src/core/socket_server/server.cpp) opens and closes no connection of a client.
use native.Mathlib.Decide.{ℕ_discrete}
use multisim.Base.{
  ℕ, zero, suc, ◌+◌, ◌%◌, ◌^◌, ◌≡◌, ◌∙◌, refl, sym, ap, false, Bool-cases, Option-cases, inl, inr,
  Bytes, codes, ◌++◌, Option, none, some, returned, >>=-eq-returned, returned-injective,
  exited-ne-returned,
}
use multisim.Os.{Os}
use multisim.SocketIo.Ledger.{IsLedger}
use multisim.InfoFile.{info_file_path}
use multisim.UnixSocket.{unix_socket_addr, unix_socket_file}
use multisim.UnixSocket.Frame.{unix_socket_addr-Kept}
use multisim.SocketServer.{
  Server, base_port, info_text, get_ip, bind_loop, close_opened, unix_listen, unix_setup, unix_open,
  start_unix_socket, start_files, start_listening, start_socket, start,
}

module _ (os : Os) (ledger : IsLedger os) where
  open ledger use {is_open}

  close_fresh :
      (w : os.World) (fd x : ℕ) → is_open w fd ≡ false → is_open (os.close w fd) x ≡ is_open w x
  close_fresh w fd x free = elim (ℕ_discrete x fd) [
    | yes here ↦
        ap (is_open (os.close w fd)) here
        ∙ ledger.close_gone w fd
        ∙ sym free
        ∙ ap (is_open w) (sym here)
    | no d ↦ ledger.close_other w fd x d
  ]

  get_ip-same : (w : os.World) (x : ℕ) → is_open (get_ip os w).1 x ≡ is_open w x
  unfolding get_ip
  get_ip-same w x = elim (Option-cases (os.interfaces w).0) [
    | inl n ↦ rw (n, get_ip) (ledger.interfaces_same w x)
    | inr (l, s) ↦ rw (s, get_ip) (ledger.interfaces_same w x)
  ]

  bind_loop-same :
      (fuel : ℕ) (w : os.World) (fd i : ℕ) (r : ℕ × os.World)
      → bind_loop os fuel w fd i ≡ returned r
      → (x : ℕ) → is_open r.1 x ≡ is_open w x
  unfolding bind_loop
  bind_loop-same zero w fd i r e x = absurd cc
  bind_loop-same (suc fuel) w fd i r e x =
      let tried = os.bind_inet w fd ((base_port + i) % 2 ^ 16) in
      let one = ledger.bind_inet_same w fd ((base_port + i) % 2 ^ 16) x in
      elim (Bool-cases (tried.0)) [
        | inl y ↦
            let out : (base_port + i, tried.1) ≡ r = returned-injective (rw y at e) in
            ap (λ (v : ℕ × os.World). is_open v.1 x) (sym out) ∙ one
        | inr n ↦ bind_loop-same fuel tried.1 fd (i + 1) r (rw n at e) x ∙ one
      ]

  unix_listen-same :
      (w : os.World) (fd : ℕ) (path : Option Bytes) (x : ℕ)
      → is_open (unix_listen os w fd path).1 x ≡ is_open w x
  unfolding unix_listen
  unix_listen-same w fd none x = refl
  unix_listen-same w fd (some path) x =
      let bound = os.bind_unix w fd path in
      let one = ledger.bind_unix_same w fd path x in
      elim (Bool-cases (bound.0)) [
        | inl y ↦ rw y (ledger.listen_same bound.1 fd x ∙ one)
        | inr n ↦ rw n one
      ]

  close_opened-same :
      (w : os.World) (o : Option ℕ) (x : ℕ)
      → ((d : ℕ) → o ≡ some d → is_open w d ≡ false)
      → is_open (close_opened os w o) x ≡ is_open w x
  unfolding close_opened
  close_opened-same w none x free = refl
  close_opened-same w (some fd) x free = close_fresh w fd x (free fd refl)

  unix_setup-same :
      (w : os.World) (s : Server) (dir file : Bytes) (fd x : ℕ)
      → is_open w fd ≡ false
      → is_open (unix_setup os w s dir file fd).1 x ≡ is_open w x
  unfolding unix_setup
  unix_setup-same w s dir file fd x free =
      let w1 = os.unlink w s.unix_socket_path in
      let a = unix_socket_addr os.open_dir os.close w1 dir file in
      let k =
        unix_socket_addr-Kept os.open_dir os.close is_open ledger.open_dir_same
          ledger.open_dir_fresh close_fresh w1 dir file in
      let l = unix_listen os a.world fd a.path in
      let to_l : (y : ℕ) → is_open l.1 y ≡ is_open w y = λ y.
        unix_listen-same a.world fd a.path y
        ∙ k.same y
        ∙ ledger.unlink_same w s.unix_socket_path y in
      let no_dir : (d : ℕ) → a.dirfd ≡ some d → is_open w d ≡ false =
        λ d e. sym (ledger.unlink_same w s.unix_socket_path d) ∙ k.fresh d e in
      elim (Bool-cases (l.0)) [
        | inl y ↦
            let w2 = os.set_nonblock l.1 fd in
            let to_w2 : (z : ℕ) → is_open w2 z ≡ is_open w z =
              λ z. ledger.nonblock_same l.1 fd z ∙ to_l z in
            rw y (close_opened-same w2 a.dirfd x (λ d e. to_w2 d ∙ no_dir d e) ∙ to_w2 x)
        | inr n ↦
            let w2 = os.close l.1 fd in
            let to_w2 : (z : ℕ) → is_open w2 z ≡ is_open w z =
              λ z. close_fresh l.1 fd z (to_l fd ∙ free) ∙ to_l z in
            rw n (close_opened-same w2 a.dirfd x (λ d e. to_w2 d ∙ no_dir d e) ∙ to_w2 x)
      ]

  unix_open-same :
      (w0 : os.World) (s : Server) (dir file : Bytes) (o : Option ℕ × os.World) (x : ℕ)
      → ((y : ℕ) → is_open o.1 y ≡ is_open w0 y)
      → ((fd : ℕ) → o.0 ≡ some fd → is_open w0 fd ≡ false)
      → is_open (unix_open os s dir file o).1 x ≡ is_open w0 x
  unfolding unix_open
  unix_open-same w0 s dir file (none, w) x p free = p x
  unix_open-same w0 s dir file (some fd, w) x p free =
      unix_setup-same w s dir file fd x (p fd ∙ free fd refl) ∙ p x

  start_unix_socket-same :
      (w : os.World) (s : Server) (x : ℕ) → is_open (start_unix_socket os w s).1 x ≡ is_open w x
  unfolding start_unix_socket
  start_unix_socket-same w s x =
      let r = os.realpath w s.server_info_dir in
      let real = ledger.realpath_same w s.server_info_dir in
      elim (Option-cases (r.0)) [
        | inl n ↦ rw (n, start_unix_socket) (real x)
        | inr (dir, y) ↦
            rw (y, start_unix_socket)
              (unix_open-same r.1
                  (record s {
                    unix_socket_path = dir ++ (codes "/" ++ unix_socket_file s.server_name);
                  })
                  dir (unix_socket_file s.server_name) (os.socket_unix r.1) x
                  (ledger.socket_unix_same r.1) (ledger.socket_unix_fresh r.1)
                ∙ real x)
      ]

  start_files-same :
      (w : os.World) (s : Server) (up : Server × os.World)
      → start_files os w s ≡ returned up
      → (x : ℕ) → is_open up.1 x ≡ is_open w x
  unfolding start_files
  start_files-same w s up e x =
      let u = start_unix_socket os (os.mkdir w s.server_info_dir) s in
      let path = info_file_path u.0.server_info_dir (codes "server_") u.0.server_name in
      let written = os.write_file u.1 path (info_text u.0) in
      elim (Bool-cases (written.0)) [
        | inl y ↦
            let out : (u.0, written.1) ≡ up = returned-injective (rw y at e) in
            ap (λ (v : Server × os.World). is_open v.1 x) (sym out)
            ∙ ledger.write_file_same u.1 path (info_text u.0) x
            ∙ start_unix_socket-same (os.mkdir w s.server_info_dir) s x
            ∙ ledger.mkdir_same w s.server_info_dir x
        | inr n ↦ absurd (exited-ne-returned (rw n at e))
      ]

  start_listening-same :
      (s : Server) (b : ℕ × os.World) (up : Server × os.World)
      → start_listening os s b ≡ returned up
      → (x : ℕ) → is_open up.1 x ≡ is_open b.1 x
  unfolding start_listening
  start_listening-same s (port, w) up e x =
      let l = os.listen w s.server_fd in
      elim (Bool-cases (l.0)) [
        | inl y ↦
            start_files-same (get_ip os l.1).1 _ up (rw y at e) x
            ∙ get_ip-same l.1 x
            ∙ ledger.listen_same w s.server_fd x
        | inr n ↦ absurd (exited-ne-returned (rw n at e))
      ]

  start_socket-same :
      (fuel : ℕ) (s : Server) (o : Option ℕ × os.World) (up : Server × os.World)
      → start_socket os fuel s o ≡ returned up
      → (x : ℕ) → is_open up.1 x ≡ is_open o.1 x
  unfolding start_socket
  start_socket-same fuel s (none, w) up e x = absurd (exited-ne-returned e)
  start_socket-same fuel s (some fd, w) up e x =
      let (b, binds, out) = >>=-eq-returned (bind_loop os fuel (os.set_nonblock w fd) fd 0) _ e in
      start_listening-same (record s { server_fd = fd }) b up out x
      ∙ bind_loop-same fuel (os.set_nonblock w fd) fd 0 b binds x
      ∙ ledger.nonblock_same w fd x

  pub start-same :
      (fuel : ℕ) (w : os.World) (s : Server) (up : Server × os.World)
      → start os fuel w s ≡ returned up
      → (x : ℕ) → is_open up.1 x ≡ is_open w x
  unfolding start
  start-same fuel w s up e x = elim (Bool-cases (s.server_is_running)) [
    | inl y ↦ absurd (exited-ne-returned (rw y at e))
    | inr n ↦
        start_socket-same fuel s (os.socket_inet w) up (rw n at e) x ∙ ledger.socket_inet_same w x
  ]
