-- ===== src/SocketServer/Start.antt =====
-- What `Server::start` (src/core/socket_server/server.cpp) leaves in the server.
use native.Mathlib.Decide.{ℕ_discrete}
use multisim.Base.{
  ℕ, zero, suc, ◌+◌, ◌%◌, ◌^◌, ◌≤◌, ◌<◌, ◌≡◌, refl, sym, ◌∙◌, inl, inr, Bool, true, false, ◌++◌,
  Bytes, Bool-cases, Option-cases, arith, Option, none, some, returned, >>=-eq-returned,
  returned-injective, exited-ne-returned, codes,
}
use multisim.Os.{Os}
use multisim.InfoFile.{info_file_path}
use multisim.UnixSocket.{unix_socket_file}
use multisim.SocketServer.{
  Server, info_text, base_port, bind_loop, start, start_unix_socket, unix_open, start_files,
  start_listening, start_socket, get_ip,
}

-- bind() on a port succeeds where the port is free, and a bind() that fails changes no port.
pub record HasPorts (os : Os) : Type 0 where
  pub free : os.World → ℕ → Bool
  pub bind_free : (w : os.World) (fd p : ℕ) → (os.bind_inet w fd p).0 ≡ free w p
  pub bind_keeps :
      (w : os.World) (fd p q : ℕ)
      → (os.bind_inet w fd p).0 ≡ false
      → free (os.bind_inet w fd p).1 q ≡ free w q

module _ (os : Os) (ports : HasPorts os) where
  open os use {World, bind_inet}
  open ports use {free, bind_free, bind_keeps}

  -- The ports from `lo` on, and below `hi`, are taken.
  abbrev pub TakenPorts : World → ℕ → ℕ → Type 0
  TakenPorts w lo hi = (q : ℕ) → lo ≤ q → q < hi → free w (q % 2 ^ 16) ≡ false

  bind_loop_first :
      (fuel : ℕ) (w : World) (fd i : ℕ) (r : ℕ × World)
      → bind_loop os fuel w fd i ≡ returned r
      → (base_port + i ≤ r.0) × (free w (r.0 % 2 ^ 16) ≡ true) × TakenPorts w (base_port + i) r.0
  unfolding bind_loop
  bind_loop_first zero w fd i r e = cc
  bind_loop_first (suc fuel) w fd i r e =
      elim (Bool-cases (bind_inet w fd ((base_port + i) % 2 ^ 16)).0) [
        | inl yes' ↦
            let at : (base_port + i, (bind_inet w fd ((base_port + i) % 2 ^ 16)).1) ≡ r =
              returned-injective (rw yes' at e) in
            rw (← at) (omega arith, sym (bind_free w fd _) ∙ yes', λ q lo hi. absurd (omega arith))
        | inr no' ↦
            let (low, hit, taken) =
              bind_loop_first fuel (bind_inet w fd ((base_port + i) % 2 ^ 16)).1 fd (i + 1) r
                (rw no' at e) in
            let keep = λ (q : ℕ). bind_keeps w fd ((base_port + i) % 2 ^ 16) q no' in
            (
              omega arith,
              sym (keep (r.0 % 2 ^ 16)) ∙ hit,
              λ q lo hi. elim (ℕ_discrete q (base_port + i)) [
                | yes here ↦ rw here (sym (bind_free w fd _) ∙ no')
                | no there ↦ sym (keep (q % 2 ^ 16)) ∙ taken q (omega arith) hi
              ],
            )
      ]

  bind_loop-returns :
      (k : ℕ) (w : World) (fd i : ℕ)
      → free w ((base_port + (i + k)) % 2 ^ 16) ≡ true
      → (r : ℕ × World) × (bind_loop os (suc k) w fd i ≡ returned r) × (r.0 ≤ base_port + (i + k))
  unfolding bind_loop
  bind_loop-returns zero w fd i h =
      let z : i + 0 ≡ i = omega arith in
      let ok = bind_free w fd ((base_port + i) % 2 ^ 16) ∙ (rw z at h) in
      ((base_port + i, (bind_inet w fd ((base_port + i) % 2 ^ 16)).1), rw ok, omega arith)
  bind_loop-returns (suc k) w fd i h =
      elim (Bool-cases (bind_inet w fd ((base_port + i) % 2 ^ 16)).0) [
        | inl yes' ↦
            ((base_port + i, (bind_inet w fd ((base_port + i) % 2 ^ 16)).1), rw yes', omega arith)
        | inr no' ↦
            let z : i + suc k ≡ i + 1 + k = omega arith in
            let (r, ends, low) =
              bind_loop-returns k (bind_inet w fd ((base_port + i) % 2 ^ 16)).1 fd (i + 1)
                (bind_keeps w fd ((base_port + i) % 2 ^ 16) _ no' ∙ (rw z at h)) in
            (r, rw no' ends, omega arith)
      ]

  -- If a port from 8100 and below 65536 is free, the loop ends, after at most as many tries as reach
  -- that port, with
  -- `serverPort` the first free port from 8100 on. It is below 65536, so `htons` has cut nothing off.
  pub bind_loop_first_free :
      (k : ℕ) (w : World) (fd : ℕ)
      → base_port + k < 2 ^ 16
      → free w (base_port + k) ≡ true
      → (r : ℕ × World) × (bind_loop os (suc k) w fd 0 ≡ returned r)
        × (base_port ≤ r.0)
        × (r.0 < 2 ^ 16)
        × (free w r.0 ≡ true)
        × ((q : ℕ) → base_port ≤ q → q < r.0 → free w q ≡ false)
  bind_loop_first_free k w fd small h =
      let here : (base_port + (0 + k)) % 2 ^ 16 ≡ base_port + k = omega arith in
      let (r, ends, low) = bind_loop-returns k w fd 0 (rw here h) in
      let (from, hit, taken) = bind_loop_first (suc k) w fd 0 r ends in
      let whole : r.0 % 2 ^ 16 ≡ r.0 = omega arith in
      (
        r,
        ends,
        omega arith,
        omega arith,
        rw whole at hit,
        λ q lo hi. let cut : q % 2 ^ 16 ≡ q = omega arith in rw cut at (taken q (omega arith) hi),
      )

-- What `start` does not change, and what it always sets.
pub record Started (s s' : Server) : Type 0 where
  pub same_name : s'.server_name ≡ s.server_name
  pub same_dir : s'.server_info_dir ≡ s.server_info_dir
  pub running : s'.server_is_running ≡ true

module _ (os : Os) where
  open os use {World, realpath, socket_unix, socket_inet, mkdir, write_file, listen, set_nonblock}

  unix_open-Started :
      (s : Server) (dir file : Bytes) (o : Option ℕ × World)
      → s.server_is_running ≡ true
      → Started s (unix_open os s dir file o).0
  unfolding unix_open
  unix_open-Started s dir file (none, w) r = record {
    same_name = refl;
    same_dir = refl;
    running = r;
  }
  unix_open-Started s dir file (some fd, w) r = ground arith

  start_unix_socket-Started :
      (w : World) (s : Server) → s.server_is_running ≡ true → Started s (start_unix_socket os w s).0
  unfolding start_unix_socket
  start_unix_socket-Started w s r = elim (Option-cases (realpath w s.server_info_dir).0) [
    | inl e ↦ rw (e, start_unix_socket) (record { same_name = refl; same_dir = refl; running = r })
    | inr (dir, e) ↦
        let file = unix_socket_file s.server_name in
        let u =
          unix_open-Started (record s { unix_socket_path = dir ++ (codes "/" ++ file) }) dir file
            (socket_unix (realpath w s.server_info_dir).1) r in
        rw (e, start_unix_socket)
          (record { same_name = u.same_name; same_dir = u.same_dir; running = u.running })
  ]

  start_files-Started :
      (w : World) (s : Server) (q : Server × World)
      → s.server_is_running ≡ true
      → start_files os w s ≡ returned q
      → Started s q.0
  unfolding start_files
  start_files-Started w s q r e =
      let u = start_unix_socket os (mkdir w s.server_info_dir) s in
      let path = info_file_path u.0.server_info_dir (codes "server_") u.0.server_name in
      elim (Bool-cases (write_file u.1 path (info_text u.0)).0) [
        | inl ok' ↦
            let at : (u.0, (write_file u.1 path (info_text u.0)).1) ≡ q =
              returned-injective (rw ok' at e) in
            rw (← at) (start_unix_socket-Started (mkdir w s.server_info_dir) s r)
        | inr bad ↦ absurd (exited-ne-returned (rw bad at e))
      ]

  start_listening-Started :
      (s : Server) (b : ℕ × World) (q : Server × World)
      → start_listening os s b ≡ returned q
      → Started s q.0
  unfolding start_listening
  start_listening-Started s (port, w) q e =
      let l = listen w s.server_fd in
      let ip = get_ip os l.1 in
      elim (Bool-cases l.0) [
        | inl ok' ↦
            let u =
              start_files-Started ip.1
                (record s { server_port = port; server_ip = ip.0; server_is_running = true }) q refl
                (rw ok' at e) in
            record { same_name = u.same_name; same_dir = u.same_dir; running = u.running }
        | inr bad ↦ absurd (exited-ne-returned (rw bad at e))
      ]

  start_socket-Started :
      (fuel : ℕ) (s : Server) (o : Option ℕ × World) (q : Server × World)
      → start_socket os fuel s o ≡ returned q
      → Started s q.0
  unfolding start_socket
  start_socket-Started fuel s (none, w) q e = cc
  start_socket-Started fuel s (some fd, w) q e =
      let (b, _, f) = >>=-eq-returned (bind_loop os fuel (set_nonblock w fd) fd 0) _ e in
      let u = start_listening-Started (record s { server_fd = fd }) b q f in
      record { same_name = u.same_name; same_dir = u.same_dir; running = u.running }

  -- A `start` that returns keeps the server's name and directory, and has set `serverIsRunning`,
  -- which was not set before.
  pub start-Started :
      (fuel : ℕ) (w : World) (s : Server) (q : Server × World)
      → start os fuel w s ≡ returned q
      → (s.server_is_running ≡ false) × Started s q.0
  unfolding start
  start-Started fuel w s q e = elim (Bool-cases s.server_is_running) [
    | inl up ↦ absurd (exited-ne-returned (rw up at e))
    | inr down ↦ (down, start_socket-Started fuel s (socket_inet w) q (rw down at e))
  ]
