-- ===== src/SocketIo/Progress.antt =====
-- The loops of src/core/socket_server/socket_io.h end.
use multisim.Base.{
  ℕ, zero, suc, ◌-◌, ◌≤◌, ◌<◌, ◌≡◌, refl, ap, ◌⊎◌, inl, inr, true, [], ◌∷◌, arith, ltb, Bytes,
  length, drop, returned, Bool-cases, ltb→lt, ltb_false→le,
}
use multisim.Os.{Os, Ret, count, failed, Input, bytes, no_bytes}
use multisim.SocketIo.{
  Round, again, leave, blocked, is_transient, retried, advance, socket_wait_and_retry, after_send,
  send_loop, send_msg, after_read, read_loop, read_msg,
}
use multisim.SocketIo.Stream.{IsResponsive}

module _ (os : Os) (responsive : IsResponsive os) where
  open os use {World, send, read, wait}
  open responsive use {stalls, send_stalls, read_stalls}

  -- A round leaves the loop, or transfers bytes, or uses up one of the stalls.
  abbrev Advances : ℕ → World → ℕ → Round ℕ × World → Type 0
  Advances fd w done (leave r, w') = Unit {0}
  Advances fd w done (blocked, w') = ⊥
  Advances fd w done (again n, w') = (done < n) ⊎ ((n ≡ done) × (stalls w' fd < stalls w fd))

  abbrev ReadAdvances : ℕ → World → ℕ → Round (ℕ × Bytes) × World → Type 0
  ReadAdvances fd w done (leave r, w') = Unit {0}
  ReadAdvances fd w done (blocked, w') = ⊥
  ReadAdvances fd w done (again v, w') =
      (done < v.0) ⊎ ((v.0 ≡ done) × (stalls w' fd < stalls w fd))

  send-Advances :
      (w : World) (fd : ℕ) (buf : Bytes) (done : ℕ) (s : Ret × World)
      → send w fd (drop done buf) ≡ s
      → Advances fd w done (after_send os fd done s)
  unfolding after_send socket_wait_and_retry retried
  send-Advances w fd buf done (count (suc k), w') e = inl (omega arith)
  send-Advances w fd buf zero (count zero, w') e = tt
  send-Advances w fd buf (suc n) (count zero, w') e = tt
  send-Advances w fd buf zero (failed er, w') e = tt
  send-Advances w fd buf (suc n) (failed er, w') e = elim (Bool-cases (is_transient er)) [
    | inl t ↦
        let (back, less) = send_stalls w fd (drop (suc n) buf) er (ap (λ r. r.0) e) t in
        rw (t, rw e at back) (inr (refl, rw e at less))
    | inr f ↦ rw f tt
  ]

  -- Some number of rounds suffices.
  abbrev SendReturns : World → ℕ → Bytes → ℕ → Type 0
  SendReturns w fd buf done =
      (fuel : ℕ) × (q : Ret × World) × (send_loop os fuel w fd buf done ≡ returned q)

  send_end :
      (w : World) (fd : ℕ) (buf : Bytes) (done : ℕ) → length buf ≤ done → SendReturns w fd buf done
  unfolding send_loop
  send_end w fd buf done h = (1, (count done, w), ground arith)

  send_step :
      (w : World) (fd : ℕ) (buf : Bytes) (done : ℕ) (s : Round ℕ × World)
      → ltb done (length buf) ≡ true
      → after_send os fd done (send w fd (drop done buf)) ≡ s
      → Advances fd w done s
      → ((n : ℕ) (w' : World)
          → (done < n) ⊎ ((n ≡ done) × (stalls w' fd < stalls w fd))
          → SendReturns w' fd buf n)
      → SendReturns w fd buf done
  unfolding send_loop advance
  send_step w fd buf done (blocked, w') more e a ih = absurd a
  send_step w fd buf done (leave r, w') more e a ih = (1, (r, w'), rw (more, e))
  send_step w fd buf done (again n, w') more e a ih =
      let (fuel, q, h) = ih n w' a in (suc fuel, q, rw (more, e) h)

  -- First the bytes that are left, then the stalls.
  send_loop-returns :
      (left stall : ℕ) (w : World) (fd : ℕ) (buf : Bytes) (done : ℕ)
      → length buf - done ≤ left
      → stalls w fd ≤ stall
      → SendReturns w fd buf done
  send_loop-returns zero stall w fd buf done h k = send_end w fd buf done (omega arith)
  send_loop-returns (suc left) zero w fd buf done h k = elim (Bool-cases (ltb done (length buf))) [
    | inl more ↦
        send_step w fd buf done _ more refl
          (send-Advances w fd buf done (send w fd (drop done buf)) refl)
          λ n w' a.
            send_loop-returns left (stalls w' fd) w' fd buf n (ground (arith, ltb→lt _ _ more))
              (omega arith)
    | inr end ↦ send_end w fd buf done (ltb_false→le _ _ end)
  ]
  send_loop-returns (suc left) (suc stall) w fd buf done h k =
      elim (Bool-cases (ltb done (length buf))) [
        | inl more ↦
            send_step w fd buf done _ more refl
              (send-Advances w fd buf done (send w fd (drop done buf)) refl)
              λ n w' a. elim a [
                | inl grown ↦
                    send_loop-returns left (stalls w' fd) w' fd buf n
                      (omega (arith, ltb→lt _ _ more)) (omega arith)
                | inr (same, less) ↦
                    send_loop-returns (suc left) stall w' fd buf n (omega arith) (omega arith)
              ]
        | inr end ↦ send_end w fd buf done (ltb_false→le _ _ end)
      ]

  -- `send_msg` returns: where each poll() for POLLOUT comes back and transient failures come to an
  -- end, it has a result with enough rounds, whatever else the socket does, since each round transfers bytes, leaves the loop or uses up one of finitely many stalls.
  pub send_msg_returns :
      (w : World) (fd : ℕ) (buf : Bytes)
      → (fuel : ℕ) × (q : Ret × World) × (send_msg os fuel w fd buf ≡ returned q)
  unfolding send_msg
  send_msg_returns w fd buf =
      send_loop-returns (length buf) (stalls w fd) w fd buf 0 (omega arith) (omega arith)

  read-Advances :
      (w : World) (fd size done : ℕ) (cur : Bytes) (s : Input × World)
      → read w fd (size - done) ≡ s
      → ReadAdvances fd w done (after_read os fd done cur s)
  unfolding after_read socket_wait_and_retry retried
  read-Advances w fd size done cur (bytes (b ∷ bs), w') e = inl (omega arith)
  read-Advances w fd size zero cur (bytes [], w') e = tt
  read-Advances w fd size (suc n) cur (bytes [], w') e = tt
  read-Advances w fd size zero cur (no_bytes er, w') e = tt
  read-Advances w fd size (suc n) cur (no_bytes er, w') e = elim (Bool-cases (is_transient er)) [
    | inl t ↦
        let (back, less) = read_stalls w fd (size - suc n) er (ap (λ r. r.0) e) t in
        rw (t, rw e at back) (inr (refl, rw e at less))
    | inr f ↦ rw f tt
  ]

  abbrev ReadReturns : World → ℕ → ℕ → ℕ → Bytes → Type 0
  ReadReturns w fd size done cur =
      (fuel : ℕ) × (q : Ret × Bytes × World) × (read_loop os fuel w fd size done cur ≡ returned q)

  read_end :
      (w : World) (fd size done : ℕ) (cur : Bytes) → size ≤ done → ReadReturns w fd size done cur
  unfolding read_loop
  read_end w fd size done cur h = (1, (count done, cur, w), ground arith)

  read_step :
      (w : World) (fd size done : ℕ) (cur : Bytes) (s : Round (ℕ × Bytes) × World)
      → ltb done size ≡ true
      → after_read os fd done cur (read w fd (size - done)) ≡ s
      → ReadAdvances fd w done s
      → ((n : ℕ) (cur' : Bytes) (w' : World)
          → (done < n) ⊎ ((n ≡ done) × (stalls w' fd < stalls w fd))
          → ReadReturns w' fd size n cur')
      → ReadReturns w fd size done cur
  unfolding read_loop advance
  read_step w fd size done cur (blocked, w') more e a ih = absurd a
  read_step w fd size done cur (leave r, w') more e a ih = (1, (r, cur, w'), rw (more, e))
  read_step w fd size done cur (again v, w') more e a ih =
      let (fuel, q, h) = ih v.0 v.1 w' a in (suc fuel, q, rw (more, e) h)

  read_loop-returns :
      (left stall : ℕ) (w : World) (fd size done : ℕ) (cur : Bytes)
      → size - done ≤ left
      → stalls w fd ≤ stall
      → ReadReturns w fd size done cur
  read_loop-returns zero stall w fd size done cur h k = read_end w fd size done cur (omega arith)
  read_loop-returns (suc left) zero w fd size done cur h k = elim (Bool-cases (ltb done size)) [
    | inl more ↦
        read_step w fd size done cur _ more refl
          (read-Advances w fd size done cur (read w fd (size - done)) refl)
          λ n c w' a.
            read_loop-returns left (stalls w' fd) w' fd size n c (ground (arith, ltb→lt _ _ more))
              (omega arith)
    | inr end ↦ read_end w fd size done cur (ltb_false→le _ _ end)
  ]
  read_loop-returns (suc left) (suc stall) w fd size done cur h k =
      elim (Bool-cases (ltb done size)) [
        | inl more ↦
            read_step w fd size done cur _ more refl
              (read-Advances w fd size done cur (read w fd (size - done)) refl)
              λ n c w' a. elim a [
                | inl grown ↦
                    read_loop-returns left (stalls w' fd) w' fd size n c
                      (omega (arith, ltb→lt _ _ more)) (omega arith)
                | inr (same, less) ↦
                    read_loop-returns (suc left) stall w' fd size n c (omega arith) (omega arith)
              ]
        | inr end ↦ read_end w fd size done cur (ltb_false→le _ _ end)
      ]

  -- `read_msg` returns: where each poll() for POLLIN comes back and transient failures come to an end,
  -- it has a result with enough rounds, whatever else the socket does, since each round takes bytes, leaves the loop or uses up one of finitely many stalls.
  pub read_msg_returns :
      (w : World) (fd size : ℕ) (dst : Bytes)
      → (fuel : ℕ) × (q : Ret × Bytes × World) × (read_msg os fuel w fd size dst ≡ returned q)
  unfolding read_msg
  read_msg_returns w fd size dst =
      read_loop-returns size (stalls w fd) w fd size 0 dst (omega arith) (omega arith)
