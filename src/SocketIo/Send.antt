-- ===== src/SocketIo/Send.antt =====
-- What `send_msg` (src/core/socket_server/socket_io.h) does to the stream.
use multisim.Base.{
  ℕ, zero, suc, ◌+◌, ◌≤◌, ◌<◌, ◌≡◌, refl, sym, ◌∙◌, ap, ◌⊎◌, inl, inr, ◌++◌, arith, ltb, Bytes,
  length, take, drop, returned, returned-injective, append_assoc, append-nil, length-drop, ltb→lt,
  ltb_false→le, take-add, take_all, Bool-cases,
}
use multisim.Os.{Os, Errno, Ret, count, failed, pollout}
use multisim.SocketIo.{
  Round, again, leave, blocked, is_transient, retried, advance, socket_wait_and_retry, after_send,
  send_loop, send_msg,
}
use multisim.SocketIo.Stream.{IsStream}

-- The bytes on the stream before and after a `send_msg` of `buf` that returned `r`: all of `buf`
-- where `r` is its size, a first part of it where `r` is 0, nothing where `r` is -1.
abbrev pub Sent : Bytes → Bytes → Ret → Bytes → Type 0
Sent buf before (failed e) after = after ≡ before
Sent buf before (count n) after =
    ((n ≡ length buf) × (after ≡ before ++ buf))
    ⊎ ((n ≡ 0) × ((k : ℕ) × (k < length buf) × (after ≡ before ++ take k buf)))

module _ (os : Os) (stream : IsStream os) where
  open os use {World, send, wait}
  open stream use {sent, send_count, send_failed, wait_sent}

  -- What one round leaves behind, at `done` bytes of `buf` on the stream.
  abbrev RoundSent : Bytes → Bytes → ℕ → ℕ → Round ℕ × World → Type 0
  RoundSent buf before fd done (again n, w) = (n ≤ length buf) × (sent w fd ≡ before ++ take n buf)
  RoundSent buf before fd done (leave r, w) = Sent buf before r (sent w fd)
  RoundSent buf before fd done (blocked, w) = Unit {0}

  kept :
      (w : World) (fd : ℕ) (b : Bytes) (er : Errno) (w' : World)
      → send w fd b ≡ (failed er, w')
      → sent w' fd ≡ sent w fd
  kept w fd b er w' e = rw e at (send_failed w fd b er (ap (λ r. r.0) e))

  grow :
      (w : World) (fd : ℕ) (buf before : Bytes) (done k : ℕ) (w' : World)
      → send w fd (drop done buf) ≡ (count k, w')
      → done < length buf
      → sent w fd ≡ before ++ take done buf
      → (done + k ≤ length buf) × (sent w' fd ≡ before ++ take (done + k) buf)
  grow w fd buf before done k w' e h p =
      let (fits, moved) = send_count w fd (drop done buf) k (ap (λ r. r.0) e) in
      let moved' : sent w' fd ≡ sent w fd ++ take k (drop done buf) = rw e at moved in
      (
        omega (arith, length-drop done buf),
        rw (moved', p, take-add done k buf) (append_assoc before (take done buf) _),
      )

  stay :
      (w : World) (fd : ℕ) (buf before : Bytes) (done : ℕ) (w' : World)
      → send w fd (drop done buf) ≡ (count 0, w')
      → done < length buf
      → sent w fd ≡ before ++ take done buf
      → sent w' fd ≡ before ++ take done buf
  stay w fd buf before done w' e h p =
      let g = (grow w fd buf before done 0 w' e h p).1 in
      let z : done + 0 ≡ done = omega arith in rw z at g

  round_sent :
      (w : World) (fd : ℕ) (buf before : Bytes) (done : ℕ) (s : Ret × World)
      → send w fd (drop done buf) ≡ s
      → done < length buf
      → sent w fd ≡ before ++ take done buf
      → RoundSent buf before fd done (after_send os fd done s)
  unfolding after_send socket_wait_and_retry retried
  round_sent w fd buf before done (count (suc k), w') e h p =
      grow w fd buf before done (suc k) w' e h p
  round_sent w fd buf before zero (count zero, w') e h p =
      inr (refl, (0, h, (grow w fd buf before 0 0 w' e h p).1))
  round_sent w fd buf before (suc n) (count zero, w') e h p =
      inr (refl, (suc n, h, stay w fd buf before (suc n) w' e h p))
  round_sent w fd buf before zero (failed er, w') e h p =
      kept w fd (drop 0 buf) er w' e ∙ p ∙ append-nil before
  round_sent w fd buf before (suc n) (failed er, w') e h p = elim (Bool-cases (is_transient er)) [
    | inl t ↦ elim (Bool-cases (os.comes_back w' fd pollout)) [
      | inl back ↦
          rw (t, back)
            (omega arith, wait_sent w' fd pollout ∙ kept w fd (drop (suc n) buf) er w' e ∙ p)
      | inr never ↦ rw (t, never) tt
    ]
    | inr f ↦ rw f (inr (refl, (suc n, h, kept w fd (drop (suc n) buf) er w' e ∙ p)))
  ]

  next_sent :
      (fuel : ℕ) (w' : World) (fd : ℕ) (buf before : Bytes) (done : ℕ) (r : Ret)
      (s : Round ℕ × World)
      → ((n : ℕ) (w : World)
          → n ≤ length buf
          → sent w fd ≡ before ++ take n buf
          → send_loop os fuel w fd buf n ≡ returned (r, w')
          → Sent buf before r (sent w' fd))
      → RoundSent buf before fd done s
      → advance s (λ n w. send_loop os fuel w fd buf n) (λ r' w. returned (r', w))
        ≡ returned (r, w')
      → Sent buf before r (sent w' fd)
  unfolding advance
  next_sent fuel w' fd buf before done r (again n, w) ih (h, p) e = ih n w h p e
  next_sent fuel w' fd buf before done r (blocked, w) ih q e = cc
  next_sent fuel w' fd buf before done r (leave r1, w) ih q e =
      let same : r1 ≡ r = cc in let there : w ≡ w' = cc in rw (← same, ← there) q

  send_loop-Sent :
      (fuel : ℕ) (w w' : World) (fd : ℕ) (buf before : Bytes) (done : ℕ) (r : Ret)
      → done ≤ length buf
      → sent w fd ≡ before ++ take done buf
      → send_loop os fuel w fd buf done ≡ returned (r, w')
      → Sent buf before r (sent w' fd)
  unfolding send_loop
  send_loop-Sent zero w w' fd buf before done r h p e = cc
  send_loop-Sent (suc fuel) w w' fd buf before done r h p e =
      elim (Bool-cases (ltb done (length buf))) [
        | inl more ↦
            next_sent fuel w' fd buf before done r
              (after_send os fd done (send w fd (drop done buf)))
              (λ n w1 b q. send_loop-Sent fuel w1 w' fd buf before n r b q)
              (round_sent w fd buf before done (send w fd (drop done buf)) refl (ltb→lt _ _ more) p)
              (rw (more, send_loop) at e)
        | inr end ↦
            let all : length buf ≤ done = ltb_false→le _ _ end in
            let both : ◌≡◌ {A = Ret × World} (count done, w) (r, w') =
              returned-injective (rw (end, send_loop) at e) in
            let same : count done ≡ r = ap (λ p. p.0) both in
            let there : w ≡ w' = ap (λ p. p.1) both in
            rw (← same, ← there)
              (inl (omega arith, rw p (ap (◌++◌ before) (take_all done buf all))))
      ]

  -- What a `send_msg` that returns has done to the stream: it put all of the message there and
  -- returned its size, or nothing and returned -1, or it returned 0 behind a part of the message.
  pub send_msg-Sent :
      (fuel : ℕ) (w w' : World) (fd : ℕ) (buf : Bytes) (r : Ret)
      → send_msg os fuel w fd buf ≡ returned (r, w')
      → Sent buf (sent w fd) r (sent w' fd)
  unfolding send_msg
  send_msg-Sent fuel w w' fd buf r e =
      send_loop-Sent fuel w w' fd buf (sent w fd) 0 r (omega arith) (sym (append-nil (sent w fd))) e
