-- ===== src/SocketIo/Frame.antt =====
-- What `send`, `read` and `poll` keep, `send_msg` and `read_msg` (src/core/socket_server/socket_io.h)
-- keep too.
use multisim.Base.{
  ℕ, zero, suc, ◌-◌, ◌≡◌, subst, [], ◌∷◌, ltb, Bytes, length, drop, inl, inr, Bool-cases, returned,
  returned-injective,
}
use multisim.Os.{Os, Ret, count, failed, Input, bytes, no_bytes, Events, pollin, pollout}
use multisim.SocketIo.{
  Round, again, leave, blocked, is_transient, retried, advance, socket_wait_and_retry, after_send,
  send_loop, send_msg, after_read, read_loop, read_msg,
}

-- A property `P` of the system that the calls on `fd` keep.
module _ (os : Os) (P : os.World → Type 0) (fd : ℕ)
    (on_wait : (w : os.World) (ev : Events) → P w → P (os.wait w fd ev)) where
  retry-keeps :
      {S : Type 0} (w : os.World) (ev : Events) (done : ℕ) (r : Ret) (v : S)
      → P w
      → P (retried v (socket_wait_and_retry os w fd ev done r)).1
  unfolding retried socket_wait_and_retry
  retry-keeps w ev zero (count zero) v h = h
  retry-keeps w ev zero (count (suc k)) v h = h
  retry-keeps w ev zero (failed e) v h = h
  retry-keeps w ev (suc n) (count k) v h = h
  retry-keeps w ev (suc n) (failed e) v h = elim (Bool-cases (is_transient e)) [
    | inl t ↦ elim (Bool-cases (os.comes_back w fd ev)) [
      | inl y ↦ rw (t, y) (on_wait w ev h)
      | inr n ↦ rw (t, n) (on_wait w ev h)
    ]
    | inr f ↦ rw f h
  ]

  module _ (on_send : (w : os.World) (buf : Bytes) → P w → P (os.send w fd buf).1) where
    after_send-keeps : (done : ℕ) (q : Ret × os.World) → P q.1 → P (after_send os fd done q).1
    unfolding after_send
    after_send-keeps done (count (suc k), w) h = h
    after_send-keeps done (count zero, w) h = retry-keeps w pollout done (count 0) done h
    after_send-keeps done (failed e, w) h = retry-keeps w pollout done (failed e) done h

    next_send-keeps :
        (fuel : ℕ) (buf : Bytes) (a : Round ℕ × os.World) (q : Ret × os.World)
        → ((w : os.World) (done : ℕ) → P w → send_loop os fuel w fd buf done ≡ returned q → P q.1)
        → P a.1
        → advance a (λ d w. send_loop os fuel w fd buf d) (λ r w. returned (r, w)) ≡ returned q
        → P q.1
    unfolding advance
    next_send-keeps fuel buf (again d, w) q ih h e = ih w d h e
    next_send-keeps fuel buf (blocked, w) q ih h e = cc
    next_send-keeps fuel buf (leave r, w) q ih h e = subst (λ x. P x.1) (returned-injective e) h

    send_loop-keeps :
        (fuel : ℕ) (w : os.World) (buf : Bytes) (done : ℕ) (q : Ret × os.World)
        → P w
        → send_loop os fuel w fd buf done ≡ returned q
        → P q.1
    unfolding send_loop
    send_loop-keeps zero w buf done q h e = cc
    send_loop-keeps (suc fuel) w buf done q h e = elim (Bool-cases (ltb done (length buf))) [
      | inl more ↦
          next_send-keeps fuel buf (after_send os fd done (os.send w fd (drop done buf))) q
            (λ w' d h' e'. send_loop-keeps fuel w' buf d q h' e')
            (after_send-keeps done (os.send w fd (drop done buf)) (on_send w (drop done buf) h))
            (rw more at e)
      | inr end ↦ subst (λ (x : Ret × os.World). P x.1) (returned-injective (rw end at e)) h
    ]

    pub send_msg-keeps :
        (fuel : ℕ) (w : os.World) (buf : Bytes) (q : Ret × os.World)
        → P w
        → send_msg os fuel w fd buf ≡ returned q
        → P q.1
    unfolding send_msg
    send_msg-keeps fuel w buf q h e = send_loop-keeps fuel w buf 0 q h e

  module _ (on_read : (w : os.World) (n : ℕ) → P w → P (os.read w fd n).1) where
    after_read-keeps :
        (done : ℕ) (dst : Bytes) (q : Input × os.World) → P q.1 → P (after_read os fd done dst q).1
    unfolding after_read
    after_read-keeps done dst (bytes (b ∷ bs), w) h = h
    after_read-keeps done dst (bytes [], w) h = retry-keeps w pollin done (count 0) (done, dst) h
    after_read-keeps done dst (no_bytes e, w) h = retry-keeps w pollin done (failed e) (done, dst) h

    next_read-keeps :
        (fuel size : ℕ) (dst : Bytes) (a : Round (ℕ × Bytes) × os.World)
        (q : Ret × Bytes × os.World)
        → ((w : os.World) (done : ℕ) (cur : Bytes)
            → P w
            → read_loop os fuel w fd size done cur ≡ returned q
            → P q.2)
        → P a.1
        → advance a (λ s w. read_loop os fuel w fd size s.0 s.1) (λ r w. returned (r, dst, w))
          ≡ returned q
        → P q.2
    unfolding advance
    next_read-keeps fuel size dst (again s, w) q ih h e = ih w s.0 s.1 h e
    next_read-keeps fuel size dst (blocked, w) q ih h e = cc
    next_read-keeps fuel size dst (leave r, w) q ih h e =
        subst (λ (x : Ret × Bytes × os.World). P x.2) (returned-injective e) h

    read_loop-keeps :
        (fuel : ℕ) (w : os.World) (size done : ℕ) (dst : Bytes) (q : Ret × Bytes × os.World)
        → P w
        → read_loop os fuel w fd size done dst ≡ returned q
        → P q.2
    unfolding read_loop
    read_loop-keeps zero w size done dst q h e = cc
    read_loop-keeps (suc fuel) w size done dst q h e = elim (Bool-cases (ltb done size)) [
      | inl more ↦
          next_read-keeps fuel size dst (after_read os fd done dst (os.read w fd (size - done))) q
            (λ w' d cur h' e'. read_loop-keeps fuel w' size d cur q h' e')
            (after_read-keeps done dst (os.read w fd (size - done)) (on_read w (size - done) h))
            (rw more at e)
      | inr end ↦ subst (λ (x : Ret × Bytes × os.World). P x.2) (returned-injective (rw end at e)) h
    ]

    pub read_msg-keeps :
        (fuel : ℕ) (w : os.World) (size : ℕ) (dst : Bytes) (q : Ret × Bytes × os.World)
        → P w
        → read_msg os fuel w fd size dst ≡ returned q
        → P q.2
    unfolding read_msg
    read_msg-keeps fuel w size dst q h e = read_loop-keeps fuel w size 0 dst q h e
