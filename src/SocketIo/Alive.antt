-- ===== src/SocketIo/Alive.antt =====
-- `send_msg` and `read_msg` (src/core/socket_server/socket_io.h) with a peer that stays.
use multisim.Base.{
  true, ℕ, zero, suc, ◌+◌, ◌-◌, ◌≡◌, ◌⊎◌, ◌<◌, ◌∙◌, sym, ap, inl, inr, Bytes, length, drop, ltb,
  ltb→lt, ltb_false→le, Bool-cases, length-drop, running-ne-returned, returned, returned-injective,
  arith, [], ◌∷◌,
}
use multisim.Os.{
  Os, Ret, count, failed, Errno, eagain, ewouldblock, eintr, other, Input, bytes, no_bytes, pollin,
  pollout,
}
use multisim.SocketIo.{
  send_msg, send_loop, after_send, retried, socket_wait_and_retry, advance, is_transient,
  after_read, read_loop, read_msg,
}

-- A send takes something, or would block.
abbrev pub Taking : Ret → Type 0
Taking r = ((k : ℕ) × (r ≡ count (suc k))) ⊎ ((r ≡ failed eagain) ⊎ (r ≡ failed ewouldblock))

-- The peer of `fd` stays.
pub record IsAlive (os : Os) (fd : ℕ) : Type 0 where
  pub takes : (w : os.World) (buf : Bytes) → 0 < length buf → Taking (os.send w fd buf).0

-- A message is sent whole, or would block before its first byte.
pub data Whole (r : Ret) : Type 0 where
  whole : (k : ℕ) → r ≡ count (suc k) → Whole r
  blocks : (r ≡ failed eagain) ⊎ (r ≡ failed ewouldblock) → Whole r

not-zero : Taking (count zero) → ⊥
not-zero (inl (k, e)) = absurd cc
not-zero (inr (inl e)) = absurd cc
not-zero (inr (inr e)) = absurd cc

not-eintr : Taking (failed eintr) → ⊥
not-eintr (inl (k, e)) = absurd cc
not-eintr (inr (inl e)) = absurd cc
not-eintr (inr (inr e)) = absurd cc

not-other : (n : ℕ) → Taking (failed (other n)) → ⊥
not-other n (inl (k, e)) = absurd cc
not-other n (inr (inl e)) = absurd cc
not-other n (inr (inr e)) = absurd cc

module _ (os : Os) (fd : ℕ) (alive : IsAlive os fd) where
  after_send-Whole :
      (fuel : ℕ) (buf : Bytes) (done : ℕ) (q r : Ret × os.World)
      → ((w : os.World) (d : ℕ) → send_loop os fuel w fd buf d ≡ returned r → Whole r.0)
      → Taking q.0
      → advance
          (after_send os fd done q)
          (λ d w. send_loop os fuel w fd buf d)
          (λ v w. returned (v, w))
        ≡ returned r
      → Whole r.0
  unfolding after_send advance retried socket_wait_and_retry is_transient
  after_send-Whole fuel buf done (count (suc k), w) r ih h e = ih w (done + suc k) e
  after_send-Whole fuel buf done (count zero, w) r ih h e = absurd (not-zero h)
  after_send-Whole fuel buf zero (failed er, w) r ih h e =
      let same : failed er ≡ r.0 = ap (λ (x : Ret × os.World). x.0) (returned-injective e) in
      elim h [
        | inl (k, bad) ↦ absurd cc
        | inr b ↦ blocks (elim b [ inl x ↦ inl (sym same ∙ x) | inr x ↦ inr (sym same ∙ x) ])
      ]
  after_send-Whole fuel buf (suc done) (failed eagain, w) r ih h e =
      elim (Bool-cases (os.comes_back w fd pollout)) [
        | inl back ↦ ih _ _ (rw back at e)
        | inr never ↦ absurd (running-ne-returned (rw never at e))
      ]
  after_send-Whole fuel buf (suc done) (failed ewouldblock, w) r ih h e =
      elim (Bool-cases (os.comes_back w fd pollout)) [
        | inl back ↦ ih _ _ (rw back at e)
        | inr never ↦ absurd (running-ne-returned (rw never at e))
      ]
  after_send-Whole fuel buf (suc done) (failed eintr, w) r ih h e = absurd (not-eintr h)
  after_send-Whole fuel buf (suc done) (failed (other n), w) r ih h e = absurd (not-other n h)

  send_loop-Whole :
      (fuel : ℕ) (w : os.World) (buf : Bytes) (done : ℕ) (r : Ret × os.World)
      → 0 < length buf
      → send_loop os fuel w fd buf done ≡ returned r
      → Whole r.0
  unfolding send_loop
  send_loop-Whole zero w buf done r h e = cc
  send_loop-Whole (suc fuel) w buf done r h e = elim (Bool-cases (ltb done (length buf))) [
    | inl more ↦
        let lt = ltb→lt done (length buf) more in
        after_send-Whole fuel buf done (os.send w fd (drop done buf)) r
          (λ w' d e'. send_loop-Whole fuel w' buf d r h e')
          (alive.takes w (drop done buf) (omega (arith, length-drop done buf))) (rw more at e)
    | inr end ↦
        let le = ltb_false→le done (length buf) end in
        let same = ap (λ (x : Ret × os.World). x.0) (returned-injective (rw end at e)) in
        whole (done - 1) (sym same ∙ ap count (omega arith))
  ]

  pub send_msg-Whole :
      (fuel : ℕ) (w : os.World) (buf : Bytes) (r : Ret × os.World)
      → 0 < length buf
      → send_msg os fuel w fd buf ≡ returned r
      → Whole r.0
  unfolding send_msg
  send_msg-Whole fuel w buf r h e = send_loop-Whole fuel w buf 0 r h e

-- A read gives something, or would block.
pub record IsFed (os : Os) (fd : ℕ) : Type 0 where
  pub gives :
      (w : os.World) (n : ℕ)
      → 0 < n
      → ((b : ℕ) × (bs : Bytes) × ((os.read w fd n).0 ≡ bytes (b ∷ bs)))
        ⊎ ((e : Errno) × ((os.read w fd n).0 ≡ no_bytes e) × (is_transient e ≡ true))

-- A message is read whole, or nothing of it is there.
pub data WholeRead (r : Ret) : Type 0 where
  whole_read : (k : ℕ) → r ≡ count (suc k) → WholeRead r
  nothing_read : (e : Errno) → r ≡ failed e → WholeRead r

module _ (os : Os) (fd : ℕ) (fed : IsFed os fd) where
  after_read-WholeRead :
      (fuel size : ℕ) (done : ℕ) (dst : Bytes) (q : Input × os.World) (r : Ret × Bytes × os.World)
      → ((w : os.World) (d : ℕ) (cur : Bytes)
          → read_loop os fuel w fd size d cur ≡ returned r
          → WholeRead r.0)
      → ((b : ℕ) × (bs : Bytes) × (q.0 ≡ bytes (b ∷ bs)))
        ⊎ ((e : Errno) × (q.0 ≡ no_bytes e) × (is_transient e ≡ true))
      → advance
          (after_read os fd done dst q)
          (λ s w. read_loop os fuel w fd size s.0 s.1)
          (λ v w. returned (v, dst, w))
        ≡ returned r
      → WholeRead r.0
  unfolding after_read advance retried socket_wait_and_retry
  after_read-WholeRead fuel size done dst (bytes (b ∷ bs), w) r ih h e = ih _ _ _ e
  after_read-WholeRead fuel size done dst (bytes [], w) r ih (inl (b, bs, x)) e = absurd cc
  after_read-WholeRead fuel size done dst (bytes [], w) r ih (inr (er, x, t)) e = absurd cc
  after_read-WholeRead fuel size zero dst (no_bytes er, w) r ih h e =
      nothing_read er (sym (ap (λ (x : Ret × Bytes × os.World). x.0) (returned-injective e)))
  after_read-WholeRead fuel size (suc done) dst (no_bytes er, w) r ih (inl (b, bs, x)) e = absurd cc
  after_read-WholeRead fuel size (suc done) dst (no_bytes er, w) r ih (inr (er', x, t)) e =
      let same : er ≡ er' = cc in
      let t' : is_transient er ≡ true = ap is_transient same ∙ t in
      elim (Bool-cases (os.comes_back w fd pollin)) [
        | inl back ↦ ih _ _ _ (rw (t', back) at e)
        | inr never ↦ absurd (running-ne-returned (rw (t', never) at e))
      ]

  read_loop-WholeRead :
      (fuel : ℕ) (w : os.World) (size done : ℕ) (dst : Bytes) (r : Ret × Bytes × os.World)
      → 0 < size
      → read_loop os fuel w fd size done dst ≡ returned r
      → WholeRead r.0
  unfolding read_loop
  read_loop-WholeRead zero w size done dst r h e = cc
  read_loop-WholeRead (suc fuel) w size done dst r h e = elim (Bool-cases (ltb done size)) [
    | inl more ↦
        after_read-WholeRead fuel size done dst (os.read w fd (size - done)) r
          (λ w' d cur e'. read_loop-WholeRead fuel w' size d cur r h e')
          (fed.gives w (size - done) (omega (arith, ltb→lt done size more))) (rw more at e)
    | inr end ↦
        let le = ltb_false→le done size end in
        let same = ap (λ (x : Ret × Bytes × os.World). x.0) (returned-injective (rw end at e)) in
        whole_read (done - 1) (sym same ∙ ap count (omega arith))
  ]

  pub read_msg-WholeRead :
      (fuel : ℕ) (w : os.World) (size : ℕ) (dst : Bytes) (r : Ret × Bytes × os.World)
      → 0 < size
      → read_msg os fuel w fd size dst ≡ returned r
      → WholeRead r.0
  unfolding read_msg
  read_msg-WholeRead fuel w size dst r h e = read_loop-WholeRead fuel w size 0 dst r h e
