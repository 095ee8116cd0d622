-- ===== src/SocketIo/Read.antt =====
-- What `read_msg` (src/core/socket_server/socket_io.h) does to the stream and to the memory.
use multisim.Base.{
  ℕ, zero, suc, ◌+◌, ◌-◌, ◌≤◌, ◌<◌, ◌≡◌, refl, sym, ◌∙◌, ap, ◌⊎◌, inl, inr, [], ◌∷◌, ◌++◌, arith,
  ltb, Bytes, length, drop, returned, returned-injective, append_assoc, append-nil, length-drop,
  length-append, drop-drop, Bool-cases, ltb→lt, ltb_false→le,
}
use multisim.Os.{Os, Errno, Ret, count, failed, Input, bytes, no_bytes, pollin}
use multisim.SocketIo.{
  Round, again, leave, blocked, is_transient, retried, advance, socket_wait_and_retry, write_at,
  after_read, read_loop, read_msg,
}
use multisim.SocketIo.Stream.{IsStream}

-- How many bytes of `size` were taken off the stream by a `read_msg` that returned `r`.
abbrev pub TakenCount : ℕ → Ret → ℕ → Type 0
TakenCount size (failed e) n = n ≡ 0
TakenCount size (count k) n = ((k ≡ size) × (n ≡ size)) ⊎ ((k ≡ 0) × (n < size))

-- The bytes taken off the stream by a `read_msg` of `size` bytes into `dst` that returned `r`: the
-- whole message, nothing where `r` is -1, less than the message where `r` is 0. They stand at the
-- front of the memory, and the rest of it is as it was.
pub record Taken (size : ℕ) (dst before : Bytes) (r : Ret) (dst' after : Bytes) : Type 0 where
  pub taken : Bytes
  pub stream : after ≡ before ++ taken
  pub memory : dst' ≡ taken ++ drop (length taken) dst
  pub counted : TakenCount size r (length taken)

write_at-front :
    (src dst : Bytes) → length src ≤ length dst → write_at dst 0 src ≡ src ++ drop (length src) dst
write_at-front [] [] h = refl
write_at-front [] (x ∷ dst) h = refl
write_at-front (b ∷ src) [] h = absurd (omega arith)
write_at-front (b ∷ src) (x ∷ dst) h = ap (◌∷◌ b) (write_at-front src dst (omega arith))

write_at-append :
    (acc rest src : Bytes) → write_at (acc ++ rest) (length acc) src ≡ acc ++ write_at rest 0 src
write_at-append [] rest src = refl
write_at-append (x ∷ acc) rest src = ap (◌∷◌ x) (write_at-append acc rest src)

write_at-next :
    (acc dst src : Bytes)
    → length acc + length src ≤ length dst
    → write_at (acc ++ drop (length acc) dst) (length acc) src
      ≡ (acc ++ src) ++ drop (length (acc ++ src)) dst
write_at-next acc dst src h =
    rw
      (
        write_at-append acc (drop (length acc) dst) src,
        write_at-front src (drop (length acc) dst) (omega (arith, length-drop (length acc) dst)),
        drop-drop (length acc) (length src) dst,
        length-append acc src,
      )
      (sym (append_assoc acc src _))

module _ (os : Os) (stream : IsStream os) (size : ℕ) (dst before : Bytes)
    (fits : size ≤ length dst) where
  open os use {World, read, wait}
  open stream use {got, read_bytes, read_failed, wait_got}

  -- The variables of the loop behind the bytes `acc`.
  pub record Reading (w : World) (fd : ℕ) (done : ℕ) (cur : Bytes) : Type 0 where
    pub acc : Bytes
    pub at_done : length acc ≡ done
    pub within : done ≤ size
    pub on_stream : got w fd ≡ before ++ acc
    pub in_memory : cur ≡ acc ++ drop (length acc) dst

  abbrev RoundTaken : ℕ → Bytes → Round (ℕ × Bytes) × World → Type 0
  RoundTaken fd cur (again s, w) = Reading w fd s.0 s.1
  RoundTaken fd cur (leave r, w) = Taken size dst before r cur (got w fd)
  RoundTaken fd cur (blocked, w) = Unit {0}

  kept :
      (w : World) (fd n : ℕ) (er : Errno) (w' : World)
      → read w fd n ≡ (no_bytes er, w')
      → got w' fd ≡ got w fd
  kept w fd n er w' e = rw e at (read_failed w fd n er (ap (λ r. r.0) e))

  moved :
      (w : World) (fd n : ℕ) (bs : Bytes) (w' : World)
      → read w fd n ≡ (bytes bs, w')
      → (length bs ≤ n) × (got w' fd ≡ got w fd ++ bs)
  moved w fd n bs w' e = rw e at (read_bytes w fd n bs (ap (λ r. r.0) e))

  -- The loop ends before the message does.
  short :
      (w w' : World) (fd done : ℕ) (cur : Bytes)
      → got w' fd ≡ got w fd
      → done < size
      → Reading w fd done cur
      → Taken size dst before (count 0) cur (got w' fd)
  short w w' fd done cur e h v = record {
    taken = v.acc;
    stream = e ∙ v.on_stream;
    memory = v.in_memory;
    counted = inr (refl, omega (arith, v.at_done));
  }

  round_taken :
      (w : World) (fd done : ℕ) (cur : Bytes) (s : Input × World)
      → read w fd (size - done) ≡ s
      → done < size
      → Reading w fd done cur
      → RoundTaken fd cur (after_read os fd done cur s)
  unfolding after_read socket_wait_and_retry retried
  round_taken w fd done cur (bytes (b ∷ bs), w') e h v =
      let (few, more) = moved w fd (size - done) (b ∷ bs) w' e in
      record {
        acc = v.acc ++ b ∷ bs;
        at_done = omega (arith, length-append v.acc (b ∷ bs), v.at_done);
        within = omega arith;
        on_stream =
            more ∙ ap (λ (x : Bytes). x ++ b ∷ bs) v.on_stream ∙ append_assoc before v.acc _;
        in_memory =
            rw (v.in_memory, ← v.at_done)
              (write_at-next v.acc dst (b ∷ bs) (omega (arith, v.at_done)));
      }
  round_taken w fd zero cur (bytes [], w') e h v =
      short w w' fd 0 cur ((moved w fd (size - 0) [] w' e).1 ∙ append-nil _) h v
  round_taken w fd (suc n) cur (bytes [], w') e h v =
      short w w' fd (suc n) cur ((moved w fd (size - suc n) [] w' e).1 ∙ append-nil _) h v
  round_taken w fd zero cur (no_bytes er, w') e h v = record {
    taken = v.acc;
    stream = kept w fd (size - 0) er w' e ∙ v.on_stream;
    memory = v.in_memory;
    counted = v.at_done;
  }
  round_taken w fd (suc n) cur (no_bytes er, w') e h v = elim (Bool-cases (is_transient er)) [
    | inl t ↦ elim (Bool-cases (os.comes_back w' fd pollin)) [
      | inl back ↦
          rw (t, back)
            (record {
              acc = v.acc;
              at_done = v.at_done;
              within = v.within;
              on_stream = wait_got w' fd pollin ∙ kept w fd (size - suc n) er w' e ∙ v.on_stream;
              in_memory = v.in_memory;
            })
      | inr never ↦ rw (t, never) tt
    ]
    | inr f ↦ rw f (short w w' fd (suc n) cur (kept w fd (size - suc n) er w' e) h v)
  ]

  abbrev Result : Type 0
  Result = Ret × Bytes × World

  next-Taken :
      (fuel : ℕ) (fd : ℕ) (cur : Bytes) (q : Result) (s : Round (ℕ × Bytes) × World)
      → ((n : ℕ) (cur' : Bytes) (w : World)
          → Reading w fd n cur'
          → read_loop os fuel w fd size n cur' ≡ returned q
          → Taken size dst before q.0 q.1 (got q.2 fd))
      → RoundTaken fd cur s
      → advance s (λ v w. read_loop os fuel w fd size v.0 v.1) (λ r w. returned (r, cur, w))
        ≡ returned q
      → Taken size dst before q.0 q.1 (got q.2 fd)
  unfolding advance
  next-Taken fuel fd cur q (again v, w) ih t e = ih v.0 v.1 w t e
  next-Taken fuel fd cur q (blocked, w) ih t e = cc
  next-Taken fuel fd cur q (leave r1, w) ih t e = rw (← returned-injective e) t

  read_loop-Taken :
      (fuel : ℕ) (w : World) (fd done : ℕ) (cur : Bytes) (q : Result)
      → Reading w fd done cur
      → read_loop os fuel w fd size done cur ≡ returned q
      → Taken size dst before q.0 q.1 (got q.2 fd)
  unfolding read_loop
  read_loop-Taken zero w fd done cur q v e = cc
  read_loop-Taken (suc fuel) w fd done cur q v e = elim (Bool-cases (ltb done size)) [
    | inl more ↦
        next-Taken fuel fd cur q (after_read os fd done cur (read w fd (size - done)))
          (λ n c w1 u. read_loop-Taken fuel w1 fd n c q u)
          (round_taken w fd done cur (read w fd (size - done)) refl (ltb→lt _ _ more) v)
          (rw (more, read_loop) at e)
    | inr end ↦
        let full : size ≤ done = ltb_false→le _ _ end in
        let both : (count done, cur, w) ≡ q = returned-injective (rw (end, read_loop) at e) in
        rw (← both) (record {
          taken = v.acc;
          stream = v.on_stream;
          memory = v.in_memory;
          counted = inl (omega (arith, v.within), omega (arith, v.at_done, v.within));
        })
  ]

module _ (os : Os) (stream : IsStream os) where
  open stream use {got}

  -- What a `read_msg` of `size` bytes that returns has done, with the memory at `buf` of at least
  -- that size: it stored the next `size` bytes of the stream at the front of the memory and returned
  -- `size`, or it took nothing and returned -1, or it took less than the message and returned 0. The
  -- memory behind the bytes taken is unchanged in every case.
  pub read_msg-Taken :
      (fuel : ℕ) (w : os.World) (fd size : ℕ) (dst : Bytes) (q : Ret × Bytes × os.World)
      → size ≤ length dst
      → read_msg os fuel w fd size dst ≡ returned q
      → Taken size dst (got w fd) q.0 q.1 (got q.2 fd)
  unfolding read_msg
  read_msg-Taken fuel w fd size dst q fits e =
      read_loop-Taken os stream size dst (got w fd) fits fuel w fd 0 dst q
        (record {
          acc = [];
          at_done = refl;
          within = omega arith;
          on_stream = sym (append-nil (got w fd));
          in_memory = refl;
        })
        e
