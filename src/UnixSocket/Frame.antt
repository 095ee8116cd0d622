-- ===== src/UnixSocket/Frame.antt =====
-- What `unix_socket_addr` (src/core/socket_server/unix_socket.h) leaves of the open connections.
use multisim.Base.{
  ℕ, ◌≡◌, ◌∙◌, refl, sym, ap, false, Bool, Bool-cases, inl, inr, Bytes, codes, leb, length, ◌++◌,
  Option, none, some,
}
use multisim.UnixSocket.{Addr, to_string, sun_path_size, through_proc, after_open, unix_socket_addr}

-- `is_open w x` says that `x` is an open connection; a directory is none.
module _ {World : Type 0} (open_dir : World → Bytes → Option ℕ × World) (close : World → ℕ → World)
    (is_open : World → ℕ → Bool)
    (open_same : (w : World) (path : Bytes) (x : ℕ) → is_open (open_dir w path).1 x ≡ is_open w x)
    (open_fresh : (w : World) (path : Bytes) (fd : ℕ)
      → (open_dir w path).0 ≡ some fd
      → is_open w fd ≡ false)
    (close_fresh : (w : World) (fd x : ℕ)
      → is_open w fd ≡ false
      → is_open (close w fd) x ≡ is_open w x) where
  -- The connections are those of `w`, and the directory that is left open is none of them.
  pub record Kept (w : World) (a : Addr World) : Type 0 where
    pub same : (x : ℕ) → is_open a.world x ≡ is_open w x
    pub fresh : (d : ℕ) → a.dirfd ≡ some d → is_open w d ≡ false

  through_proc-Kept :
      (w0 w : World) (file : Bytes) (fd : ℕ)
      → ((x : ℕ) → is_open w x ≡ is_open w0 x)
      → is_open w0 fd ≡ false
      → Kept w0 (through_proc open_dir close w file fd)
  unfolding through_proc
  through_proc-Kept w0 w file fd p free =
      let long =
        leb sun_path_size
          (length (codes "/proc/self/fd/" ++ (to_string fd ++ (codes "/" ++ file)))) in
      elim (Bool-cases long) [
        | inl t ↦ rw t (record {
          same = λ x. close_fresh w fd x (p fd ∙ free) ∙ p x;
          fresh = λ d e. absurd cc;
        })
        | inr f ↦ rw f (record {
          same = p;
          fresh = λ d e. let q : fd ≡ d = cc in ap (is_open w0) (sym q) ∙ free;
        })
      ]

  after_open-Kept :
      (w0 : World) (file : Bytes) (o : Option ℕ × World)
      → ((x : ℕ) → is_open o.1 x ≡ is_open w0 x)
      → ((fd : ℕ) → o.0 ≡ some fd → is_open w0 fd ≡ false)
      → Kept w0 (after_open open_dir close file o)
  unfolding after_open
  after_open-Kept w0 file (none, w) p free = record { same = p; fresh = λ d e. absurd cc }
  after_open-Kept w0 file (some fd, w) p free = through_proc-Kept w0 w file fd p (free fd refl)

  pub unix_socket_addr-Kept :
      (w : World) (dir file : Bytes) → Kept w (unix_socket_addr open_dir close w dir file)
  unfolding unix_socket_addr
  unix_socket_addr-Kept w dir file =
      elim (Bool-cases (leb sun_path_size (length (dir ++ (codes "/" ++ file))))) [
        | inl t ↦ rw t (
            after_open-Kept w file (open_dir w dir) (open_same w dir)
              (λ fd e. open_fresh w dir fd e))
        | inr f ↦ rw f (record { same = λ x. refl; fresh = λ d e. absurd cc })
      ]
