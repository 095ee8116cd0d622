-- ===== src/UnixSocket/Laws.antt =====
-- Laws of `unix_socket_file` and `unix_socket_addr` (src/core/socket_server/unix_socket.h).
use mathlib.Core.Option.{some-ne-none}
use multisim.Base.{
  ℕ, zero, suc, ◌+◌, ◌/◌, ◌%◌, ◌≤◌, ◌<◌, ◌≡◌, ◌≢◌, refl, [], ◌∷◌, ◌++◌, arith, leb, Bytes, codes,
  length, take, Option, none, some, length-append, length-take, Bool-cases, inl, inr, ◌⊎◌,
}
use multisim.InfoFile.{fnv1a_hash_str}
use multisim.InfoFile.Hash.{length-fnv1a_hash_str}
use multisim.UnixSocket.{
  unix_socket_file, decimal, to_string, sun_path_size, Addr, through_proc, after_open,
  unix_socket_addr,
}

-- The name of the socket's file has 76 bytes at most, whatever the server's name.
length-unix_socket_file-le : (name : Bytes) → length (unix_socket_file name) ≤ 76
unfolding unix_socket_file
length-unix_socket_file-le name = ground (
  arith,
  length-append name (codes ".sock"),
  length-append (take 40 name) (codes "_" ++ (fnv1a_hash_str name ++ codes ".sock")),
  length-append (fnv1a_hash_str name) (codes ".sock"),
  length-fnv1a_hash_str name,
  length-take 40 name,
)

length-decimal-le : (fuel n : ℕ) → length (decimal fuel n) ≤ suc fuel
unfolding decimal
length-decimal-le zero n = omega arith
length-decimal-le (suc fuel) n = ground (
  arith,
  length-decimal-le fuel (n / 10),
  length-append (decimal fuel (n / 10)) ((b'0' + n % 10) ∷ []),
)

module _ {World : Type 0} (open_dir : World → Bytes → Option ℕ × World)
    (close : World → ℕ → World) where
  -- A path that is handed to `bind` or `connect` fits `sun_path` with its final zero byte: the
  -- `strcpy` stays in bounds, for any directory and file.
  pub length-unix_socket_addr-lt :
      (w : World) (dir file : Bytes) {p : Bytes}
      → (unix_socket_addr open_dir close w dir file).path ≡ some p
      → length p < sun_path_size
  unfolding unix_socket_addr
  length-unix_socket_addr-lt w dir file e = ground arith

  length-proc_path-lt :
      (file : Bytes) (fd : ℕ)
      → length file ≤ 76
      → length (codes "/proc/self/fd/" ++ (to_string fd ++ (codes "/" ++ file))) < sun_path_size
  length-proc_path-lt file fd h =
      omega (arith, length-append (to_string fd) (codes "/" ++ file), length-decimal-le 9 fd)

  after_open-path :
      (w : World) (file : Bytes) (fd : ℕ)
      → length file ≤ 76
      → after_open open_dir close file (some fd, w) ≡ record {
        path = some (codes "/proc/self/fd/" ++ (to_string fd ++ (codes "/" ++ file)));
        dirfd = some fd;
        world = w;
      }
  unfolding after_open
  after_open-path w file fd h = ground (arith, length-proc_path-lt file fd h)

  -- For the socket of a server, whatever its name, the address fails only where the directory
  -- cannot be opened: the way through /proc/self/fd is short enough.
  pub unix_socket_addr_found :
      (w w' : World) (dir name : Bytes) (fd : ℕ)
      → open_dir w dir ≡ (some fd, w')
      → (unix_socket_addr open_dir close w dir (unix_socket_file name)).path ≢ none
  unfolding unix_socket_addr
  unix_socket_addr_found w w' dir name fd e =
      ground
        (arith, after_open-path w' (unix_socket_file name) fd (length-unix_socket_file-le name))

  abbrev pub NoLeak : Option ℕ × World → Addr World → Type 0
  NoLeak opened a =
      (a.dirfd ≡ none)
      × ((opened.0 ≡ none) ⊎ ((fd : ℕ) × (opened.0 ≡ some fd) × (a.world ≡ close opened.1 fd)))

  after_open-NoLeak :
      (file : Bytes) (o : Option ℕ × World)
      → (after_open open_dir close file o).path ≡ none
      → NoLeak o (after_open open_dir close file o)
  unfolding after_open
  after_open-NoLeak file (none, w) e = (refl, inl refl)
  after_open-NoLeak file (some fd, w) e =
      let long =
        leb sun_path_size
          (length (codes "/proc/self/fd/" ++ (to_string fd ++ (codes "/" ++ file)))) in
      elim (Bool-cases long) [
        | inl t ↦ rw t (refl, inr (fd, refl, refl))
        | inr f ↦ absurd (some-ne-none _ (rw f at e))
      ]

  -- On failure no descriptor is left open: the directory could not be opened, or it was closed again.
  pub unix_socket_addr-NoLeak :
      (w : World) (dir file : Bytes)
      → (unix_socket_addr open_dir close w dir file).path ≡ none
      → NoLeak (open_dir w dir) (unix_socket_addr open_dir close w dir file)
  unfolding unix_socket_addr
  unix_socket_addr-NoLeak w dir file e =
      elim (Bool-cases (leb sun_path_size (length (dir ++ (codes "/" ++ file))))) [
        | inl t ↦ rw t (after_open-NoLeak file (open_dir w dir) (rw t at e))
        | inr f ↦ absurd (some-ne-none _ (rw f at e))
      ]

  -- What opening and closing directories keeps, `unix_socket_addr` keeps.
  module _ (P : World → Type 0)
      (on_open_dir : (w : World) (dir : Bytes) → P w → P (open_dir w dir).1)
      (on_close : (w : World) (fd : ℕ) → P w → P (close w fd)) where
    through_proc-keeps :
        (w : World) (file : Bytes) (fd : ℕ) → P w → P (through_proc open_dir close w file fd).world
    unfolding through_proc
    through_proc-keeps w file fd h =
        elim (Bool-cases (
          leb sun_path_size
            (length (codes "/proc/self/fd/" ++ (to_string fd ++ (codes "/" ++ file)))))) [
              | inl e ↦ rw e (on_close w fd h)
              | inr e ↦ rw e h
            ]

    after_open-keeps :
        (file : Bytes) (r : Option ℕ × World) → P r.1 → P (after_open open_dir close file r).world
    unfolding after_open
    after_open-keeps file (none, w) h = h
    after_open-keeps file (some fd, w) h = through_proc-keeps w file fd h

    pub unix_socket_addr-keeps :
        (w : World) (dir file : Bytes) → P w → P (unix_socket_addr open_dir close w dir file).world
    unfolding unix_socket_addr
    unix_socket_addr-keeps w dir file h =
        elim (Bool-cases (leb sun_path_size (length (dir ++ (codes "/" ++ file))))) [
          | inl e ↦ rw e (after_open-keeps file (open_dir w dir) (on_open_dir w dir h))
          | inr e ↦ rw e h
        ]
