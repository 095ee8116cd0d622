-- ===== src/Zebu/Name.antt =====
-- The packed names of `zebu_server_name` (src/core/multisim_server.cpp).
use multisim.Base.{
  ℕ, zero, suc, ◌+◌, ◌-◌, ◌≤◌, ◌<◌, ◌≡◌, ◌≢◌, refl, ==_iff, arith, List, [], ◌∷◌, Bytes, length,
  returned, ltb, ltb→lt, Bool-cases, inl, inr,
}
use multisim.Names.{server_name_len}
use multisim.Zebu.{packed_byte, name_loop, zebu_server_name}

-- A string literal in a packed vector: its last character is the lowest byte, no character is 0.
abbrev pub Spells : List ℕ → Bytes → Type 0
Spells packed [] = Unit {0}
Spells packed (c ∷ cs) = (packed_byte packed (length cs) ≡ c) × (c ≢ 0) × Spells packed cs

-- The bytes in front of a name of `n` characters are 0.
abbrev pub Padded : List ℕ → ℕ → Type 0
Padded packed n = (i : ℕ) → n ≤ i → i < server_name_len + 1 → packed_byte packed i ≡ 0

name_loop-Spells :
    (packed : List ℕ) (name : Bytes) → Spells packed name → name_loop (length name) packed ≡ name
unfolding name_loop
name_loop-Spells packed [] h = refl
name_loop-Spells packed (c ∷ cs) (here, some', rest) =
    let ih = name_loop-Spells packed cs rest in ground (arith, ==_iff c 0)

name_loop-Padded :
    (packed : List ℕ) (name : Bytes) (k m : ℕ)
    → Spells packed name
    → Padded packed (length name)
    → m ≡ k + length name
    → m ≤ server_name_len + 1
    → name_loop m packed ≡ name
unfolding name_loop
name_loop-Padded packed name zero m s p e h =
    let here : m ≡ length name = omega arith in rw here (name_loop-Spells packed name s)
name_loop-Padded packed name (suc k) zero s p e h = absurd (omega arith)
name_loop-Padded packed name (suc k) (suc m) s p e h =
    let ih = name_loop-Padded packed name k m s p (omega arith) (omega arith) in
    let blank : packed_byte packed m ≡ 0 = p m (omega arith) (omega arith) in rw blank ih

-- A packed name of at most 512 characters, none of them 0, is decoded whole, where the bytes in front
-- of it are 0, whatever stands behind its 513 bytes.
pub zebu_server_name-Spells :
    (packed : List ℕ) (name : Bytes)
    → length name ≤ server_name_len
    → Spells packed name
    → Padded packed (length name)
    → zebu_server_name packed ≡ returned name
unfolding zebu_server_name
zebu_server_name-Spells packed name short s p =
    let whole : name_loop (server_name_len + 1) packed ≡ name =
      name_loop-Padded packed name (server_name_len - length name + 1) (server_name_len + 1) s p
        (omega arith) (omega arith) in
    rw whole (elim (Bool-cases (ltb server_name_len (length name))) [
      | inl long ↦ absurd (omega (arith, ltb→lt server_name_len (length name) long))
      | inr fits ↦ rw fits
    ])
