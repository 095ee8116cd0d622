-- ===== src/Data/Words.antt =====
-- Words in memory and their bytes.
use multisim.Base.{ℕ, ◌*◌, ◌^◌, ◌<◌, ◌≡◌, refl, [], ◌∷◌, ◌++◌, arith, ap₂, List, All, length}
use multisim.Data.{to_bytes, from_bytes}

abbrev pub IsWord : ℕ → Type 0
IsWord x = x < 2 ^ 32

pub length-to_bytes : (xs : List ℕ) → length (to_bytes xs) ≡ 4 * length xs
unfolding to_bytes
length-to_bytes [] = omega arith
length-to_bytes (x ∷ xs) = omega (arith, length-to_bytes xs)

pub from_bytes-to_bytes : (xs : List ℕ) → All IsWord xs → from_bytes (to_bytes xs) ≡ xs
unfolding to_bytes from_bytes
from_bytes-to_bytes [] h = refl
from_bytes-to_bytes (x ∷ xs) (h, hs) = ap₂ ◌∷◌ (omega arith) (from_bytes-to_bytes xs hs)

pub to_bytes-append : (xs ys : List ℕ) → to_bytes (xs ++ ys) ≡ to_bytes xs ++ to_bytes ys
unfolding to_bytes
to_bytes-append [] ys = refl
to_bytes-append (x ∷ xs) ys = rw (to_bytes-append xs ys)
