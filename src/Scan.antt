-- ===== src/Scan.antt =====
-- The conversions of `fscanf` that src/core/socket_server/client.cpp uses, on the text of a file:
-- `%<n>s` and `%d`, each with what it leaves unread, or `none` where it converts nothing.
pub mod Laws
use multisim.Base.{
  ℕ, zero, suc, ◌+◌, ◌-◌, ◌*◌, ◌%◌, ◌^◌, Bool, true, false, ◌&&◌, ◌||◌, [], ◌∷◌, ltb, leb, ◌==◌,
  if◌then◌else◌, Bytes, Option, none, some,
}

-- `isspace`: a space, and the five controls from \t to \r.
unfoldable pub is_space : ℕ → Bool
is_space c = c == b' ' || (leb 9 c && leb c 13)

unfoldable pub is_digit : ℕ → Bool
is_digit c = leb b'0' c && leb c b'9'

pub skip_space : Bytes → Bytes
unfolding is_space
skip_space [] = []
skip_space (c ∷ s) = if is_space c then skip_space s else c ∷ s

-- At most `width` bytes that are no space, with the rest of the text.
pub take_word : ℕ → Bytes → Bytes × Bytes
unfolding is_space
take_word zero s = ([], s)
take_word (suc width) [] = ([], [])
take_word (suc width) (c ∷ s) =
    let more = take_word width s in if is_space c then ([], c ∷ s) else (c ∷ more.0, more.1)

nonempty : Bytes × Bytes → Option (Bytes × Bytes)
nonempty ([], s) = none
nonempty (c ∷ w, s) = some (c ∷ w, s)

unfoldable pub scan_word : ℕ → Bytes → Option (Bytes × Bytes)
unfolding skip_space take_word nonempty
scan_word width s = nonempty (take_word width (skip_space s))

-- Decimal digits behind `n`.
pub digits : ℕ → Bytes → ℕ × Bytes
unfolding is_digit
digits n [] = (n, [])
digits n (c ∷ s) =
    let more = digits (n * 10 + (c - b'0')) s in if is_digit c then more else (n, c ∷ s)

pub unsigned : Bytes → Option (ℕ × Bytes)
unfolding digits
unsigned [] = none
unsigned (c ∷ s) = if is_digit c then some (digits 0 (c ∷ s)) else none

negated : Option (ℕ × Bytes) → Option (ℕ × Bytes)
negated none = none
negated (some (n, s)) = some ((2 ^ 32 - n % 2 ^ 32) % 2 ^ 32, s)

signed : Bytes → Option (ℕ × Bytes)
unfolding unsigned negated
signed [] = none
signed (c ∷ s) =
    if c == b'-' then negated (unsigned s) else if c == b'+' then unsigned s else unsigned (c ∷ s)

-- The value is the bit pattern of the `int`, for numbers that fit one.
unfoldable pub scan_int : Bytes → Option (ℕ × Bytes)
unfolding skip_space signed
scan_int s = signed (skip_space s)
