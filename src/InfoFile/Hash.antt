-- ===== src/InfoFile/Hash.antt =====
-- Laws of `fnv1a_hash_str` (src/core/socket_server/info_file.h).
use multisim.Base.{
  IsByte, ℕ, zero, suc, ◌*◌, ◌/◌, ◌%◌, ◌^◌, ◌<◌, ◌≡◌, ◌≢◌, refl, [], ◌∷◌, ◌++◌, arith, Bytes,
  bit_xor, length, length-append, All, append_inj,
}
use multisim.Base.Bits.{bit_xor_injective, bit_xor_injective_right, bit_xor-lt}
use multisim.InfoFile.{fnv_step, fnv_loop, fnv_offset, hex_digit, hex, fnv1a_hash_str}
use native.Mathlib.Nat.{pow-suc}

length-hex : (n v : ℕ) → length (hex n v) ≡ n
unfolding hex
length-hex zero v = refl
length-hex (suc n) v =
    omega (arith, length-hex n (v / 16), length-append (hex n (v / 16)) (hex_digit (v % 16) ∷ []))

-- `snprintf` into `hash_str[17]` is never cut short.
pub length-fnv1a_hash_str : (name : Bytes) → length (fnv1a_hash_str name) ≡ 16
unfolding fnv1a_hash_str
length-fnv1a_hash_str name = length-hex 16 (fnv_loop fnv_offset name)

hex_digit_injective : (a b : ℕ) → a < 16 → b < 16 → hex_digit a ≡ hex_digit b → a ≡ b
unfolding hex_digit
hex_digit_injective a b p q h = ground arith

hex_injective : (n a b : ℕ) → a < 16 ^ n → b < 16 ^ n → hex n a ≡ hex n b → a ≡ b
unfolding hex
hex_injective zero a b p q h = omega arith
hex_injective (suc n) a b p q h =
    let e = pow-suc 16 n in
    let (front, back) =
      append_inj (hex n (a / 16)) (hex n (b / 16)) h
        (omega (arith, length-hex n (a / 16), length-hex n (b / 16))) in
    let high = hex_injective n (a / 16) (b / 16) (omega arith) (omega arith) front in
    let low : hex_digit (a % 16) ≡ hex_digit (b % 16) = cc in
    omega (arith, hex_digit_injective (a % 16) (b % 16) (omega arith) (omega arith) low)

fnv_step-lt : (h c : ℕ) → fnv_step h c < 2 ^ 64
unfolding fnv_step
fnv_step-lt h c = omega arith

fnv_loop-lt : (name : Bytes) (h : ℕ) → h < 2 ^ 64 → fnv_loop h name < 2 ^ 64
unfolding fnv_loop
fnv_loop-lt [] h p = p
fnv_loop-lt (c ∷ name) h p = fnv_loop-lt name (fnv_step h c) (fnv_step-lt h c)

-- The prime is odd, so the product by it can be undone.
prime_cancel :
    (x y : ℕ)
    → x < 2 ^ 64
    → y < 2 ^ 64
    → (x * 1099511628211) % 2 ^ 64 ≡ (y * 1099511628211) % 2 ^ 64
    → x ≡ y
prime_cancel x y p q h =
    let u : ((x * 1099511628211) % 2 ^ 64 * 14886173955864302971) % 2 ^ 64 ≡ x = omega arith in
    let v : ((y * 1099511628211) % 2 ^ 64 * 14886173955864302971) % 2 ^ 64 ≡ y = omega arith in
    omega arith

fnv_step_injective :
    (g h c : ℕ) → g < 2 ^ 64 → h < 2 ^ 64 → c < 256 → fnv_step g c ≡ fnv_step h c → g ≡ h
unfolding fnv_step
fnv_step_injective g h c p q r e = bit_xor_injective g h c (
    prime_cancel (bit_xor g c) (bit_xor h c) (bit_xor-lt 64 g c p (omega arith))
      (bit_xor-lt 64 h c q (omega arith)) e)

fnv_step_injective_byte :
    (h c d : ℕ) → h < 2 ^ 64 → c < 256 → d < 256 → fnv_step h c ≡ fnv_step h d → c ≡ d
unfolding fnv_step
fnv_step_injective_byte h c d p q r e = bit_xor_injective_right h c d (
    prime_cancel (bit_xor h c) (bit_xor h d) (bit_xor-lt 64 h c p (omega arith))
      (bit_xor-lt 64 h d p (omega arith)) e)

fnv_loop_injective :
    (name : Bytes) (g h : ℕ)
    → All IsByte name
    → g < 2 ^ 64
    → h < 2 ^ 64
    → fnv_loop g name ≡ fnv_loop h name
    → g ≡ h
unfolding fnv_loop
fnv_loop_injective [] g h b p q e = e
fnv_loop_injective (c ∷ name) g h (bc, bs) p q e =
    fnv_step_injective g h c p q bc (
      fnv_loop_injective name (fnv_step g c) (fnv_step h c) bs (fnv_step-lt g c) (fnv_step-lt h c)
        e)

fnv_loop-one_byte :
    (front back : Bytes) (c d h : ℕ)
    → h < 2 ^ 64
    → IsByte c
    → IsByte d
    → All IsByte back
    → fnv_loop h (front ++ c ∷ back) ≡ fnv_loop h (front ++ d ∷ back)
    → c ≡ d
unfolding fnv_loop
fnv_loop-one_byte [] back c d h p bc bd bs e =
    fnv_step_injective_byte h c d p bc bd (
      fnv_loop_injective back (fnv_step h c) (fnv_step h d) bs (fnv_step-lt h c) (fnv_step-lt h d)
        e)
fnv_loop-one_byte (x ∷ front) back c d h p bc bd bs e =
    fnv_loop-one_byte front back c d (fnv_step h x) (fnv_step-lt h x) bc bd bs e

-- Two names that differ in one byte, wherever it stands, have different hash strings. The byte and
-- what stands behind it are bytes, below 256.
pub fnv1a_hash_str_one_byte :
    (front back : Bytes) (c d : ℕ)
    → IsByte c
    → IsByte d
    → All IsByte back
    → c ≢ d
    → fnv1a_hash_str (front ++ c ∷ back) ≢ fnv1a_hash_str (front ++ d ∷ back)
unfolding fnv1a_hash_str
fnv1a_hash_str_one_byte front back c d bc bd bs ne e = ne (
    fnv_loop-one_byte front back c d fnv_offset (omega arith) bc bd bs (
      hex_injective 16 _ _ (fnv_loop-lt (front ++ c ∷ back) fnv_offset (omega arith))
        (fnv_loop-lt (front ++ d ∷ back) fnv_offset (omega arith)) e))
