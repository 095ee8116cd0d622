-- ===== src/Scan/Laws.antt =====
-- `%<n>s` and `%d` on text that `fprintf` has written.
use multisim.Base.{
  ℕ, zero, suc, ◌+◌, ◌-◌, ◌*◌, ◌/◌, ◌%◌, ◌^◌, ◌≤◌, ◌<◌, ◌≡◌, ◌≢◌, refl, ◌∙◌, ap, true, false, [],
  ◌∷◌, ◌++◌, ltb, ◌==◌, Bytes, some, All, length, arith, append_assoc, Bool-cases, inl, inr,
}
use multisim.UnixSocket.{decimal}
use multisim.Scan.{is_space, is_digit, take_word, scan_word, digits, signed, scan_int}
use native.Mathlib.Nat.{pow-suc}

-- A text that one `%<width>s` reads whole.
pub record IsToken (width : ℕ) (w : Bytes) : Type 0 where
  pub nonempty : w ≢ []
  pub unspaced : All (λ c. is_space c ≡ false) w
  pub fits : length w ≤ width

take_word-append :
    (width : ℕ) (w : Bytes) (c : ℕ) (s : Bytes)
    → All (λ x. is_space x ≡ false) w
    → length w ≤ width
    → is_space c ≡ true
    → take_word width (w ++ c ∷ s) ≡ (w, c ∷ s)
unfolding take_word
take_word-append zero [] c s a h sp = refl
take_word-append zero (x ∷ w) c s a h sp = absurd (omega arith)
take_word-append (suc width) [] c s a h sp = rw sp
take_word-append (suc width) (x ∷ w) c s (ax, aw) h sp =
    rw (ax, take_word-append width w c s aw (omega arith) sp)

-- A token is read up to the space behind it.
pub scan_word-token :
    (width : ℕ) (w : Bytes) (c : ℕ) (s : Bytes)
    → IsToken width w
    → is_space c ≡ true
    → scan_word width (w ++ c ∷ s) ≡ some (w, c ∷ s)
unfolding scan_word
scan_word-token width [] c s t sp = absurd (t.nonempty refl)
scan_word-token width (x ∷ w) c s t sp =
    rw (t.unspaced.0, take_word-append width (x ∷ w) c s t.unspaced t.fits sp)

-- White space in front of a token is skipped.
pub scan_word-space :
    (width c : ℕ) (s : Bytes) → is_space c ≡ true → scan_word width (c ∷ s) ≡ scan_word width s
unfolding scan_word
scan_word-space width c s sp = rw sp

digit_of : (d : ℕ) → d < 10 → is_digit (b'0' + d) ≡ true
unfolding is_digit
digit_of d h = ground arith

decimal_head : (fuel n : ℕ) → (c : ℕ) × (s : Bytes) × (decimal fuel n ≡ c ∷ s) × (is_digit c ≡ true)
unfolding decimal
decimal_head zero n = (b'0' + n % 10, [], refl, digit_of (n % 10) (omega arith))
decimal_head (suc fuel) n = elim (Bool-cases (ltb n 10)) [
  | inl one ↦ (b'0' + n, [], rw one, digit_of n (ground arith))
  | inr more ↦
      let (c, s, e, d) = decimal_head fuel (n / 10) in
      (c, s ++ (b'0' + n % 10) ∷ [], rw (more, e), d)
]

digits_one : (m d : ℕ) (s : Bytes) → d < 10 → digits m ((b'0' + d) ∷ s) ≡ digits (m * 10 + d) s
unfolding digits
digits_one m d s h = let e : b'0' + d - b'0' ≡ d = omega arith in rw (digit_of d h, e)

digits_first : (d : ℕ) (s : Bytes) → d < 10 → digits 0 ((b'0' + d) ∷ s) ≡ digits d s
digits_first d s h = let e : 0 * 10 + d ≡ d = omega arith in rw e at (digits_one 0 d s h)

-- `%d` undoes the decimal print.
digits-decimal :
    (fuel n : ℕ) (s : Bytes) → n < 10 ^ suc fuel → digits 0 (decimal fuel n ++ s) ≡ digits n s
unfolding decimal
digits-decimal zero n s h =
    let e : n % 10 ≡ n = omega (arith, pow-suc 10 0) in
    rw e (digits_first n s (omega (arith, pow-suc 10 0)))
digits-decimal (suc fuel) n s h = elim (Bool-cases (ltb n 10)) [
  | inl one ↦ rw one (digits_first n s (ground arith))
  | inr more ↦
      let ih =
        digits-decimal fuel (n / 10) ((b'0' + n % 10) ∷ s) (omega (arith, pow-suc 10 (suc fuel))) in
      let back : n / 10 * 10 + n % 10 ≡ n = omega arith in
      rw (
        more,
        append_assoc (decimal fuel (n / 10)) ((b'0' + n % 10) ∷ []) s,
        ih,
        digits_one (n / 10) (n % 10) s (omega arith),
        back,
      )
]

digits_stop : (n c : ℕ) (s : Bytes) → is_digit c ≡ false → digits n (c ∷ s) ≡ (n, c ∷ s)
unfolding digits
digits_stop n c s h = rw h

digit_plain :
    (c : ℕ)
    → is_digit c ≡ true
    → (is_space c ≡ false) × ((c == b'-') ≡ false) × ((c == b'+') ≡ false)
unfolding is_digit is_space
digit_plain c h = ground arith

signed-digits :
    (c : ℕ) (s u : Bytes) (n : ℕ)
    → is_digit c ≡ true
    → digits 0 (c ∷ s) ≡ (n, u)
    → signed (c ∷ s) ≡ some (n, u)
unfolding signed
signed-digits c s u n d e = let (_, a, b) = digit_plain c d in rw (a, b, d) (ap some (rw d at e))

pub scan_int-decimal :
    (fuel n c sp : ℕ) (s : Bytes)
    → n < 10 ^ suc fuel
    → is_space sp ≡ true
    → is_digit c ≡ false
    → scan_int (sp ∷ (decimal fuel n ++ c ∷ s)) ≡ some (n, c ∷ s)
unfolding scan_int
scan_int-decimal fuel n c sp s h space stop =
    let (x, r, e, d) = decimal_head fuel n in
    let whole = digits-decimal fuel n (c ∷ s) h ∙ digits_stop n c s stop in
    let whole' : digits 0 (x ∷ (r ++ c ∷ s)) ≡ (n, c ∷ s) = rw e at whole in
    rw (space, e, (digit_plain x d).0) (signed-digits x (r ++ c ∷ s) (c ∷ s) n d whole')
