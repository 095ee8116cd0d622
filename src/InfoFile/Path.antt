-- ===== src/InfoFile/Path.antt =====
-- Laws of `info_file_path` (src/core/socket_server/info_file.h).
use mathlib.Core.List.{append_cancel_left, append_cancel_right}
use native.Mathlib.Decide.{dec_lt}
use multisim.Base.{
  IsByte, ℕ, ◌+◌, ◌≤◌, ◌<◌, ◌≡◌, ◌≢◌, ◌∷◌, ◌++◌, arith, Bytes, codes, length, take, length-append,
  length-take, All, append_inj, ap, sym, ◌∙◌, append_assoc,
}
use multisim.InfoFile.{fnv1a_hash_str, whole_file, hashed_file, info_file_name, info_file_path}
use multisim.InfoFile.Hash.{length-fnv1a_hash_str, fnv1a_hash_str_one_byte}

length-whole_file : (p n : Bytes) → length (whole_file p n) ≡ length p + length n + 4
unfolding whole_file
length-whole_file p n =
    omega (arith, length-append p (n ++ codes ".txt"), length-append n (codes ".txt"))

length-hashed_file : (p n : Bytes) → length (hashed_file p n) ≡ length p + length (take 200 n) + 21
unfolding hashed_file
length-hashed_file p n = omega (
  arith,
  length-append p (take 200 n ++ (codes "_" ++ (fnv1a_hash_str n ++ codes ".txt"))),
  length-append (take 200 n) (codes "_" ++ (fnv1a_hash_str n ++ codes ".txt")),
  length-append (fnv1a_hash_str n) (codes ".txt"),
  length-fnv1a_hash_str n,
)

-- The two forms, told apart by the length of the whole name.
whole_of_short : (p n : Bytes) → length p + length n ≤ 251 → info_file_name p n ≡ whole_file p n
unfolding info_file_name
whole_of_short p n h = ground (arith, length-whole_file p n)

hashed_of_long : (p n : Bytes) → 251 < length p + length n → info_file_name p n ≡ hashed_file p n
unfolding info_file_name
hashed_of_long p n h = ground (arith, length-whole_file p n)

-- With a prefix of at most 34 bytes the file name fits the 255 bytes that a file system allows,
-- whatever the length of the server's name.
pub length-info_file_name-le :
    (prefix name : Bytes) → length prefix ≤ 34 → length (info_file_name prefix name) ≤ 255
length-info_file_name-le prefix name h = elim (dec_lt 251 (length prefix + length name)) [
  | yes long ↦
      rw (hashed_of_long prefix name long)
        (omega (arith, length-hashed_file prefix name, length-take 200 name))
  | no short ↦
      rw (whole_of_short prefix name (omega arith)) (omega (arith, length-whole_file prefix name))
]

whole_file_injective : (p a b : Bytes) → whole_file p a ≡ whole_file p b → a ≡ b
unfolding whole_file
whole_file_injective p a b e = append_cancel_right a b _ (append_cancel_left p _ _ e)

hashed_file_hash :
    (p a b : Bytes)
    → length a ≡ length b
    → hashed_file p a ≡ hashed_file p b
    → fnv1a_hash_str a ≡ fnv1a_hash_str b
unfolding hashed_file
hashed_file_hash p a b h e =
    let tails = append_cancel_left p _ _ e in
    let split =
      append_inj (take 200 a) (take 200 b) tails
        (omega (arith, length-take 200 a, length-take 200 b)) in
    append_cancel_right (fnv1a_hash_str a) (fnv1a_hash_str b) (codes ".txt")
      (append_cancel_left (codes "_") _ _ split.1)

path_file :
    (dir p a b : Bytes)
    → info_file_path dir p a ≡ info_file_path dir p b
    → info_file_name p a ≡ info_file_name p b
unfolding info_file_path
path_file dir p a b e = append_cancel_left (codes "/") _ _ (append_cancel_left dir _ _ e)

-- Two names whose whole file names have at most 255 bytes have the same path only if they are the
-- same name.
pub info_file_path_injective :
    (dir prefix a b : Bytes)
    → length prefix + length a ≤ 251
    → length prefix + length b ≤ 251
    → info_file_path dir prefix a ≡ info_file_path dir prefix b
    → a ≡ b
info_file_path_injective dir prefix a b p q e =
    whole_file_injective prefix a b
      (sym (whole_of_short prefix a p) ∙ path_file dir prefix a b e ∙ whole_of_short prefix b q)

names_differ :
    (p a b : Bytes)
    → length a ≡ length b
    → a ≢ b
    → fnv1a_hash_str a ≢ fnv1a_hash_str b
    → info_file_name p a ≢ info_file_name p b
unfolding info_file_name
names_differ p a b h ne hash_ne e = ground (
  arith,
  length-whole_file p a,
  length-whole_file p b,
  λ (w : whole_file p a ≡ whole_file p b). ne (whole_file_injective p a b w),
  λ (w : hashed_file p a ≡ hashed_file p b). hash_ne (hashed_file_hash p a b h w),
)

length_one_byte :
    (front back : Bytes) (c d : ℕ) → length (front ++ c ∷ back) ≡ length (front ++ d ∷ back)
length_one_byte front back c d =
    omega (arith, length-append front (c ∷ back), length-append front (d ∷ back))

-- Names of any length that differ in one byte have different info files in one directory, with one
-- prefix: a shortened name too, where that byte is cut off, by its hash. The byte and what stands
-- behind it are bytes, below 256.
pub info_file_path_one_byte :
    (dir prefix front back : Bytes) (c d : ℕ)
    → IsByte c
    → IsByte d
    → All IsByte back
    → c ≢ d
    → info_file_path dir prefix (front ++ c ∷ back) ≢ info_file_path dir prefix (front ++ d ∷ back)
info_file_path_one_byte dir prefix front back c d bc bd bs ne e =
    names_differ prefix (front ++ c ∷ back) (front ++ d ∷ back) (length_one_byte front back c d)
      (λ same. ne (head_eq (append_cancel_left front _ _ same)))
      (fnv1a_hash_str_one_byte front back c d bc bd bs ne)
      (path_file dir prefix (front ++ c ∷ back) (front ++ d ∷ back) e)
  where
    head_eq : c ∷ back ≡ d ∷ back → c ≡ d
    head_eq h = cc

-- The name that a long name's file is called after.
pub alias : Bytes → Bytes
alias name = take 200 name ++ (codes "_" ++ fnv1a_hash_str name)

length-alias-le : (name : Bytes) → length (alias name) ≤ 217
unfolding alias
length-alias-le name = omega (
  arith,
  length-append (take 200 name) (codes "_" ++ fnv1a_hash_str name),
  length-fnv1a_hash_str name,
  length-take 200 name,
)

whole_file-alias : (p name : Bytes) → whole_file p (alias name) ≡ hashed_file p name
unfolding whole_file hashed_file alias
whole_file-alias p name = simp append_assoc

-- A name that is shortened, with a prefix of at most 34 bytes, shares its info file with another
-- name, the one that spells the shortened form out.
pub info_file_path-alias :
    (dir prefix name : Bytes)
    → length prefix ≤ 34
    → 251 < length prefix + length name
    → (alias name ≢ name)
      × (info_file_path dir prefix (alias name) ≡ info_file_path dir prefix name)
unfolding info_file_path
info_file_path-alias dir prefix name p h = (
  λ e. absurd (omega (arith, length-alias-le name, ap length e)),
  let fits : length prefix + length (alias name) ≤ 251 = omega (arith, length-alias-le name) in
      ap (λ (f : Bytes). dir ++ (codes "/" ++ f))
        (whole_of_short prefix (alias name) fits
          ∙ whole_file-alias prefix name
          ∙ sym (hashed_of_long prefix name h)),
)
