-- ===== src/InfoFile.antt =====
-- src/core/socket_server/info_file.h: the hash of a name and the paths of the info files.
pub mod Hash
pub mod Path
use multisim.Base.{
  ℕ, zero, suc, ◌+◌, ◌-◌, ◌*◌, ◌/◌, ◌%◌, ◌^◌, [], ◌∷◌, ◌++◌, ltb, if◌then◌else◌, Bytes, codes,
  bit_xor, length, take,
}

-- One round of the loop; the product wraps in `uint64_t`.
pub fnv_step : ℕ → ℕ → ℕ
fnv_step hash c = (bit_xor hash c * 1099511628211) % 2 ^ 64

pub fnv_loop : ℕ → Bytes → ℕ
unfolding fnv_step
fnv_loop hash [] = hash
fnv_loop hash (c ∷ name) = fnv_loop (fnv_step hash c) name

abbrev pub fnv_offset : ℕ
fnv_offset = 14695981039346656037

pub hex_digit : ℕ → ℕ
hex_digit d = if ltb d 10 then b'0' + d else b'a' + (d - 10)

-- `%0<n>llx` of a value below 16 ^ n, which has no more digits than that.
pub hex : ℕ → ℕ → Bytes
unfolding hex_digit
hex zero v = []
hex (suc n) v = hex n (v / 16) ++ hex_digit (v % 16) ∷ []

unfoldable pub fnv1a_hash_str : Bytes → Bytes
unfolding fnv_loop hex
fnv1a_hash_str name = hex 16 (fnv_loop fnv_offset name)

-- The two forms of `file`: the whole name, and the one for a name that is too long.
unfoldable pub whole_file : Bytes → Bytes → Bytes
whole_file prefix name = prefix ++ (name ++ codes ".txt")

unfoldable pub hashed_file : Bytes → Bytes → Bytes
hashed_file prefix name =
    prefix ++ (take 200 name ++ (codes "_" ++ (fnv1a_hash_str name ++ codes ".txt")))

unfoldable pub info_file_name : Bytes → Bytes → Bytes
unfolding whole_file hashed_file
info_file_name prefix name =
    if ltb 255 (length (whole_file prefix name))
    then hashed_file prefix name
    else whole_file prefix name

unfoldable pub info_file_path : Bytes → Bytes → Bytes → Bytes
unfolding info_file_name
info_file_path info_dir prefix name = info_dir ++ (codes "/" ++ info_file_name prefix name)
