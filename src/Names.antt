-- ===== src/Names.antt =====
-- `server_name_to_idx`, the `std::map` of src/core/multisim_client.cpp and multisim_server.cpp, and
-- the checks on a name.
use multisim.Base.{
  ℕ, ◌<◌, ◌≡◌, refl, ◌∙◌, ap, List, [], ◌∷◌, ltb, if◌then◌else◌, Bytes, bytes_eq, bytes_eq_iff,
  length, Option, none, some, Run, returned, exited, arith, Option-cases, inl, inr, ◌+◌,
  exited-ne-returned, returned-injective,
}

abbrev pub Names : Type 0
Names = List (Bytes × ℕ)

-- `find`
unfoldable pub find : Bytes → Names → Option ℕ
find name [] = none
find name ((n, i) ∷ names) = if bytes_eq n name then some i else find name names

-- `server_name_to_idx[name] = idx`
unfoldable pub insert : Bytes → ℕ → Names → Names
insert name idx [] = (name, idx) ∷ []
insert name idx ((n, i) ∷ names) =
    if bytes_eq n name then (n, idx) ∷ names else (n, i) ∷ insert name idx names

pub find-insert :
    (k name : Bytes) (idx : ℕ) (names : Names)
    → find k (insert name idx names) ≡ (if bytes_eq name k then some idx else find k names)
unfolding find insert
find-insert k name idx [] = refl
find-insert k name idx ((n, i) ∷ names) = ground (
  arith,
  bytes_eq_iff n name,
  bytes_eq_iff n k,
  bytes_eq_iff name k,
  find-insert k name idx names,
)

-- MULTISIM_SERVER_MAX and MULTISIM_SERVER_NAME_LEN
abbrev pub server_max : ℕ
server_max = 1024

abbrev pub server_name_len : ℕ
server_name_len = 512

-- `multisim_check_server_name`
unfoldable pub check_server_name : Bytes → Run (Unit {0})
check_server_name name = if ltb server_name_len (length name) then exited else returned tt

-- `get_server_idx`
unfoldable pub get_server_idx : Bytes → Names → Run ℕ
unfolding find
get_server_idx name names = elim (find name names) [ none ↦ exited | some i ↦ returned i ]

-- What the map of a process holds behind `n` starts: indices below `n`, each for one name.
pub record IsIndexed (n : ℕ) (names : Names) : Type 0 where
  pub below : (name : Bytes) (i : ℕ) → find name names ≡ some i → i < n
  pub distinct : (a b : Bytes) (i : ℕ) → find a names ≡ some i → find b names ≡ some i → a ≡ b

pub IsIndexed-insert :
    (n : ℕ) (name : Bytes) (names : Names)
    → IsIndexed n names
    → IsIndexed (n + 1) (insert name n names)
IsIndexed-insert n name names v = record {
  below = λ k i e. ground (arith, find-insert k name n names, v.below k i);
  distinct = λ a b i p q. ground (
    arith,
    find-insert a name n names,
    find-insert b name n names,
    bytes_eq_iff name a,
    bytes_eq_iff name b,
    v.below a i,
    v.below b i,
    v.distinct a b i,
  );
}

-- A name that a start has stored is found, at an index below the number of starts; another name, and
-- no other, ends the process.
pub get_server_idx-returned :
    (name : Bytes) (names : Names) (i : ℕ)
    → get_server_idx name names ≡ returned i
    → find name names ≡ some i
unfolding get_server_idx
get_server_idx-returned name names i e = elim (Option-cases (find name names)) [
  | inl f ↦ absurd (exited-ne-returned (rw (f, get_server_idx) at e))
  | inr (j, f) ↦ f ∙ ap some (returned-injective (rw (f, get_server_idx) at e))
]
