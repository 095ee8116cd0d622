-- ===== src/Data/Planes.antt =====
-- `send_buf` of 4-state data (`push_core` of src/core/multisim_server.cpp and
-- src/core/multisim_client.cpp) by its layout.
use native.Mathlib.Decide.{dec_lt}
use multisim.Base.{
  ℕ, zero, suc, ◌+◌, ◌*◌, ◌-◌, ◌<◌, ◌≡◌, ◌∙◌, refl, sym, ap, [], ◌∷◌, ◌++◌, arith, List, length,
  get_or, length-append, get_or_ext,
}
use multisim.Data.{Target, simulation, emulation, sw, aval_index, bval_index, pack}
use multisim.Data.Pack.{length-pack, pack_elem}

-- The elements at the even places, and those at the odd ones.
abbrev pub evens : List ℕ → List ℕ
evens [] = []
evens (a ∷ []) = a ∷ []
evens (a ∷ b ∷ mem) = a ∷ evens mem

abbrev pub odds : List ℕ → List ℕ
odds [] = []
odds (a ∷ []) = []
odds (a ∷ b ∷ mem) = b ∷ odds mem

-- What a message of 4-state data consists of: the elements of an open array alternate between `aval`
-- and `bval`, and a flat array has all of the former first already.
abbrev pub planes : Target → List ℕ → List ℕ
planes simulation mem = evens mem ++ odds mem
planes emulation mem = mem
planes sw mem = mem

get_or-append_lt : (xs ys : List ℕ) (j : ℕ) → j < length xs → get_or (xs ++ ys) j 0 ≡ get_or xs j 0
get_or-append_lt [] ys j h = absurd (omega arith)
get_or-append_lt (x ∷ xs) ys zero h = refl
get_or-append_lt (x ∷ xs) ys (suc j) h = get_or-append_lt xs ys j (omega arith)

get_or-append_ge :
    (xs ys : List ℕ) (n j : ℕ) → length xs ≡ n → get_or (xs ++ ys) (n + j) 0 ≡ get_or ys j 0
get_or-append_ge [] ys n j h = ap (λ i. get_or ys i 0) (omega arith)
get_or-append_ge (x ∷ xs) ys zero j h = absurd (omega arith)
get_or-append_ge (x ∷ xs) ys (suc n) j h =
    let e : suc n + j ≡ suc (n + j) = omega arith in rw e (get_or-append_ge xs ys n j (omega arith))

length-evens :
    (mem : List ℕ) (n : ℕ) → length mem ≡ 2 * n → (length (evens mem) ≡ n) × (length (odds mem) ≡ n)
length-evens [] n h = (omega arith, omega arith)
length-evens (a ∷ []) n h = absurd (omega arith)
length-evens (a ∷ b ∷ mem) n h =
    let (e, o) = length-evens mem (n - 1) (omega arith) in (omega arith, omega arith)

even_suc : (j : ℕ) → 2 * suc j ≡ suc (suc (2 * j))
even_suc j = omega arith

odd_suc : (j : ℕ) → 2 * suc j + 1 ≡ suc (suc (2 * j + 1))
odd_suc j = omega arith

get_or-evens :
    (mem : List ℕ) (n j : ℕ)
    → length mem ≡ 2 * n
    → (get_or (evens mem) j 0 ≡ get_or mem (2 * j) 0)
      × (get_or (odds mem) j 0 ≡ get_or mem (2 * j + 1) 0)
get_or-evens [] n j h = (refl, refl)
get_or-evens (a ∷ []) n j h = absurd (omega arith)
get_or-evens (a ∷ b ∷ mem) n zero h = (refl, refl)
get_or-evens (a ∷ b ∷ mem) n (suc j) h =
    let (e, o) = get_or-evens mem (n - 1) j (omega arith) in (rw (even_suc j) e, rw (odd_suc j) o)

planes_elem :
    (t : Target) (n j : ℕ) (mem : List ℕ)
    → length mem ≡ 2 * n
    → j < n
    → (get_or (planes t mem) j 0 ≡ get_or mem (aval_index t n j) 0)
      × (get_or (planes t mem) (n + j) 0 ≡ get_or mem (bval_index t n j) 0)
planes_elem emulation n j mem l h = (refl, refl)
planes_elem sw n j mem l h = (refl, refl)
planes_elem simulation n j mem l h =
    let (le, lo) = length-evens mem n l in
    let (e, o) = get_or-evens mem n j l in
    (
      get_or-append_lt (evens mem) (odds mem) j (omega arith) ∙ e,
      get_or-append_ge (evens mem) (odds mem) n j le ∙ o,
    )

length-planes :
    (t : Target) (n : ℕ) (mem : List ℕ) → length mem ≡ 2 * n → length (planes t mem) ≡ 2 * n
length-planes emulation n mem l = l
length-planes sw n mem l = l
length-planes simulation n mem l =
    let (le, lo) = length-evens mem n l in omega (arith, length-append (evens mem) (odds mem))

-- The loop that fills `send_buf` gives the layout of the message, for every target, whatever `send_buf`
-- held before: all `aval`s in front of all `bval`s, so that a flat array goes out as it is. The array
-- and `send_buf` have `2 * n` words.
pub pack-planes :
    (t : Target) (n : ℕ) (mem buf : List ℕ)
    → length mem ≡ 2 * n
    → length buf ≡ 2 * n
    → pack t n mem buf ≡ planes t mem
pack-planes t n mem buf lm lb =
    get_or_ext 0 (pack t n mem buf) (planes t mem)
      (length-pack t n mem buf ∙ lb ∙ sym (length-planes t n mem lm))
      λ k h. elim (dec_lt k n) [
        | yes l ↦ (pack_elem t n k mem buf lb l).0 ∙ sym (planes_elem t n k mem lm l).0
        | no l ↦
            let less = length-pack t n mem buf in
            let e : k ≡ n + (k - n) = omega arith in
            rw e (
              (pack_elem t n (k - n) mem buf lb (omega arith)).1
              ∙ sym (planes_elem t n (k - n) mem lm (omega arith)).1)
      ]
