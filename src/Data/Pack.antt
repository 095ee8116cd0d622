-- ===== src/Data/Pack.antt =====
-- The loops of `push_core` and `pull_core` on 4-state data carry it unchanged.
use native.Mathlib.Decide.{dec_lt, ℕ_discrete}
use multisim.Base.{
  ℕ, zero, suc, ◌+◌, ◌*◌, ◌-◌, ◌/◌, ◌%◌, ◌≤◌, ◌<◌, ◌≡◌, ◌≢◌, refl, sym, ◌∙◌, ◌⊎◌, inl, inr, [], ◌∷◌,
  arith, List, length, get_or, set, All, length-set, get_or_ext, get_or-set_self, get_or-set_ne,
}
use multisim.Data.Words.{IsWord}
use multisim.Data.{
  Target, simulation, emulation, sw, aval_index, bval_index, pack_loop, unpack_loop, pack, unpack,
}

length-pack_loop :
    (t : Target) (n left i : ℕ) (mem buf : List ℕ)
    → length (pack_loop t n left i mem buf) ≡ length buf
unfolding pack_loop
length-pack_loop t n zero i mem buf = refl
length-pack_loop t n (suc left) i mem buf =
    length-pack_loop t n left (i + 1) mem _ ∙ length-set _ (n + i) _ ∙ length-set buf i _

-- What `pack` puts at each place of `send_buf`.
pack_loop_before :
    (t : Target) (n left i j : ℕ) (mem buf : List ℕ)
    → i + left ≡ n
    → (j < i) ⊎ ((n ≤ j) × (j < n + i))
    → get_or (pack_loop t n left i mem buf) j 0 ≡ get_or buf j 0
unfolding pack_loop
pack_loop_before t n zero i j mem buf e h = refl
pack_loop_before t n (suc left) i j mem buf e h =
    pack_loop_before t n left (i + 1) j mem _ (omega arith) (omega arith)
    ∙ get_or-set_ne (set buf i _) (n + i) j _ 0 (omega arith)
    ∙ get_or-set_ne buf i j _ 0 (omega arith)

pack_loop_aval :
    (t : Target) (n left i j : ℕ) (mem buf : List ℕ)
    → length buf ≡ 2 * n
    → i + left ≡ n
    → i ≤ j
    → j < n
    → get_or (pack_loop t n left i mem buf) j 0 ≡ get_or mem (aval_index t n j) 0
unfolding pack_loop
pack_loop_aval t n zero i j mem buf len e p q = absurd (omega arith)
pack_loop_aval t n (suc left) i j mem buf len e p q = elim (ℕ_discrete i j) [
  | yes here ↦ rw (← here) (
      pack_loop_before t n left (i + 1) i mem _ (omega arith) (omega arith)
      ∙ get_or-set_ne (set buf i (get_or mem (aval_index t n i) 0)) (n + i) i _ 0 (omega arith)
      ∙ get_or-set_self buf i (get_or mem (aval_index t n i) 0) 0 (omega arith))
  | no later ↦
      pack_loop_aval t n left (i + 1) j mem _ (length-set _ (n + i) _ ∙ length-set buf i _ ∙ len)
        (omega arith) (omega arith) q
]

pack_loop_bval :
    (t : Target) (n left i j : ℕ) (mem buf : List ℕ)
    → length buf ≡ 2 * n
    → i + left ≡ n
    → i ≤ j
    → j < n
    → get_or (pack_loop t n left i mem buf) (n + j) 0 ≡ get_or mem (bval_index t n j) 0
unfolding pack_loop
pack_loop_bval t n zero i j mem buf len e p q = absurd (omega arith)
pack_loop_bval t n (suc left) i j mem buf len e p q = elim (ℕ_discrete i j) [
  | yes here ↦ rw (← here) (
      pack_loop_before t n left (i + 1) (n + i) mem _ (omega arith) (omega arith)
      ∙ get_or-set_self (set buf i (get_or mem (aval_index t n i) 0)) (n + i)
          (get_or mem (bval_index t n i) 0) 0
          (omega (arith, length-set buf i (get_or mem (aval_index t n i) 0))))
  | no later ↦
      pack_loop_bval t n left (i + 1) j mem _ (length-set _ (n + i) _ ∙ length-set buf i _ ∙ len)
        (omega arith) (omega arith) q
]

-- The two halves of an array do not overlap, and fill it.
aval_injective : (t : Target) (n i j : ℕ) → i ≢ j → aval_index t n i ≢ aval_index t n j
aval_injective simulation n i j h = omega arith
aval_injective emulation n i j h = omega arith
aval_injective sw n i j h = omega arith

bval_injective : (t : Target) (n i j : ℕ) → i ≢ j → bval_index t n i ≢ bval_index t n j
bval_injective simulation n i j h = omega arith
bval_injective emulation n i j h = omega arith
bval_injective sw n i j h = omega arith

aval-ne-bval : (t : Target) (n i j : ℕ) → i < n → aval_index t n i ≢ bval_index t n j
aval-ne-bval simulation n i j h = omega arith
aval-ne-bval emulation n i j h = omega arith
aval-ne-bval sw n i j h = omega arith

index-lt : (t : Target) (n i : ℕ) → i < n → (aval_index t n i < 2 * n) × (bval_index t n i < 2 * n)
index-lt simulation n i h = omega arith
index-lt emulation n i h = omega arith
index-lt sw n i h = omega arith

index_cases :
    (t : Target) (n k : ℕ)
    → k < 2 * n
    → (j : ℕ) × (j < n) × ((k ≡ aval_index t n j) ⊎ (k ≡ bval_index t n j))
index_cases simulation n k h = (
  k / 2,
  omega arith,
  elim (ℕ_discrete (k % 2) 0) [ yes e ↦ inl (omega arith) | no e ↦ inr (omega arith) ],
)
index_cases emulation n k h = elim (dec_lt k n) [
  | yes l ↦ (k, l, inl refl)
  | no l ↦ (k - n, omega arith, inr (omega arith))
]
index_cases sw n k h = elim (dec_lt k n) [
  | yes l ↦ (k, l, inl refl)
  | no l ↦ (k - n, omega arith, inr (omega arith))
]

-- What `unpack` does not reach again, and what it stores.
unpack_loop_before :
    (t : Target) (n left i k : ℕ) (rb mem : List ℕ)
    → ((j : ℕ) → i ≤ j → j < i + left → (aval_index t n j ≢ k) × (bval_index t n j ≢ k))
    → get_or (unpack_loop t n left i rb mem) k 0 ≡ get_or mem k 0
unfolding unpack_loop
unpack_loop_before t n zero i k rb mem h = refl
unpack_loop_before t n (suc left) i k rb mem h =
    let (na, nb) = h i (omega arith) (omega arith) in
    unpack_loop_before t n left (i + 1) k rb _ (λ j p q. h j (omega arith) (omega arith))
    ∙ get_or-set_ne (set mem (aval_index t n i) _) (bval_index t n i) k _ 0 nb
    ∙ get_or-set_ne mem (aval_index t n i) k _ 0 na

length-unpack_loop :
    (t : Target) (n left i : ℕ) (rb mem : List ℕ)
    → length (unpack_loop t n left i rb mem) ≡ length mem
unfolding unpack_loop
length-unpack_loop t n zero i rb mem = refl
length-unpack_loop t n (suc left) i rb mem =
    length-unpack_loop t n left (i + 1) rb _
    ∙ length-set _ (bval_index t n i) _
    ∙ length-set mem (aval_index t n i) _

unpack_loop_aval :
    (t : Target) (n left i j : ℕ) (rb mem : List ℕ)
    → length mem ≡ 2 * n
    → i + left ≡ n
    → i ≤ j
    → j < n
    → get_or (unpack_loop t n left i rb mem) (aval_index t n j) 0 ≡ get_or rb j 0
unfolding unpack_loop
unpack_loop_aval t n zero i j rb mem len e p q = absurd (omega arith)
unpack_loop_aval t n (suc left) i j rb mem len e p q = elim (ℕ_discrete i j) [
  | yes here ↦ rw (← here) (
      unpack_loop_before t n left (i + 1) (aval_index t n i) rb _ (λ k l r.
        (aval_injective t n k i (omega arith), λ c. aval-ne-bval t n i k (omega arith) (sym c)))
      ∙ get_or-set_ne (set mem (aval_index t n i) (get_or rb i 0)) (bval_index t n i)
          (aval_index t n i) _ 0 (λ c. aval-ne-bval t n i i (omega arith) (sym c))
      ∙ get_or-set_self mem (aval_index t n i) (get_or rb i 0) 0
          (omega (arith, index-lt t n i (omega arith))))
  | no later ↦
      unpack_loop_aval t n left (i + 1) j rb _
        (length-set _ (bval_index t n i) _ ∙ length-set mem (aval_index t n i) _ ∙ len)
        (omega arith) (omega arith) q
]

unpack_loop_bval :
    (t : Target) (n left i j : ℕ) (rb mem : List ℕ)
    → length mem ≡ 2 * n
    → i + left ≡ n
    → i ≤ j
    → j < n
    → get_or (unpack_loop t n left i rb mem) (bval_index t n j) 0 ≡ get_or rb (n + j) 0
unfolding unpack_loop
unpack_loop_bval t n zero i j rb mem len e p q = absurd (omega arith)
unpack_loop_bval t n (suc left) i j rb mem len e p q = elim (ℕ_discrete i j) [
  | yes here ↦ rw (← here) (
      unpack_loop_before t n left (i + 1) (bval_index t n i) rb _
        (λ k l r. (aval-ne-bval t n k i (omega arith), bval_injective t n k i (omega arith)))
      ∙ get_or-set_self (set mem (aval_index t n i) (get_or rb i 0)) (bval_index t n i)
          (get_or rb (n + i) 0) 0
          (omega (
            arith,
            index-lt t n i (omega arith),
            length-set mem (aval_index t n i) (get_or rb i 0),
          )))
  | no later ↦
      unpack_loop_bval t n left (i + 1) j rb _
        (length-set _ (bval_index t n i) _ ∙ length-set mem (aval_index t n i) _ ∙ len)
        (omega arith) (omega arith) q
]

pub length-pack : (t : Target) (n : ℕ) (mem buf : List ℕ) → length (pack t n mem buf) ≡ length buf
unfolding pack
length-pack t n mem buf = length-pack_loop t n n 0 mem buf

-- `send_buf` has all `aval`s in front of all `bval`s.
pub pack_elem :
    (t : Target) (n j : ℕ) (mem buf : List ℕ)
    → length buf ≡ 2 * n
    → j < n
    → (get_or (pack t n mem buf) j 0 ≡ get_or mem (aval_index t n j) 0)
      × (get_or (pack t n mem buf) (n + j) 0 ≡ get_or mem (bval_index t n j) 0)
unfolding pack
pack_elem t n j mem buf l h = (
  pack_loop_aval t n n 0 j mem buf l (omega arith) (omega arith) h,
  pack_loop_bval t n n 0 j mem buf l (omega arith) (omega arith) h,
)

-- An element of 4-state data arrives as it was sent, its `aval` and its `bval`, also between a
-- simulator's open array and software's flat array, whatever the buffers held before, where the
-- buffer and the array of the receiver have room for the `2 * n` words.
pub unpack-pack_elem :
    (tx rx : Target) (n j : ℕ) (mem buf mem' : List ℕ)
    → length buf ≡ 2 * n
    → length mem' ≡ 2 * n
    → j < n
    → (get_or (unpack rx n (pack tx n mem buf) mem') (aval_index rx n j) 0
        ≡ get_or mem (aval_index tx n j) 0)
      × (get_or (unpack rx n (pack tx n mem buf) mem') (bval_index rx n j) 0
          ≡ get_or mem (bval_index tx n j) 0)
unfolding pack unpack
unpack-pack_elem tx rx n j mem buf mem' lb lm h = (
  unpack_loop_aval rx n n 0 j _ mem' lm (omega arith) (omega arith) h
      ∙ pack_loop_aval tx n n 0 j mem buf lb (omega arith) (omega arith) h,
  unpack_loop_bval rx n n 0 j _ mem' lm (omega arith) (omega arith) h
      ∙ pack_loop_bval tx n n 0 j mem buf lb (omega arith) (omega arith) h,
)

-- Between two sides of one target the whole array arrives.
pub unpack-pack :
    (t : Target) (n : ℕ) (mem buf mem' : List ℕ)
    → length mem ≡ 2 * n
    → length buf ≡ 2 * n
    → length mem' ≡ 2 * n
    → unpack t n (pack t n mem buf) mem' ≡ mem
unpack-pack t n mem buf mem' lm lb lm' = get_or_ext 0 _ mem (len ∙ sym lm) λ k h.
    let (j, l, c) = index_cases t n k (omega (arith, len)) in
    let (a, b) = unpack-pack_elem t t n j mem buf mem' lb lm' l in
    elim c [ inl e ↦ rw e a | inr e ↦ rw e b ]
  where
    len : length (unpack t n (pack t n mem buf) mem') ≡ 2 * n
    len = unfold unpack in length-unpack_loop t n n 0 _ mem' ∙ lm'

pub set-IsWord : (xs : List ℕ) (i v : ℕ) → All IsWord xs → IsWord v → All IsWord (set xs i v)
set-IsWord [] i v h w = tt
set-IsWord (x ∷ xs) zero v (hx, hs) w = (w, hs)
set-IsWord (x ∷ xs) (suc i) v (hx, hs) w = (hx, set-IsWord xs i v hs w)

get_or-IsWord : (xs : List ℕ) (i : ℕ) → All IsWord xs → IsWord (get_or xs i 0)
get_or-IsWord [] i h = omega arith
get_or-IsWord (x ∷ xs) zero (hx, hs) = hx
get_or-IsWord (x ∷ xs) (suc i) (hx, hs) = get_or-IsWord xs i hs

pack_loop-IsWord :
    (t : Target) (n left i : ℕ) (mem buf : List ℕ)
    → All IsWord mem
    → All IsWord buf
    → All IsWord (pack_loop t n left i mem buf)
unfolding pack_loop
pack_loop-IsWord t n zero i mem buf m b = b
pack_loop-IsWord t n (suc left) i mem buf m b = pack_loop-IsWord t n left (i + 1) mem _ m (
    set-IsWord _ (n + i) _ (set-IsWord buf i _ b (get_or-IsWord mem (aval_index t n i) m))
      (get_or-IsWord mem (bval_index t n i) m))

pub pack-IsWord :
    (t : Target) (n : ℕ) (mem buf : List ℕ)
    → All IsWord mem
    → All IsWord buf
    → All IsWord (pack t n mem buf)
unfolding pack
pack-IsWord t n mem buf m b = pack_loop-IsWord t n n 0 mem buf m b
