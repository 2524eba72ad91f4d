-- ===== src/Pmp/Search/Laws.antt =====
-- What the search for clear bits finds, and when it finds nothing.
use keystone_workspace.Base.{
  ℕ, zero, suc, ◌+◌, ◌*◌, ◌^◌, ◌≤◌, ◌<◌, ◌≡◌, refl, sym, ap, ◌∙◌, true, false, arith, lt→ltb, ◌⊎◌,
  some, none, inl, inr,
}
use native.Mathlib.Nat.{mod-eq_of_lt, add_comm, zero-add}
use native.Mathlib.Numerals.{add-one}
use native.Mathlib.Decide.{dec_lt}
use keystone_workspace.Base.Outcome.{ret}
use keystone_workspace.Base.Words.{bit, band, bnot, shl, bit-band, bit-bnot}
use keystone_workspace.Base.Words.Masks.{bit-shift, pow_double, pow_mono, pow_mono_lt, band-pow}
use keystone_workspace.Pmp.Bitmap.{test_bit, test_bit_lem}
use keystone_workspace.Pmp.Search.{search_loop, search_rightmost_unset}

-- A mask below `2 ^ 31` is doubled without loss.
mask_double :
    (m i mask max : ℕ)
    → max < 32
    → mask ≡ m * 2 ^ i
    → mask < 2 ^ max
    → shl 32 mask 1 ≡ m * 2 ^ (i + 1)
unfolding shl
mask_double m i mask max h e l =
    let small : mask * 2 ^ 1 < 2 ^ 32 =
      omega (arith, pow_mono_lt max 32 h, pow_mono {m = suc max} {n = 32} h, pow_double max) in
    let next : i + 1 ≡ suc i = omega arith in
    rw next (mod-eq_of_lt small ∙ omega (arith, e, ap (λ (t : ℕ). m * t) (pow_double i)))

abbrev Fits : ℕ → ℕ → Type 0
Fits b mask = band 32 (bnot 32 b) mask ≡ mask

search_loop-some :
    (fuel b max m mask i r : ℕ)
    → max < 32
    → mask ≡ m * 2 ^ i
    → search_loop fuel b max mask i ≡ some r
    → (m * 2 ^ r < 2 ^ max) × Fits b (m * 2 ^ r)
unfolding search_loop
search_loop-some zero b max m mask i r h e s = cc
search_loop-some (suc fuel) b max m mask i r h e s = ground (
  arith,
  mask_double m i mask max h e,
  ap (λ (t : ℕ). m * 2 ^ t),
  search_loop-some fuel b max m (shl 32 mask 1) (i + 1) r h,
)

too_far_eq : (m j max : ℕ) → 0 < m → m * 2 ^ j < 2 ^ max → ¬ (2 ^ max ≤ 2 ^ j)
too_far_eq m j max pos lt above = grind arith

too_far : (m j max : ℕ) → 0 < m → m * 2 ^ j < 2 ^ max → ¬ (2 ^ max < 2 ^ j)
too_far m j max pos lt above = grind arith

mul_mono : (m i j : ℕ) → i ≤ j → m * 2 ^ i ≤ m * 2 ^ j
mul_mono m i j h = let p : 2 ^ i ≤ 2 ^ j = pow_mono h in grind arith

step_none : (i j : ℕ) → i ≤ j → (i ≡ j) ⊎ (i + 1 ≤ j)
step_none i j h = grind arith

search_loop-none :
    (fuel b max m mask i j : ℕ)
    → max < 32
    → 0 < m
    → mask ≡ m * 2 ^ i
    → 32 ≤ fuel + i
    → search_loop fuel b max mask i ≡ none
    → i ≤ j
    → m * 2 ^ j < 2 ^ max
    → ¬ Fits b (m * 2 ^ j)
unfolding search_loop
search_loop-none zero b max m mask i j h pos e f s le lt fits =
    too_far m j max pos lt (omega (arith, pow_mono_lt max j (omega arith)))
search_loop-none (suc fuel) b max m mask i j h pos e f s le lt fits = elim (step_none i j le) [
  | inl here ↦
      let at_j : m * 2 ^ j ≡ mask = sym (e ∙ ap (λ (t : ℕ). m * 2 ^ t) here) in
      let found : Fits b mask = rw at_j at fits in ground arith
  | inr more ↦ ground (
    arith,
    mul_mono m i j le,
    mask_double m i mask max h e,
    search_loop-none fuel b max m (shl 32 mask 1) (i + 1) j h pos,
  )
]

-- A set bit of the mask that fits stands at a clear bit of the bitmap.
Fits-test_bit :
    (b m r j : ℕ) → j + r < 32 → bit m j ≡ true → Fits b (m * 2 ^ r) → test_bit b (j + r) ≡ false
Fits-test_bit b m r j h t fits = ground (
  arith,
  test_bit_lem b (j + r),
  bit-shift m r j,
  bit-band 32 (bnot 32 b) (m * 2 ^ r) (j + r),
  bit-bnot 32 b (j + r),
  ap (λ (t : ℕ). bit t (j + r)) fits,
)

abbrev pub AllSet : ℕ → ℕ → Type 0
AllSet b max = (j : ℕ) → j < max → test_bit b j ≡ true

-- Neither assertion fails at the two masks of the callers.
pub search_one :
    (b max : ℕ) → max < 32 → search_rightmost_unset b max 1 ≡ ret (search_loop 32 b max 1 0)
unfolding search_rightmost_unset band
search_one b max h = rw (lt→ltb max 32 h)

pub search_two :
    (b max : ℕ) → max < 32 → search_rightmost_unset b max 3 ≡ ret (search_loop 32 b max 3 0)
unfolding search_rightmost_unset band
search_two b max h = rw (lt→ltb max 32 h)

below : (r max : ℕ) (m : ℕ) → 0 < m → m * 2 ^ r < 2 ^ max → r < max
below r max m pos h = elim (dec_lt r max) [
  | yes p ↦ p
  | no p ↦ absurd (too_far_eq m r max pos h (pow_mono {m = max} {n = r} (omega arith)))
]

-- Found for one bit: a clear bit below `max`.
pub search_one-some :
    (b max r : ℕ)
    → max < 32
    → search_loop 32 b max 1 0 ≡ some r
    → (r < max) × (test_bit b r ≡ false)
unfolding bit
search_one-some b max r h e =
    let (lt, fits) = search_loop-some 32 b max 1 1 0 r h refl e in
    let low : r < max = below r max 1 (omega arith) lt in
    (low, rw zero-add at (Fits-test_bit b 1 r 0 (omega arith) refl fits))

-- Nothing found for one bit: all bits below `max` are set.
pub search_one-none : (b max : ℕ) → max < 32 → search_loop 32 b max 1 0 ≡ none → AllSet b max
search_one-none b max h e j l =
    let unfit =
      search_loop-none 32 b max 1 1 0 j h (omega arith) refl (omega arith) e (omega arith) in
    ground
      (arith, test_bit_lem b j, bit-bnot 32 b j, band-pow 32 (bnot 32 b) j, pow_mono_lt j max l)

-- Found for two bits: two clear bits in a row, both below `max`.
pub search_two-some :
    (b max r : ℕ)
    → max < 32
    → search_loop 32 b max 3 0 ≡ some r
    → (r + 1 < max) × (test_bit b r ≡ false) × (test_bit b (r + 1) ≡ false)
unfolding bit
search_two-some b max r h e =
    let (lt, fits) = search_loop-some 32 b max 3 3 0 r h refl e in
    let low : r + 1 < max =
      below (r + 1) max 1 (omega arith)
        (omega (arith, pow_double r, ap (λ (t : ℕ). 2 ^ t) (add-one r))) in
    (
      low,
      rw zero-add at (Fits-test_bit b 3 r 0 (omega arith) refl fits),
      rw (add_comm r 1) (Fits-test_bit b 3 r 1 (omega arith) refl fits),
    )
