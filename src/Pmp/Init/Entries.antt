-- ===== src/Pmp/Init/Entries.antt =====
-- Which regions are valid after an allocation and after a release (sm/src/pmp.c).
use native.Mathlib.Decide.{ℕ_discrete}
use keystone_workspace.Base.{ℕ, ◌<◌, ◌≡◌, ◌≢◌, ◌∙◌, ap, Bool, not, ◌&&◌, ◌||◌, ◌==◌, arith}
use keystone_workspace.Pmp.Bitmap.{test_bit, test_bit-set_bit, test_bit-unset_bit}
use keystone_workspace.Pmp.State.{
  pmp_max_n_region, Region, Pmp, is_pmp_region_valid, region_clear_all,
}
use keystone_workspace.Pmp.Init.{InitResult, pmp_region_free}
use keystone_workspace.Pmp.Init.Total.{Added}

module _ {p : Pmp} {start size : ℕ} {ov : Bool} {r : InitResult} (a : Added p start size ov r) where
  pub Added-valid :
      (i : ℕ)
      → i < pmp_max_n_region
      → is_pmp_region_valid r.pmp i ≡ (is_pmp_region_valid p i || a.idx == i)
  unfolding is_pmp_region_valid
  Added-valid i l =
      ap (λ (b : ℕ). test_bit b i) a.defined_are
      ∙ test_bit-set_bit p.region_def_bitmap a.idx i (omega (arith, a.low)) (omega arith)

  pub Added-self : r.pmp.regions a.idx ≡ a.region
  Added-self = ap (λ (f : ℕ → Region). f a.idx) a.regions_are ∙ ground arith

  pub Added-other : (i : ℕ) → a.idx ≢ i → r.pmp.regions i ≡ p.regions i
  Added-other i n = ap (λ (f : ℕ → Region). f i) a.regions_are ∙ ground arith

module _ (p : Pmp) (k : ℕ) (l : k < pmp_max_n_region) where
  pub free-valid :
      (i : ℕ)
      → i < pmp_max_n_region
      → is_pmp_region_valid (pmp_region_free p k).1 i ≡ (is_pmp_region_valid p i && not (k == i))
  unfolding pmp_region_free region_clear_all is_pmp_region_valid
  free-valid i u =
      let low : k < 32 = omega arith in
      let low' : i < 32 = omega arith in
      elim (ℕ_discrete k i) [
        | yes e ↦ ground (arith, test_bit-unset_bit p.region_def_bitmap k i low low')
        | no n ↦ ground (arith, test_bit-unset_bit p.region_def_bitmap k i low low')
      ]

  pub free-other : (i : ℕ) → k ≢ i → (pmp_region_free p k).1.regions i ≡ p.regions i
  unfolding pmp_region_free region_clear_all
  free-other i n = ground arith
