-- ===== src/Rt/Freemem/Init.antt =====
-- The start of the page allocator.
use mathlib.Core.List.{append_assoc, append-nil}
use keystone_workspace.Base.{
  ℕ, zero, suc, ◌+◌, ◌*◌, ◌/◌, ◌%◌, ◌^◌, ◌<◌, ◌≤◌, ◌≡◌, refl, sym, true, false, ltb, List, [], ◌∷◌,
  ◌++◌, arith, length, length_snoc, All, All-snoc, NotIn,
}
use keystone_workspace.Base.Outcome.{Returns, returns, Returns-bind, Returns-assert}
use keystone_workspace.Rt.Words.{load_start, riscv_page_size, is_aligned, page_bits}
use keystone_workspace.Rt.Freemem.{Spa, spa_init, init_loop, list_init}
use keystone_workspace.Rt.Freemem.Queue.{Holds}
use keystone_workspace.Rt.Freemem.Laws.{put-Holds}

-- `n` pages from `base` on.
abbrev pub pages_from : ℕ → ℕ → List ℕ
pages_from base zero = []
pages_from base (suc n) = base ∷ pages_from (base + 4096) n

below-NotIn : (x : ℕ) (q : List ℕ) → All (λ p. p < x) q → NotIn x q
below-NotIn x [] l = tt
below-NotIn x (p ∷ q) (l, ls) = (omega arith, below-NotIn x q ls)

below-more : (x : ℕ) (q : List ℕ) → All (λ p. p < x) q → All (λ p. p < x + 4096) q
below-more x [] l = tt
below-more x (p ∷ q) (l, ls) = (omega arith, below-more x q ls)

module _ (end : ℕ) where
  init_loop-Holds :
      (n fuel cur stop : ℕ) (s : Spa) (q : List ℕ)
      → Holds end s q
      → All (λ p. p < cur) q
      → cur % 4096 ≡ 0
      → load_start < cur
      → stop ≡ cur + n * 4096
      → stop ≤ end
      → end < 2 ^ 64
      → length q + n < 2 ^ 32
      → n < fuel
      → Returns (λ t. Holds end t (q ++ pages_from cur n)) (init_loop end fuel cur stop s)
  unfolding init_loop
  init_loop-Holds n zero cur stop s q h b z l e u w c f = absurd (omega arith)
  init_loop-Holds zero (suc fuel) cur stop s q h b z l e u w c f =
      let t : ltb cur stop ≡ false = ground arith in rw (t, append-nil q) (returns h)
  init_loop-Holds (suc n) (suc fuel) cur stop s q h b z l e u w c f =
      let t : ltb cur stop ≡ true = ground arith in
      let m : (cur + riscv_page_size) % 2 ^ 64 ≡ cur + 4096 = omega arith in
      rw (t, m)
        (Returns-bind
          (put-Holds end s cur q h (z, l, omega arith) (below-NotIn cur q b) (omega arith))
          λ s1 k. rw (sym (append_assoc q (cur ∷ []) (pages_from (cur + 4096) n))) (
            init_loop-Holds n fuel (cur + 4096) stop s1 (q ++ (cur ∷ [])) k.0
              (All-snoc (λ p. p < cur + 4096) q cur (below-more cur q b) (omega arith))
              (omega arith) (omega arith) (omega arith) u w (omega (arith, length_snoc q cur))
              (omega arith)))

  list_init-Holds : (s : Spa) → Holds end (list_init s) []
  list_init-Holds s = record {
    chain = refl;
    tail = tt;
    count = refl;
    pages = tt;
    distinct = tt;
    bounded = omega arith;
  }

  -- spa_init returns, and the free pages are those of the region in ascending order, whatever the
  -- allocator held before, for a region of less than 2^32 aligned pages that starts behind the load
  -- address and ends in the free memory, which ends below 2^64.
  pub spa_init-Holds :
      (n base : ℕ) (s : Spa)
      → base % 4096 ≡ 0
      → load_start < base
      → base + n * 4096 ≤ end
      → end < 2 ^ 64
      → n < 2 ^ 32
      → Returns (λ t. Holds end t (pages_from base n)) (spa_init end base (n * 4096) s)
  unfolding spa_init
  spa_init-Holds n base s z l e w c =
      Returns-assert {b = is_aligned base page_bits} (ground arith) (
        Returns-assert {b = is_aligned (n * 4096) page_bits} (ground arith) (
          init_loop-Holds n (n * 4096 / riscv_page_size + 1) base ((base + n * 4096) % 2 ^ 64)
            (list_init s) [] (list_init-Holds s) tt z l (omega arith) (omega arith) w (omega arith)
            (omega arith)))
