-- ===== src/Rt/Freemem/Loader.antt =====
-- The page allocator of the loader (runtime/mm/freemem_ld.c), which gives the pages of its region
-- one after the other and takes none back.
use keystone_workspace.Base.{
  ℕ, zero, suc, ◌+◌, ◌-◌, ◌*◌, ◌/◌, ◌%◌, ◌^◌, ◌<◌, ◌≡◌, refl, ap, true, false, leb, if◌then◌else◌,
  List, [], ◌∷◌, arith,
}
use keystone_workspace.Base.Outcome.{Outcome, hang}
use keystone_workspace.Rt.Words.{Mem, riscv_page_size, clear_page}
use keystone_workspace.Rt.Freemem.Refine.{Op, get, queue_run}
use keystone_workspace.Rt.Freemem.Init.{pages_from}

-- freeBase, freeEnd and the memory
pub record Loader : Type 0 where
  pub free_base : ℕ
  pub free_end : ℕ
  pub mem : Mem

abbrev pub loader_init : ℕ → ℕ → Mem → Loader
loader_init base size mem = record {
  free_base = base;
  free_end = (base + size) % 2 ^ 64;
  mem = mem;
}

unfoldable pub loader_get_zero : Loader → ℕ × Loader
loader_get_zero s = if leb s.free_end s.free_base then (0, s) else (
  s.free_base,
  record s {
    mem = clear_page s.mem s.free_base;
    free_base = (s.free_base + riscv_page_size) % 2 ^ 64;
  },
)

unfoldable pub loader_get : Loader → ℕ × Loader
unfolding loader_get_zero
loader_get s = loader_get_zero s

-- An assertion that always fails
abbrev pub loader_put : Loader → ℕ → Outcome Loader
loader_put s page = hang

unfoldable pub loader_available : Loader → ℕ
loader_available s = (s.free_end + 2 ^ 64 - s.free_base) % 2 ^ 64 / riscv_page_size % 2 ^ 32

-- `n` pages are left.
pub record Left (s : Loader) (n : ℕ) : Type 0 where
  pub stop : s.free_end ≡ s.free_base + n * 4096
  pub in_word : s.free_end < 2 ^ 64

abbrev pub gets : ℕ → List Op
gets zero = []
gets (suc m) = get true ∷ gets m

unfoldable pub loader_run : ℕ → Loader → List ℕ × Loader
unfolding loader_get_zero
loader_run zero s = ([], s)
loader_run (suc m) s =
    let (page, s1) = loader_get_zero s in let (pages, s2) = loader_run m s1 in (page ∷ pages, s2)

get-none : (s : Loader) → Left s 0 → loader_get_zero s ≡ (0, s)
unfolding loader_get_zero
get-none s l = ground (arith, l.stop)

get-some :
    (s : Loader) (n : ℕ)
    → Left s (suc n)
    → loader_get_zero s ≡ (
      s.free_base,
      record {
        free_base = s.free_base + 4096;
        free_end = s.free_end;
        mem = clear_page s.mem s.free_base;
      },
    )
unfolding loader_get_zero
get-some s n l =
    let t : leb s.free_end s.free_base ≡ false = ground (arith, l.stop) in
    let e : (s.free_base + riscv_page_size) % 2 ^ 64 ≡ s.free_base + 4096 =
      omega (arith, l.stop, l.in_word) in
    rw (t, e) refl

run-none : (m : ℕ) (s : Loader) → Left s 0 → (loader_run m s).0 ≡ (queue_run [] (gets m)).0
unfolding loader_run
run-none zero s l = refl
run-none (suc m) s l = rw (get-none s l) (ap (λ (t : List ℕ). 0 ∷ t) (run-none m s l))

-- If `n` pages are left before an end below 2^64, any number of calls of the loader's spa_get_zero
-- gives what the queue of those pages gives, in ascending order, and 0 when none is left.
pub loader_run-queue_run :
    (m n : ℕ) (s : Loader)
    → Left s n
    → (loader_run m s).0 ≡ (queue_run (pages_from s.free_base n) (gets m)).0
unfolding loader_run
loader_run-queue_run m zero s l = run-none m s l
loader_run-queue_run zero (suc n) s l = refl
loader_run-queue_run (suc m) (suc n) s l =
    let s1 : Loader = record {
      free_base = s.free_base + 4096;
      free_end = s.free_end;
      mem = clear_page s.mem s.free_base;
    } in
    let l1 : Left s1 n = record { stop = omega (arith, l.stop); in_word = l.in_word } in
    rw (get-some s n l) (ap (λ (t : List ℕ). s.free_base ∷ t) (loader_run-queue_run m n s1 l1))

-- spa_available counts the pages that are left, up to 2^32.
pub loader_available_lem : (s : Loader) (n : ℕ) → Left s n → n < 2 ^ 32 → loader_available s ≡ n
unfolding loader_available
loader_available_lem s n l b =
    let e : (s.free_end + 2 ^ 64 - s.free_base) % 2 ^ 64 ≡ n * 4096 =
      omega (arith, l.stop, l.in_word) in
    rw e (omega arith)
