-- ===== src/Rt/Freemem/Queue.antt =====
-- The abstract view of the page allocator: a queue of pages, and how the memory holds it.
use keystone_workspace.Base.{
  NotIn-last, ℕ, ◌%◌, ◌^◌, ◌<◌, ◌≡◌, ◌≢◌, refl, List, [], ◌∷◌, ◌++◌, arith, update, length, last,
  All, NotIn, Distinct,
}
use keystone_workspace.Rt.Words.{Mem, load_start, clear_page}
use keystone_workspace.Rt.Freemem.{Spa}

-- The first word of each page gives the next one, that of the last page 0.
abbrev pub Chain : Mem → ℕ → List ℕ → Type 0
Chain mem h [] = h ≡ 0
Chain mem h (p ∷ q) = (h ≡ p) × Chain mem (mem p) q

abbrev pub IsTail : ℕ → List ℕ → Type 0
IsTail t [] = Unit
IsTail t (p ∷ q) = t ≡ last p q

-- A page that `__spa_get` lets through.
abbrev pub IsPage : ℕ → ℕ → Type 0
IsPage end p = (p % 4096 ≡ 0) × (load_start < p) × (p < end)

-- The allocator holds the queue.
pub record Holds (end : ℕ) (s : Spa) (q : List ℕ) : Type 0 where
  pub chain : Chain s.mem s.head q
  pub tail : IsTail s.tail q
  pub count : s.count ≡ length q
  pub pages : All (IsPage end) q
  pub distinct : Distinct q
  pub bounded : length q < 2 ^ 32

-- The first words of the pages are the same in both memories.
abbrev pub Agree : Mem → Mem → List ℕ → Type 0
Agree m m' q = All (λ p. m' p ≡ m p) q

pub Chain-Agree : (m m' : Mem) (h : ℕ) (q : List ℕ) → Agree m m' q → Chain m h q → Chain m' h q
Chain-Agree m m' h [] a c = c
Chain-Agree m m' h (p ∷ q) (e, a) (hp, c) = (hp, rw e (Chain-Agree m m' (m p) q a c))

pub Agree-refl : (m : Mem) (q : List ℕ) → Agree m m q
Agree-refl m [] = tt
Agree-refl m (p ∷ q) = (refl, Agree-refl m q)

pub Agree-update : (m : Mem) (a v : ℕ) (q : List ℕ) → NotIn a q → Agree m (update m a v) q
Agree-update m a v [] n = tt
Agree-update m a v (p ∷ q) (np, n) = (ground arith, Agree-update m a v q n)

-- To clear a page leaves the words of other pages.
pub Agree-clear :
    (end : ℕ) (m : Mem) (a : ℕ) (q : List ℕ)
    → a % 4096 ≡ 0
    → All (IsPage end) q
    → NotIn a q
    → Agree m (clear_page m a) q
Agree-clear end m a [] z l n = tt
Agree-clear end m a (p ∷ q) z ((zp, lp, up), l) (np, n) =
    (ground arith, Agree-clear end m a q z l n)

-- To link a page behind the last one lengthens the chain.
pub Chain-snoc :
    (m : Mem) (h p x : ℕ) (xs : List ℕ)
    → Chain m h (x ∷ xs)
    → Distinct (x ∷ xs)
    → NotIn p (x ∷ xs)
    → Chain (update (update m (last x xs) p) p 0) h ((x ∷ xs) ++ (p ∷ []))
Chain-snoc m h p x [] (hx, c) d (n, t) = (hx, (ground arith, ground arith))
Chain-snoc m h p x (y ∷ ys) (hx, c) (nx, d) (n, t) =
    let ih = Chain-snoc m (m x) p y ys c d t in
    let away : x ≢ last y ys = NotIn-last x y ys nx in
    let e : update (update m (last y ys) p) p 0 x ≡ m x = ground arith in (hx, rw e ih)

pub Chain-head : (m : Mem) (h : ℕ) (q : List ℕ) → Chain m h q → h ≡ 0 → All (λ p. 0 < p) q → q ≡ []
Chain-head m h [] c e l = refl
Chain-head m h (p ∷ q) (hp, c) e (lp, l) = absurd (omega arith)
