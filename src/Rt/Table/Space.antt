-- ===== src/Rt/Table/Space.antt =====
-- The memory of the runtime: page tables, and a queue of free pages apart from them.
use keystone_workspace.Base.{
  ℕ, ◌+◌, ◌-◌, ◌*◌, ◌%◌, ◌^◌, ◌<◌, ◌≡◌, ◌∙◌, ap, arith, update, update_ne, List, [], ◌∷◌, All,
  NotIn,
}
use keystone_workspace.Rt.Words.{load_start}
use keystone_workspace.Rt.Freemem.{Spa}
use keystone_workspace.Rt.Freemem.Queue.{IsPage, Holds, Chain-Agree, Agree-update}
use keystone_workspace.Rt.Table.Walk.{Tables}

-- Where the enclave's memory lies: physical addresses of it are those of page numbers of 44 bits.
pub record Placed (load_pa end : ℕ) : Type 0 where
  pub page : load_pa % 4096 ≡ 0
  pub in_word : end < 2 ^ 64
  pub physical : load_pa + (end - load_start) < 2 ^ 56

-- The runtime's memory: page tables, and a queue of free pages apart from them.
pub record Space (load_pa end root : ℕ) (s : Spa) (q : List ℕ) (level slot : ℕ → ℕ) : Type 0 where
  pub holds : Holds end s q
  pub tables : Tables load_pa s.mem level slot
  pub top : level root ≡ 1
  pub apart : All (λ p. level p ≡ 0) q

-- No link of the free list is kept in a table.
pub apart-NotIn :
    (end : ℕ) (level : ℕ → ℕ) (t idx : ℕ) (q : List ℕ)
    → All (IsPage end) q
    → All (λ p. level p ≡ 0) q
    → 0 < level t
    → t % 4096 ≡ 0
    → idx < 512
    → NotIn (t + 8 * idx) q
apart-NotIn end level t idx [] ps a l z b = tt
apart-NotIn end level t idx (p ∷ q) ((zp, lp, up), ps) (ap0, a) l z b = (
  λ e. let n : t ≡ p = omega arith in absurd (omega (arith, ap level n)),
  apart-NotIn end level t idx q ps a l z b,
)

pub apart-grown :
    (level : ℕ → ℕ) (p n : ℕ) (q : List ℕ)
    → NotIn p q
    → All (λ x. level x ≡ 0) q
    → All (λ x. update level p n x ≡ 0) q
apart-grown level p n [] u a = tt
apart-grown level p n (x ∷ q) (ux, u) (ax, a) =
    (update_ne level p x n ux ∙ ax, apart-grown level p n q u a)

-- A store to a table leaves the free list.
pub Holds-store :
    (end : ℕ) (s : Spa) (q : List ℕ) (a v : ℕ)
    → NotIn a q
    → Holds end s q
    → Holds end (record s { mem = update s.mem a v }) q
Holds-store end s q a v n h = record {
  chain = Chain-Agree s.mem (update s.mem a v) s.head q (Agree-update s.mem a v q n) h.chain;
  tail = h.tail;
  count = h.count;
  pages = h.pages;
  distinct = h.distinct;
  bounded = h.bounded;
}
