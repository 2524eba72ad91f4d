-- ===== src/Tests/Rt.antt =====
-- A concrete memory of the runtime: an empty root table, and four free pages behind it.
use keystone_workspace.Base.{
  ℕ, ◌+◌, ◌*◌, ◌<◌, ◌≡◌, ◌≢◌, refl, sym, ◌∙◌, ap, true, ◌==◌, if◌then◌else◌, arith, none, some,
  List, [], ◌∷◌, ◌⊎◌,
}
use keystone_workspace.Base.Words.{band}
use keystone_workspace.Base.Outcome.{Returns, ◌>>=◌}
use keystone_workspace.Rt.Words.{Mem}
use keystone_workspace.Rt.Freemem.{Spa, spa_init}
use keystone_workspace.Rt.Freemem.Queue.{Holds}
use keystone_workspace.Rt.Freemem.Refine.{get, put, store, spa_run, queue_run, spa_run-queue_run}
use keystone_workspace.Rt.Freemem.Loader.{
  Loader, loader_init, loader_run, gets, loader_run-queue_run,
}
use keystone_workspace.Rt.Freemem.Init.{pages_from, spa_init-Holds}
use keystone_workspace.Rt.Table.{walk_create, walk_fuel, minus_one, pte_valid, pt_index, pte_u}
use keystone_workspace.Rt.Table.Entries.{pte_valid_lem, pt_index_lt}
use keystone_workspace.Rt.Table.Walk.{Tables, needs_le, leaf, walk-invalid}
use keystone_workspace.Rt.Table.Create.{Created, walk_create-Created}
use keystone_workspace.Rt.Table.Space.{Placed, Space}
use keystone_workspace.Rt.Table.Ops.{map_page, alloc_page, free_page, translate, page_address}
use keystone_workspace.Rt.Table.Map.{InOrder, Maps, map_page_lem}
use keystone_workspace.Rt.Table.Alloc.{Allocated, alloc_page_lem}
use keystone_workspace.Rt.Table.Free.{alloc_page-free_page}

abbrev load_pa : ℕ
load_pa = 0x8000_0000

abbrev end : ℕ
end = 0xffff_ffff_0010_0000

abbrev root : ℕ
root = 0xffff_ffff_0000_1000

abbrev page : ℕ → ℕ
page n = 0xffff_ffff_0000_2000 + n * 4096

abbrev links : Mem
links a =
    if a == page 0
    then page 1
    else if a == page 1
    then page 2
    else if a == page 2
    then page 3
    else 0

abbrev free_list : List ℕ
free_list = page 0 ∷ page 1 ∷ page 2 ∷ page 3 ∷ []

abbrev start : Spa
start = record { head = page 0; tail = page 3; count = 4; mem = links }

start-Holds : Holds end start free_list
start-Holds = record {
  chain = omega arith;
  tail = refl;
  count = refl;
  pages = omega arith;
  distinct = omega arith;
  bounded = omega arith;
}

abbrev level : ℕ → ℕ
level t = if t == root then 1 else 0

abbrev slot : ℕ → ℕ
slot t = 0

no_entry : (idx : ℕ) → idx < 512 → links (root + 8 * idx) ≡ 0
no_entry idx l = ground arith

level-root : (t : ℕ) → 0 < level t → t ≡ root
level-root t l = ground arith

start-Tables : Tables load_pa links level slot
start-Tables = record {
  aligned = λ t l. omega (arith, level-root t l);
  nonnull = λ t l. omega (arith, level-root t l);
  depth = λ t. ground arith;
  child = λ t idx l h b v.
      let e = ap (λ (x : ℕ). links (x + 8 * idx)) (level-root t l) ∙ no_entry idx b in
      let f = sym v ∙ ap pte_valid e ∙ pte_valid_lem 0 in absurd (cc f);
}

start-Space : Space load_pa end root start free_list level slot
start-Space = record { holds = start-Holds; tables = start-Tables; top = refl; apart = omega arith }

placed : Placed load_pa end
placed = record { page = refl; in_word = omega arith; physical = omega arith }

spa_run-queue_run_example :
    Returns
      (λ r.
        let (ys, t) = r in
        (ys ≡ (queue_run free_list (get true ∷ store (page 0 + 8) 7 ∷ put (page 0) ∷ [])).0)
        × Holds end t (queue_run free_list (get true ∷ store (page 0 + 8) 7 ∷ put (page 0) ∷ [])).1)
      (spa_run end start (get true ∷ store (page 0 + 8) 7 ∷ put (page 0) ∷ []))
spa_run-queue_run_example =
    spa_run-queue_run end start free_list (get true ∷ store (page 0 + 8) 7 ∷ put (page 0) ∷ [])
      start-Holds (tt, (omega arith, ((omega arith, omega arith, omega arith), tt)))

spa_init-Holds_example :
    Returns (λ t. Holds end t (pages_from (page 0) 4)) (spa_init end (page 0) (4 * 4096) start)
spa_init-Holds_example =
    spa_init-Holds end 4 (page 0) start refl (omega arith) (omega arith) (omega arith) (omega arith)

-- PTE_U, PTE_W and PTE_R
abbrev flags : ℕ
flags = 0x16

user_flags : band 64 flags pte_u ≢ 0
unfolding band
user_flags = omega arith

not_mapped : leaf load_pa 2 links root (page_address 0x4_0000) ≡ none
not_mapped =
    let i = pt_index (page_address 0x4_0000) 1 in
    let e = no_entry i (pt_index_lt (page_address 0x4_0000) 1) in
    rw
      (walk-invalid load_pa 1 links root (page_address 0x4_0000) (ap pte_valid e ∙ pte_valid_lem 0))
      refl

start-InOrder : InOrder load_pa end root start 2
start-InOrder = record {
  q = free_list;
  level = level;
  slot = slot;
  space = start-Space;
  at_least = omega arith;
}

map_page_lem_example :
    Returns
      (λ r.
        let (code, s1) = r in
        InOrder load_pa end root s1 0
        × (((e : ℕ) × (leaf load_pa 2 links root (page_address 0x4_0000) ≡ some e)
              × (code ≡ minus_one)
              × ((x : ℕ)
                  → translate load_pa end root s1.mem x ≡ translate load_pa end root links x))
            ⊎ ((leaf load_pa 2 links root (page_address 0x4_0000) ≡ none)
                × (code ≡ 1)
                × Maps load_pa end root start 0x4_0000 0x8_0000 s1)))
      (map_page load_pa end root start 0x4_0000 0x8_0000 flags)
map_page_lem_example =
    map_page_lem load_pa end root start 0x4_0000 0x8_0000 flags placed start-InOrder (omega arith)

alloc_page_lem_example :
    Returns
      (λ r. let (p, s1) = r in Allocated load_pa end root start 0x4_0000 flags p s1)
      (alloc_page load_pa end root start 0x4_0000 flags)
alloc_page_lem_example =
    alloc_page_lem load_pa end root start free_list level slot 0x4_0000 flags placed start-Space
      (omega arith) not_mapped

alloc_page-free_page_example :
    Returns
      (λ s2.
        InOrder load_pa end root s2 1
        × ((x : ℕ) → translate load_pa end root s2.mem x ≡ translate load_pa end root links x))
      (alloc_page load_pa end root start 0x4_0000 flags >>= λ r.
        free_page load_pa end root r.1 0x4_0000)
alloc_page-free_page_example =
    alloc_page-free_page load_pa end root start free_list level slot 0x4_0000 flags placed
      start-Space (omega arith) not_mapped user_flags

walk_create-Created_example :
    Returns
      (λ r. let (b, s1) = r in Created load_pa end root placed start 4 (page_address 0x4_0000) b s1)
      (walk_create load_pa end root walk_fuel start (page_address 0x4_0000))
walk_create-Created_example =
    walk_create-Created load_pa end root placed walk_fuel start (page_address 0x4_0000) free_list
      level slot start-Space (omega (arith, needs_le load_pa 2 links root (page_address 0x4_0000)))
      (omega (arith, needs_le load_pa 2 links root (page_address 0x4_0000)))

abbrev loader : Loader
loader = loader_init (page 0) 0x2000 links

loader_run-queue_run_example :
    (loader_run 3 loader).0 ≡ (queue_run (pages_from (page 0) 2) (gets 3)).0
loader_run-queue_run_example =
    loader_run-queue_run 3 2 loader (record { stop = refl; in_word = omega arith })
