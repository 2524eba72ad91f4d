-- ===== src/Rt/Table/Walk.antt =====
-- Memories whose words form page tables, and what a walk finds in them.
use keystone_workspace.Base.{
  ℕ, zero, suc, ◌+◌, ◌-◌, ◌*◌, ◌%◌, ◌<◌, ◌≤◌, ◌≡◌, ◌≢◌, ◌⊎◌, inl, inr, refl, sym, ◌∙◌, true, false,
  if◌then◌else◌, arith, Option, none, some, Bool-cases,
}
use keystone_workspace.Rt.Words.{Mem}
use keystone_workspace.Rt.Table.{Walked, found, missing, walk_loop, pte_valid, pt_index, table_of}
use keystone_workspace.Rt.Table.Entries.{pt_index_lt}

-- An entry is in one place of one table.
pub entry_injective :
    (u t j i : ℕ)
    → u % 4096 ≡ 0
    → t % 4096 ≡ 0
    → j < 512
    → i < 512
    → u + 8 * j ≡ t + 8 * i
    → (u ≡ t) × (j ≡ i)
entry_injective u t j i zu zt bj bi e = omega arith

module _ (load_pa : ℕ) where
  -- The tables of a memory: `level t` is 1 to 3 for a table at `t` and 0 elsewhere, and `slot t` is
  -- the entry that leads to it, for a table below the root.
  pub record Tables (m : Mem) (level slot : ℕ → ℕ) : Type 0 where
    pub aligned : (t : ℕ) → 0 < level t → t % 4096 ≡ 0
    pub nonnull : (t : ℕ) → 0 < level t → 0 < t
    pub depth : (t : ℕ) → level t ≤ 3
    pub child :
        (t idx : ℕ)
        → 0 < level t
        → level t < 3
        → idx < 512
        → pte_valid (m (t + 8 * idx)) ≡ true
        → (level (table_of load_pa (m (t + 8 * idx))) ≡ level t + 1)
          × (slot (table_of load_pa (m (t + 8 * idx))) ≡ t + 8 * idx)

  -- The value of the valid entry at the end of a walk.
  abbrev pub entry_of : Mem → Walked → Option ℕ
  entry_of m (found slot) = if pte_valid (m slot) then some (m slot) else none
  entry_of m (missing slot) = none

  abbrev pub leaf : ℕ → Mem → ℕ → ℕ → Option ℕ
  leaf k m t addr = entry_of m (walk_loop load_pa k m t addr)

  -- The tables that a walk for the address would have to add.
  unfoldable pub needs : ℕ → Mem → ℕ → ℕ → ℕ
  needs zero m t addr = 0
  needs (suc k) m t addr =
      let w = t + 8 * pt_index addr (3 - suc k) in
      let rest = needs k m (table_of load_pa (m w)) addr in if pte_valid (m w) then rest else suc k

  pub walk-valid :
      (k : ℕ) (m : Mem) (t addr : ℕ)
      → pte_valid (m (t + 8 * pt_index addr (3 - suc k))) ≡ true
      → walk_loop load_pa (suc k) m t addr
        ≡ walk_loop load_pa k m (table_of load_pa (m (t + 8 * pt_index addr (3 - suc k)))) addr
  unfolding walk_loop
  walk-valid k m t addr h = rw h refl

  pub walk-invalid :
      (k : ℕ) (m : Mem) (t addr : ℕ)
      → pte_valid (m (t + 8 * pt_index addr (3 - suc k))) ≡ false
      → walk_loop load_pa (suc k) m t addr ≡ missing (t + 8 * pt_index addr (3 - suc k))
  unfolding walk_loop
  walk-invalid k m t addr h = rw h refl

  pub walk-last :
      (m : Mem) (t addr : ℕ) → walk_loop load_pa 0 m t addr ≡ found (t + 8 * pt_index addr 3)
  unfolding walk_loop
  walk-last m t addr = refl

  pub needs-valid :
      (k : ℕ) (m : Mem) (t addr : ℕ)
      → pte_valid (m (t + 8 * pt_index addr (3 - suc k))) ≡ true
      → needs (suc k) m t addr
        ≡ needs k m (table_of load_pa (m (t + 8 * pt_index addr (3 - suc k)))) addr
  unfolding needs
  needs-valid k m t addr h = rw h refl

  pub needs-invalid :
      (k : ℕ) (m : Mem) (t addr : ℕ)
      → pte_valid (m (t + 8 * pt_index addr (3 - suc k))) ≡ false
      → needs (suc k) m t addr ≡ suc k
  unfolding needs
  needs-invalid k m t addr h = rw h refl

  pub needs_le : (k : ℕ) (m : Mem) (t addr : ℕ) → needs k m t addr ≤ k
  unfolding needs
  needs_le zero m t addr = omega arith
  needs_le (suc k) m t addr =
      ground (arith, needs_le k m (table_of load_pa (m (t + 8 * pt_index addr (3 - suc k)))) addr)

pub Walked-cases : (w : Walked) → ((a : ℕ) × (w ≡ found a)) ⊎ ((a : ℕ) × (w ≡ missing a))
Walked-cases (found a) = inl (a, refl)
Walked-cases (missing a) = inr (a, refl)

pub found≢missing : (a b : ℕ) → found a ≢ missing b
found≢missing a b q = cc

pub missing-injective : (a b : ℕ) → missing a ≡ missing b → a ≡ b
missing-injective a b q = cc

pub found-injective : (a b : ℕ) → found a ≡ found b → a ≡ b
found-injective a b q = cc

-- The entry where a walk stops too early.
pub record Stop (load_pa : ℕ) (m : Mem) (level : ℕ → ℕ) (a : ℕ) : Type 0 where
  pub table : ℕ
  pub idx : ℕ
  pub has_level : 0 < level table
  pub inner : level table < 3
  pub in_table : idx < 512
  pub here : a ≡ table + 8 * idx
  pub free_slot : pte_valid (m (table + 8 * idx)) ≡ false

module _ (load_pa : ℕ) (m : Mem) (level slot : ℕ → ℕ) (tables : Tables load_pa m level slot) where
  pub walk-Stop :
      (k u addr a : ℕ)
      → 0 < level u
      → level u + k ≡ 3
      → walk_loop load_pa k m u addr ≡ missing a
      → Stop load_pa m level a × (0 < needs load_pa k m u addr)
  walk-Stop zero u addr a l d w =
      absurd (found≢missing (u + 8 * pt_index addr 3) a (sym (walk-last load_pa m u addr) ∙ w))
  walk-Stop (suc k) u addr a l d w =
      let j = pt_index addr (3 - suc k) in
      let b = pt_index_lt addr (3 - suc k) in
      elim (Bool-cases (pte_valid (m (u + 8 * j)))) [
        | inl v ↦
            let c = tables.child u j l (omega arith) b v in
            rw (needs-valid load_pa k m u addr v) (
              walk-Stop k (table_of load_pa (m (u + 8 * j))) addr a (omega (arith, c.0))
                (omega (arith, c.0)) (sym (walk-valid load_pa k m u addr v) ∙ w))
        | inr v ↦
            let q = missing-injective (u + 8 * j) a (sym (walk-invalid load_pa k m u addr v) ∙ w) in
            (
              record {
                table = u;
                idx = j;
                has_level = l;
                inner = omega (arith, d);
                in_table = b;
                here = sym q;
                free_slot = v;
              },
              rw (needs-invalid load_pa k m u addr v) (omega arith),
            )
      ]

  pub needs-found :
      (k u addr b : ℕ) → walk_loop load_pa k m u addr ≡ found b → needs load_pa k m u addr ≡ 0
  unfolding needs
  needs-found zero u addr b w = refl
  needs-found (suc k) u addr b w =
      let j = pt_index addr (3 - suc k) in
      elim (Bool-cases (pte_valid (m (u + 8 * j)))) [
        | inl v ↦ rw (needs-valid load_pa k m u addr v) (
            needs-found k (table_of load_pa (m (u + 8 * j))) addr b
              (sym (walk-valid load_pa k m u addr v) ∙ w))
        | inr v ↦ absurd (found≢missing b (u + 8 * j) (sym w ∙ walk-invalid load_pa k m u addr v))
      ]
