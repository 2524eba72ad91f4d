-- ===== src/Rt/Merkle/Added.antt =====
-- merk_insert from the root, and merk_verify behind it (runtime/crypto/merkle.c), on a memory that
-- does not change but by them.
use keystone_workspace.Base.{
  ℕ, ◌≤◌, ◌<◌, ◌==◌, ◌≡◌, ◌≢◌, true, if◌then◌else◌, Option, none, some, [], ◌∷◌, arith, refl, sym,
  ◌∙◌,
}
use keystone_workspace.Base.Outcome.{ret}
use keystone_workspace.Rt.Merkle.{Node, Sha256, one, merk_verify, merk_hash_single_node}
use keystone_workspace.Rt.Merkle.Insert.{
  done, Merk, set_node, write, insert_first, percolate, merk_insert,
}
use keystone_workspace.Rt.Merkle.Tree.{
  Tree, tip, depth, graft, Apart, node_of, Holds-address, Holds-same, On-ne, Apart-graft,
}
use keystone_workspace.Rt.Merkle.Path.{descend-Holds, ==-false, write_self, write_other}
use keystone_workspace.Rt.Merkle.Grow.{Supplied, Under}
use keystone_workspace.Rt.Merkle.Grown.{climbs}
use keystone_workspace.Rt.Merkle.Root.{
  content, height, added, content-added, depth-added, root_of, Keeps, Room, merk_verify-Keeps,
  root-Fits, root_again, no_sibling, descend_root,
}

module _ {D : Type 0} (h : Sha256 D) where
  first_root :
      (r n : Node D) (p : ℕ)
      → r.ptr ≡ 0
      → r.left ≡ 0
      → record (merk_hash_single_node h r none (some n)) { right = p }
        ≡ record { ptr = 0; hash = h.sha256 (one n.ptr n.hash); left = 0; right = p }
  unfolding merk_hash_single_node
  first_root r n p rp rl = rw (rp, rl) refl

  insert_none :
      (s : Merk D) (root key p q : ℕ) (e : D)
      → Keeps h s.nodes root none
      → Room h s root none p q
      → (u : Merk D) × (merk_insert h s root key e ≡ ret (done, u))
        × Keeps h u.nodes root (some (tip p key e))
  unfolding merk_insert
  insert_none s root key p q e (rp, rl, rr) room =
      let n = node_of h (tip p key e) in
      let m = write s.nodes p n in
      let same_root : m root ≡ s.nodes root = write_other s.nodes p root n room.not_root.0 in
      (
        insert_first h (record { nodes = m; pool = room.first }) root p,
        rw (room.gives_first, ==-false room.not_null.0, same_root, rr) refl,
        (
          room.not_root.0,
          write_self m root _
              ∙ rw (same_root, write_self s.nodes p n) (first_root (s.nodes root) n p rp rl),
          (
            room.not_null.0,
            write_other m root p _ (λ i. room.not_root.0 (sym i)) ∙ write_self s.nodes p n,
          ),
        ),
      )

  -- The top of the tree hangs under the root.
  Under-root :
      (s : Merk D) (root key p q : ℕ) (e : D) (t : Tree D)
      → s.nodes root ≡ root_of h t
      → Apart root t
      → root ≢ p
      → root ≢ q
      → Under h s p q key e t root true
  Under-root s root key p q e t r a np nq = record {
    fits = root-Fits h s.nodes root t r;
    parent_apart = (a, np, nq);
    far = λ c. absurd (no_sibling (s.nodes root) (rw r refl) c);
  }

  insert_some :
      (s : Merk D) (root key p q : ℕ) (e : D) (t : Tree D)
      → Keeps h s.nodes root (some t)
      → depth t < 31
      → Room h s root (some t) p q
      → (u : Merk D) × (merk_insert h s root key e ≡ ret (done, u))
        × Keeps h u.nodes root (some (graft p q key e t))
  unfolding merk_insert percolate
  insert_some s root key p q e t (a, r, v) lt room =
      let n = node_of h (tip p key e) in
      let m = write s.nodes p n in
      let s1 : Merk D = record { nodes = m; pool = room.first } in
      let t' = graft p q key e t in
      let r1 : m root ≡ root_of h t = write_other s.nodes p root n room.not_root.0 ∙ r in
      let v1 =
        Holds-same h s.nodes m t (λ x o. write_other s.nodes p x n (On-ne x p t o room.unused.0))
          v in
      let sup : Supplied h s1 p q key e = record {
        at_new = write_self s.nodes p n;
        new_ne = room.not_null.0;
        spare_ne = room.not_null.1;
        apart = room.not_null.2;
        pool = room.second;
        spare = room.gives_second;
      } in
      let (u, g, run) =
        climbs h s1 p q key e t root true [] sup v1 room.takes_back room.unused.0 room.unused.1
          (Under-root s1 root key p q e t r1 a room.not_root.0 room.not_root.1) in
      let a' = Apart-graft p q key e root t room.not_root.0 room.not_root.1 a in
      (
        set_node u root (root_of h t'),
        rw
            (
              room.gives_first,
              ==-false room.not_null.0,
              descend_root h 30 m key root t r1 v1,
              descend-Holds h 30 m key t (root ∷ []) v1 (omega arith),
              r1,
              ==-false (Holds-address h m t v1),
            )
            (run ∙ rw (root_again h m root t t' r1) refl),
        (
          a',
          write_self u.nodes root (root_of h t'),
          Holds-same h u.nodes _ t'
              (λ x o. write_other u.nodes root x (root_of h t') (On-ne x root t' o a')) g.holds,
        ),
      )

  pub insert_any :
      (s : Merk D) (root key p q : ℕ) (e : D) (o : Option (Tree D))
      → Keeps h s.nodes root o
      → height o < 32
      → Room h s root o p q
      → (u : Merk D) × (merk_insert h s root key e ≡ ret (done, u))
        × Keeps h u.nodes root (some (added p q key e o))
  insert_any s root key p q e none v lt room = insert_none s root key p q e v room
  insert_any s root key p q e (some t) v lt room =
      insert_some s root key p q e t v (omega arith) room

  -- On a memory that keeps a tree of less than 32 levels, and with room for two nodes, merk_insert
  -- succeeds, and the memory keeps a tree of at most one level more. Then merk_verify, given more
  -- rounds than the tree had levels, ends for every key of the new tree, and accepts exactly the
  -- hash under the key: the new one for the key that was put in, the old one for any other.
  pub merk_insert-merk_verify :
      (s : Merk D) (root key p q : ℕ) (e : D) (o : Option (Tree D)) (fuel i : ℕ) (stack : Node D)
      (hash d : D)
      → Keeps h s.nodes root o
      → height o < 32
      → Room h s root o p q
      → height o < fuel
      → (if i == key then some e else content o i) ≡ some d
      → (u : Merk D) × (t : Tree D) × (merk_insert h s root key e ≡ ret (done, u))
        × Keeps h u.nodes root (some t)
        × (depth t ≤ height o)
        × (merk_verify h fuel (λ _. u.nodes) stack (u.nodes root) i hash ≡ some (h.same hash d))
  merk_insert-merk_verify s root key p q e o fuel i stack hash d v lt room enough c =
      let t = added p q key e o in
      let (u, r, w) = insert_any s root key p q e o v lt room in
      let le = depth-added p q key e o in
      (
        u,
        t,
        r,
        w,
        le,
        merk_verify-Keeps h fuel u.nodes stack root t i hash d w (omega arith)
            (content-added p q key e o i ∙ c),
      )
