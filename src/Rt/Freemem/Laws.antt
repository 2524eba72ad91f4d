-- ===== src/Rt/Freemem/Laws.antt =====
-- What the operations of the page allocator do to the queue.
use keystone_workspace.Base.{
  ℕ, ◌+◌, ◌-◌, ◌%◌, ◌^◌, ◌<◌, ◌≡◌, refl, sym, ap, Bool, true, false, if◌then◌else◌, List, [], ◌∷◌,
  ◌++◌, arith, update, length, last, last_snoc, length_snoc, All-snoc, All-last, NotIn-last, NotIn,
  Distinct-snoc,
}
use keystone_workspace.Base.Outcome.{ret, Returns, returns}
use keystone_workspace.Rt.Words.{Mem, clear_page}
use keystone_workspace.Rt.Freemem.{Spa, spa_get_page, spa_put, zero_if}
use keystone_workspace.Rt.Freemem.Queue.{
  IsTail, IsPage, Holds, Agree, Chain-Agree, Agree-clear, Agree-refl, Chain-snoc,
}

module _ (end : ℕ) where
  -- On an empty queue the code gives 0 and changes nothing.
  pub spa_get-empty : (z : Bool) (s : Spa) → Holds end s [] → spa_get_page end z s ≡ ret (0, s)
  unfolding spa_get_page
  spa_get-empty z s h = ground (arith, h.count, h.chain)

  spa_get-returns :
      (z : Bool) (s : Spa) (p : ℕ) (q : List ℕ)
      → Holds end s (p ∷ q)
      → spa_get_page end z s
        ≡ ret (
          s.head,
          zero_if z s.head
              (record s { head = s.mem s.head; count = (s.count + 2 ^ 32 - 1) % 2 ^ 32 }),
        )
  unfolding spa_get_page
  spa_get-returns z s p q h = ground (arith, h.count, h.chain, h.pages)

  IsTail-rest : (t p : ℕ) (q : List ℕ) → IsTail t (p ∷ q) → IsTail t q
  IsTail-rest t p [] e = tt
  IsTail-rest t p (y ∷ ys) e = e

  popped :
      (s : Spa) (p : ℕ) (q : List ℕ) (m : Mem)
      → Holds end s (p ∷ q)
      → Agree s.mem m q
      → Holds end
          (record {
            head = s.mem s.head;
            tail = s.tail;
            count = (s.count + 2 ^ 32 - 1) % 2 ^ 32;
            mem = m;
          })
          q
  popped s p q m h a =
      let (hp, c) = h.chain in
      let (ok, l) = h.pages in
      let (np, d) = h.distinct in
      record {
        chain = rw hp (Chain-Agree s.mem m (s.mem p) q a c);
        tail = IsTail-rest s.tail p q h.tail;
        count = omega (arith, h.count, h.bounded);
        pages = l;
        distinct = d;
        bounded = omega (arith, h.bounded);
      }

  -- The code gives the first page, cleared if so asked, and takes it from the queue.
  pub spa_get-Holds :
      (z : Bool) (s : Spa) (p : ℕ) (q : List ℕ)
      → Holds end s (p ∷ q)
      → Returns
          (λ r.
            let (page, t) = r in
            (page ≡ p) × Holds end t q × (t.mem ≡ (if z then clear_page s.mem p else s.mem)))
          (spa_get_page end z s)
  spa_get-Holds true s p q h =
      let (hp, c) = h.chain in
      let ((zp, lp, up), l) = h.pages in
      let (np, d) = h.distinct in
      let a = Agree-clear end s.mem s.head q (omega arith) l (rw hp np) in
      rw (spa_get-returns true s p q h)
        (returns (hp, popped s p q (clear_page s.mem s.head) h a, ap (clear_page s.mem) hp))
  spa_get-Holds false s p q h =
      let (hp, c) = h.chain in
      let a = Agree-refl s.mem q in
      rw (spa_get-returns false s p q h) (returns (hp, popped s p q s.mem h a, refl))

  spa_put-first :
      (s : Spa) (p : ℕ)
      → Holds end s []
      → IsPage end p
      → spa_put end s p ≡ ret (record { head = p; tail = p; count = 1; mem = update s.mem p 0 })
  unfolding spa_put
  spa_put-first s p h ok = ground (arith, h.count, h.chain, ok)

  spa_put-linked :
      (s : Spa) (p x : ℕ) (xs : List ℕ)
      → Holds end s (x ∷ xs)
      → IsPage end p
      → length xs + 2 < 2 ^ 32
      → spa_put end s p
        ≡ ret (record {
          head = s.head;
          tail = p;
          count = s.count + 1;
          mem = update (update s.mem (last x xs) p) p 0;
        })
  unfolding spa_put
  spa_put-linked s p x xs h ok b =
      let (zl, ll, ul) = All-last (IsPage end) x xs h.pages in
      rw h.tail (ground (arith, h.count, h.chain, h.pages, ok))

  pub put-Holds :
      (s : Spa) (p : ℕ) (q : List ℕ)
      → Holds end s q
      → IsPage end p
      → NotIn p q
      → length q + 1 < 2 ^ 32
      → Returns
          (λ t. Holds end t (q ++ (p ∷ [])) × ((a : ℕ) → NotIn a (p ∷ q) → t.mem a ≡ s.mem a))
          (spa_put end s p)
  put-Holds s p [] h ok n b = rw (spa_put-first s p h ok) (
      returns (
        record {
          chain = (refl, ground arith);
          tail = refl;
          count = refl;
          pages = (ok, tt);
          distinct = (tt, tt);
          bounded = omega arith;
        },
        λ a (na, t). ground arith,
      ))
  put-Holds s p (x ∷ xs) h ok n b = rw (spa_put-linked s p x xs h ok (omega arith)) (
      returns (
        record {
          chain = Chain-snoc s.mem s.head p x xs h.chain h.distinct n;
          tail = sym (last_snoc x xs p);
          count = omega (arith, h.count, length_snoc xs p);
          pages = All-snoc (IsPage end) (x ∷ xs) p h.pages ok;
          distinct = Distinct-snoc (x ∷ xs) p h.distinct n;
          bounded = omega (arith, length_snoc xs p);
        },
        λ a (na, nq). ground (arith, NotIn-last a x xs nq),
      ))
