-- ===== src/Rt/Freemem/Refine.antt =====
-- Runs of the page allocator and of the queue side by side.
use keystone_workspace.Base.{
  ℕ, ◌+◌, ◌<◌, ◌^◌, ◌≡◌, refl, Bool, List, [], ◌∷◌, ◌++◌, arith, update, length, NotIn,
}
use keystone_workspace.Base.Outcome.{
  Outcome, ret, ◌>>=◌, Returns, returns, Returns-bind, Returns-map,
}
use keystone_workspace.Rt.Freemem.{Spa, spa_get_page, spa_put}
use keystone_workspace.Rt.Freemem.Queue.{IsPage, Holds, Chain-Agree, Agree-update}
use keystone_workspace.Rt.Freemem.Laws.{spa_get-empty, spa_get-Holds, put-Holds}

-- `store` is a store of the runtime itself, to a page that it has.
pub data Op : Type 0 where
  get : Bool → Op
  put : ℕ → Op
  store : ℕ → ℕ → Op

-- The abstract view: what an operation gives, and the queue after it.
abbrev pub take_first : List ℕ → ℕ × List ℕ
take_first [] = (0, [])
take_first (p ∷ q) = (p, q)

abbrev pub queue_step : List ℕ → Op → ℕ × List ℕ
queue_step q (get z) = take_first q
queue_step q (put p) = (0, q ++ (p ∷ []))
queue_step q (store a v) = (0, q)

-- The results of a run, and what is left.
abbrev pub queue_run : List ℕ → List Op → List ℕ × List ℕ
queue_run q [] = ([], q)
queue_run q (op ∷ ops) =
    let (x, q1) = queue_step q op in let (xs, q2) = queue_run q1 ops in (x ∷ xs, q2)

module _ (end : ℕ) where
  abbrev pub Legal : List ℕ → Op → Type 0
  Legal q (get z) = Unit
  Legal q (put p) = IsPage end p × NotIn p q × (length q + 1 < 2 ^ 32)
  Legal q (store a v) = NotIn a q

  abbrev pub spa_step : Spa → Op → Outcome (ℕ × Spa)
  spa_step s (get z) = spa_get_page end z s
  spa_step s (put p) = spa_put end s p >>= λ t. ret (0, t)
  spa_step s (store a v) = ret (0, record s { mem = update s.mem a v })

  abbrev pub Matches : ℕ × List ℕ → ℕ × Spa → Type 0
  Matches (x, q) (y, t) = (y ≡ x) × Holds end t q

  spa_step-Matches :
      (s : Spa) (q : List ℕ) (op : Op)
      → Holds end s q
      → Legal q op
      → Returns (Matches (queue_step q op)) (spa_step s op)
  spa_step-Matches s [] (get z) h l = rw (spa_get-empty end z s h) (returns (refl, h))
  spa_step-Matches s (p ∷ q) (get z) h l =
      Returns-map (λ r m. (m.0, m.1)) (spa_get-Holds end z s p q h)
  spa_step-Matches s q (put p) h (ok, n, b) =
      Returns-bind (put-Holds end s p q h ok n b) (λ t m. returns (refl, m.0))
  spa_step-Matches s q (store a v) h n = returns (
    refl,
    record {
      chain = Chain-Agree s.mem (update s.mem a v) s.head q (Agree-update s.mem a v q n) h.chain;
      tail = h.tail;
      count = h.count;
      pages = h.pages;
      distinct = h.distinct;
      bounded = h.bounded;
    },
  )

  abbrev pub LegalRun : List ℕ → List Op → Type 0
  LegalRun q [] = Unit
  LegalRun q (op ∷ ops) = Legal q op × LegalRun (queue_step q op).1 ops

  unfoldable pub spa_run : Spa → List Op → Outcome (List ℕ × Spa)
  spa_run s [] = ret ([], s)
  spa_run s (op ∷ ops) = spa_step s op >>= λ r.
      let (y, t) = r in spa_run t ops >>= λ r. let (ys, u) = r in ret (y ∷ ys, u)

  -- Every run that is legal on the queue returns on the allocator's linked list, with the results
  -- that it has on the queue, and then the allocator holds the queue that is left. An operation is
  -- legal if it takes a page, puts back an aligned page of the free memory that is not free while
  -- less than 2^32 - 1 pages are, or writes to a word in which no link is kept.
  pub spa_run-queue_run :
      (s : Spa) (q : List ℕ) (ops : List Op)
      → Holds end s q
      → LegalRun q ops
      → Returns
          (λ r. let (ys, t) = r in (ys ≡ (queue_run q ops).0) × Holds end t (queue_run q ops).1)
          (spa_run s ops)
  unfolding spa_run
  spa_run-queue_run s q [] h l = returns (refl, h)
  spa_run-queue_run s q (op ∷ ops) h (l, ls) = Returns-bind (spa_step-Matches s q op h l) λ r m.
      Returns-bind (spa_run-queue_run r.1 (queue_step q op).1 ops m.1 ls)
        λ u k. returns (ground (arith, m.0, k.0), k.1)
