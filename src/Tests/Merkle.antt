-- ===== src/Tests/Merkle.antt =====
-- A concrete Merkle tree, with hashes that are the messages themselves.
use keystone_workspace.Base.{
  ℕ, zero, suc, ◌+◌, ◌<◌, ◌≡◌, ◌≢◌, refl, sym, ◌∙◌, Bool, true, false, if◌then◌else◌, arith, some,
  List, [], ◌∷◌, ◌-◌, ◌^◌, ◌≤◌, ltb, subst, inl, inr, ◌↔◌, ◌==◌,
}
use native.Mathlib.Decide.{ℕ_discrete}
use keystone_workspace.Rt.Merkle.{Message, empty, one, two, page, Node, Sha256, merk_verify}
use keystone_workspace.Rt.Merkle.Alloc.{Pool, merk_alloc_node, merk_free_node}
use keystone_workspace.Rt.Merkle.Insert.{Merk, done, write, merk_insert}
use keystone_workspace.Rt.Merkle.Tree.{
  Tree, tip, fork, depth, On, On-ne, Apart, Disjoint, Disjoint-right, node_of, Holds, Holds-same,
}
use keystone_workspace.Rt.Merkle.Path.{write_self, write_other}
use keystone_workspace.Base.Outcome.{ret}
use keystone_workspace.Rt.Merkle.Tamper.{Honest, merk_verify_tampered}
use keystone_workspace.Rt.Merkle.Root.{height, Keeps, Room, root_of}
use keystone_workspace.Rt.Merkle.Added.{merk_insert-merk_verify}
use keystone_workspace.Rt.Words.{load_start}
use keystone_workspace.Rt.Swap.{Aes, Swap, page_swap_epm}
use keystone_workspace.Rt.Swap.Round.{Ready, Stored, AllStored, page_swap_in}
use keystone_workspace.Rt.Merkle.Deep.{levels, merk_insert_lost}

data Term : Type 0 where
  of_empty : Term
  of_one : ℕ → Term → Term
  of_two : ℕ → Term → ℕ → Term → Term
  of_page : List ℕ → ℕ → Term

Term-discrete : Discrete Term
Term-discrete = hlevel ℕ_discrete

abbrev term : Message Term → Term
term empty = of_empty
term (one k d) = of_one k d
term (two i d j e) = of_two i d j e
term (page bytes counter) = of_page bytes counter

term_free : (m n : Message Term) → term m ≡ term n → m ≡ n
term_free empty empty e = refl
term_free empty (one _ _) e = cc
term_free empty (two _ _ _ _) e = cc
term_free empty (page _ _) e = cc
term_free (one _ _) empty e = cc
term_free (one _ _) (one _ _) e = cc
term_free (one _ _) (two _ _ _ _) e = cc
term_free (one _ _) (page _ _) e = cc
term_free (two _ _ _ _) empty e = cc
term_free (two _ _ _ _) (one _ _) e = cc
term_free (two _ _ _ _) (two _ _ _ _) e = cc
term_free (two _ _ _ _) (page _ _) e = cc
term_free (page _ _) empty e = cc
term_free (page _ _) (one _ _) e = cc
term_free (page _ _) (two _ _ _ _) e = cc
term_free (page _ _) (page _ _) e = cc

same_terms : Term → Term → Bool
same_terms a b = elim (Term-discrete a b) [ yes _ ↦ true | no _ ↦ false ]

same_terms_iff : (a b : Term) → (same_terms a b ≡ true) ↔ (a ≡ b)
unfolding same_terms
same_terms_iff a b = ground arith

abbrev sha : Sha256 Term
sha = record { sha256 = term; same = same_terms; same_iff = same_terms_iff }

-- The memory that has the nodes of a tree
place : Tree Term → (ℕ → Node Term) → ℕ → Node Term
place (tip a k d) m = write m a (node_of sha (tip a k d))
place (fork a k l r) m = write (place l (place r m)) a (node_of sha (fork a k l r))

abbrev Separate : Tree Term → Type 0
Separate (tip a k d) = a ≢ 0
Separate (fork a k l r) = (a ≢ 0) × Apart a l × Apart a r × Disjoint l r × Separate l × Separate r

place-Apart : (x : ℕ) (t : Tree Term) (m : ℕ → Node Term) → Apart x t → place t m x ≡ m x
unfolding place
place-Apart x (tip a k d) m n = write_other m a x _ n
place-Apart x (fork a k l r) m n =
    write_other (place l (place r m)) a x _ n.0
    ∙ place-Apart x l (place r m) n.1
    ∙ place-Apart x r m n.2

place-Holds : (t : Tree Term) (m : ℕ → Node Term) → Separate t → Holds sha (place t m) t
unfolding place
place-Holds (tip a k d) m n = (n, write_self m a _)
place-Holds (fork a k l r) m (z, al, ar, lr, sl, sr) =
    let n = node_of sha (fork a k l r) in
    let low = place l (place r m) in
    (
      z,
      write_self low a n,
      al,
      ar,
      lr,
      Holds-same sha low _ l (λ x o. write_other low a x n (On-ne x a l o al))
          (place-Holds l (place r m) sl),
      Holds-same sha (place r m) _ r
          (λ x o.
            write_other low a x n (On-ne x a r o ar)
            ∙ place-Apart x l (place r m) (Disjoint-right x l r lr o))
          (place-Holds r m sr),
    )

abbrev hashed : ℕ → Term
hashed n = of_page (n ∷ []) 1

abbrev blank : Node Term
blank = record { ptr = 0; hash = of_empty; left = 0; right = 0 }

abbrev root_at : ℕ
root_at = 100

-- One page for nodes, its slots 8 and above free
abbrev pool : Pool
pool = record {
  region = 0x1000;
  region_size = 0x10_0000;
  inc_by = 0x3000;
  next_offset = 0x3000;
  merk_free_list = 0x1000;
  lists = λ a. record { free = 2 ^ 64 - 2 ^ 8; free_count = 56; in_freelist = true; next = 0 };
}

abbrev first_slot : ℕ
first_slot = 0x1200

abbrev next_slot : ℕ
next_slot = 0x1240

gives_first_slot : (rest : Pool) × (merk_alloc_node pool ≡ ret (first_slot, rest))
unfolding merk_alloc_node
gives_first_slot = (_, refl)

-- Two pages of the backing storage
abbrev back : ℕ
back = 0x5000

abbrev back_other : ℕ
back_other = 0x6000

abbrev pair : Tree Term
pair = fork 0x1040 back_other (tip 0x1080 back (hashed 4)) (tip 0x10c0 back_other (hashed 9))

abbrev kept : Tree Term → ℕ → Node Term
kept t = write (place t (λ _. blank)) root_at (root_of sha t)

kept-Keeps : (t : Tree Term) → Separate t → Apart root_at t → Keeps sha (kept t) root_at (some t)
kept-Keeps t n a = (
  a,
  write_self (place t (λ _. blank)) root_at _,
  Holds-same sha _ _ t
      (λ x o. write_other (place t (λ _. blank)) root_at x _ (On-ne x root_at t o a))
      (place-Holds t (λ _. blank) n),
)

pair-takes_back :
    (x : ℕ) → On x pair → (freed : Pool) × (merk_free_node gives_first_slot.0 x ≡ ret freed)
unfolding merk_free_node merk_alloc_node gives_first_slot
pair-takes_back x (inl o) =
    subst (λ y. (f : Pool) × (merk_free_node gives_first_slot.0 y ≡ ret f)) (sym o) (_, refl)
pair-takes_back x (inr (inl o)) =
    subst (λ y. (f : Pool) × (merk_free_node gives_first_slot.0 y ≡ ret f)) (sym o) (_, refl)
pair-takes_back x (inr (inr o)) =
    subst (λ y. (f : Pool) × (merk_free_node gives_first_slot.0 y ≡ ret f)) (sym o) (_, refl)

pair-Room :
    Room sha (record { nodes = kept pair; pool = pool }) root_at (some pair) first_slot next_slot
unfolding merk_alloc_node gives_first_slot
pair-Room = record {
  first = gives_first_slot.0;
  second = _;
  gives_first = gives_first_slot.1;
  gives_second = refl;
  not_null = omega arith;
  not_root = omega arith;
  unused = omega arith;
  takes_back = pair-takes_back;
}

merk_insert-merk_verify_example :
    (u : Merk Term) × (t : Tree Term) × (merk_insert sha
        (record { nodes = kept pair; pool = pool })
        root_at
        3
        (hashed 3)
      ≡ ret (done, u))
    × Keeps sha u.nodes root_at (some t)
    × (depth t ≤ 2)
    × (merk_verify sha 4 (λ _. u.nodes) blank (u.nodes root_at) back_other (hashed 5)
        ≡ some (same_terms (hashed 5) (hashed 9)))
merk_insert-merk_verify_example =
    merk_insert-merk_verify sha (record { nodes = kept pair; pool = pool }) root_at 3 first_slot
      next_slot (hashed 3) (some pair) 4 back_other blank (hashed 5) (hashed 9)
      (kept-Keeps pair (omega arith) (omega arith)) (omega arith) pair-Room (omega arith) refl

-- The left child of the tree's top is another node when it is read the second time.
abbrev racing : ℕ → ℕ → Node Term
racing n = if ltb n 3 then kept pair else write (kept pair) 0x1080 blank

merk_verify_tampered_example :
    Honest (hashed 4) (hashed 4) (merk_verify sha 4 racing blank (root_of sha pair) back (hashed 4))
merk_verify_tampered_example =
    merk_verify_tampered sha term_free 4 racing blank (root_of sha pair) pair back (4 ∷ []) 1
      (hashed 4) ((4 ∷ [], 1, refl), (9 ∷ [], 1, refl)) refl (omega arith) refl

-- A tree with a fork for each step on the way to key 0, its nodes from `b` on
deep : ℕ → ℕ → Tree Term
deep zero b = tip b 1 (hashed 1)
deep (suc n) b = fork b (n + 2) (deep n (b + 2)) (tip (b + 1) (n + 2) (hashed n))

deep-Apart : (n b x : ℕ) → x < b → Apart x (deep n b)
unfolding deep
deep-Apart zero b x lt = omega arith
deep-Apart (suc n) b x lt = (omega arith, deep-Apart n (b + 2) x (omega arith), omega arith)

deep-Disjoint : (n b x k : ℕ) (d : Term) → x < b → Disjoint (deep n b) (tip x k d)
unfolding deep
deep-Disjoint zero b x k d lt = omega arith
deep-Disjoint (suc n) b x k d lt =
    (omega arith, deep-Disjoint n (b + 2) x k d (omega arith), omega arith)

deep-Separate : (n b : ℕ) → 0 < b → Separate (deep n b)
unfolding deep
deep-Separate zero b lt = omega arith
deep-Separate (suc n) b lt = (
  omega arith,
  deep-Apart n (b + 2) b (omega arith),
  omega arith,
  deep-Disjoint n (b + 2) (b + 1) _ _ (omega arith),
  deep-Separate n (b + 2) (omega arith),
  omega arith,
)

levels-deep : (n b : ℕ) → levels 0 (deep n b) ≡ n
unfolding deep
levels-deep zero b = refl
levels-deep (suc n) b = ground (arith, levels-deep n (b + 2))

merk_insert_lost_example :
    (u : Merk Term) × (merk_insert sha
        (record { nodes = kept (deep 31 5000); pool = pool })
        root_at
        0
        (hashed 0)
      ≡ ret (done, u))
    × (u.nodes root_at ≡ kept (deep 31 5000) root_at)
    × Keeps sha u.nodes root_at (some (deep 31 5000))
merk_insert_lost_example =
    merk_insert_lost sha (record { nodes = kept (deep 31 5000); pool = pool }) root_at 0 first_slot
      (hashed 0) (deep 31 5000) gives_first_slot.0
      (kept-Keeps (deep 31 5000) (deep-Separate 31 5000 (omega arith))
        (deep-Apart 31 5000 root_at (omega arith)))
      (omega (arith, levels-deep 31 5000)) gives_first_slot.1 (omega arith) (omega arith)
      (deep-Apart 31 5000 first_slot (omega arith))

-- A cipher that adds the counter to each word
abbrev added_to : ℕ → List ℕ → List ℕ
added_to n [] = []
added_to n (x ∷ xs) = (x + n) ∷ added_to n xs

abbrev taken_from : ℕ → List ℕ → List ℕ
taken_from n [] = []
taken_from n (x ∷ xs) = (x - n) ∷ taken_from n xs

taken_from-added_to : (n : ℕ) (xs : List ℕ) → taken_from n (added_to n xs) ≡ xs
taken_from-added_to n [] = refl
taken_from-added_to n (x ∷ xs) = ground (arith, taken_from-added_to n xs)

abbrev adding : Aes
adding = record { encrypt = λ k n x. added_to n x; decrypt = λ k n x. taken_from n x }

-- Two pages are stored, with counters that are 1.
abbrev epm : ℕ
epm = load_start + 0x1000

abbrev swap_state : Swap Term
swap_state = record {
  merk = record { nodes = kept pair; pool = pool };
  root = root_at;
  pages = λ a.
      if a == back
      then 5 ∷ []
      else if a == back_other
      then 10 ∷ []
      else if a == epm
      then 7 ∷ []
      else [];
  ctr_indirect_ptrs = λ i. 0x3000;
  counters = λ a. 1;
  boot_key = some (8 ∷ []);
  epm_end = load_start + 0x10_0000;
}

swap_state-Ready : Ready sha adding swap_state (some pair) (8 ∷ []) back epm first_slot next_slot
swap_state-Ready = record {
  keeps = kept-Keeps pair (omega arith) (omega arith);
  shallow = omega arith;
  room = pair-Room;
  key_set = refl;
  epm_in = refl;
  back_in = refl;
  few = refl;
  has_counter = refl;
  not_null = omega arith;
  apart = omega arith;
}

page_swap_in_example :
    (u : Swap Term) × (t : Tree Term) × (page_swap_epm sha adding []
        (λ a. 0)
        blank
        4
        swap_state
        back
        epm
        back
      ≡ ret u)
    × (u.pages epm ≡ (4 ∷ []))
    × Keeps sha u.merk.nodes u.root (some t)
    × (height (some t) ≡ height (some pair))
    × Stored sha adding u (some t) (8 ∷ []) back (7 ∷ [])
    × AllStored sha adding u (some t) (8 ∷ []) ((back_other, 9 ∷ []) ∷ [])
page_swap_in_example =
    page_swap_in sha adding [] (λ a. 0) blank 4 swap_state (some pair) (8 ∷ []) back epm first_slot
      next_slot (4 ∷ []) ((back_other, 9 ∷ []) ∷ []) (λ k n x. taken_from-added_to n x)
      swap_state-Ready (omega arith) (record { cipher = refl; in_tree = refl })
      ((omega arith, omega arith, omega arith), tt) (record { cipher = refl; in_tree = refl }, tt)
