-- ===== src/Base/Lists.antt =====
-- Lists of addresses: their length over the native numbers, their last entry, and predicates that
-- compute on a given list.
use Prim.Native.Nat.{ℕ, ◌+◌}
use mathlib.Core.Path.{◌≡◌, sym}
use mathlib.Core.Logic.{◌≢◌}
use mathlib.Core.List.{List, [], ◌∷◌, ◌++◌}
use native.Mathlib.Omega.{arith}

abbrev pub length {ℓ} : {A : Type ℓ} → List A → ℕ
length [] = 0
length (x ∷ xs) = 1 + length xs

-- The last entry, of a list that has one.
abbrev pub last : ℕ → List ℕ → ℕ
last x [] = x
last x (y ∷ ys) = last y ys

abbrev pub All : (ℕ → Type 0) → List ℕ → Type 0
All P [] = Unit
All P (x ∷ xs) = P x × All P xs

abbrev pub NotIn : ℕ → List ℕ → Type 0
NotIn x [] = Unit
NotIn x (y ∷ ys) = (x ≢ y) × NotIn x ys

abbrev pub Distinct : List ℕ → Type 0
Distinct [] = Unit
Distinct (x ∷ xs) = NotIn x xs × Distinct xs

pub length_snoc : (xs : List ℕ) (x : ℕ) → length (xs ++ (x ∷ [])) ≡ length xs + 1
length_snoc [] x = ground arith
length_snoc (y ∷ ys) x = ground (arith, length_snoc ys x)

pub last_snoc : (x : ℕ) (xs : List ℕ) (y : ℕ) → last x (xs ++ (y ∷ [])) ≡ y
last_snoc x [] y = ground arith
last_snoc x (z ∷ zs) y = last_snoc z zs y

pub All-snoc : (P : ℕ → Type 0) (xs : List ℕ) (y : ℕ) → All P xs → P y → All P (xs ++ (y ∷ []))
All-snoc P [] y h p = (p, tt)
All-snoc P (x ∷ xs) y (a, h) p = (a, All-snoc P xs y h p)

pub NotIn-snoc : (x : ℕ) (xs : List ℕ) (y : ℕ) → NotIn x xs → x ≢ y → NotIn x (xs ++ (y ∷ []))
NotIn-snoc x [] y h n = (n, tt)
NotIn-snoc x (z ∷ zs) y (a, h) n = (a, NotIn-snoc x zs y h n)

pub Distinct-snoc : (xs : List ℕ) (y : ℕ) → Distinct xs → NotIn y xs → Distinct (xs ++ (y ∷ []))
Distinct-snoc [] y d n = (tt, tt)
Distinct-snoc (x ∷ xs) y (nx, d) (yx, n) =
    (NotIn-snoc x xs y nx (λ e. yx (sym e)), Distinct-snoc xs y d n)

pub All-last : (P : ℕ → Type 0) (x : ℕ) (xs : List ℕ) → All P (x ∷ xs) → P (last x xs)
All-last P x [] (p, h) = p
All-last P x (y ∷ ys) (p, h) = All-last P y ys h

pub NotIn-last : (x y : ℕ) (ys : List ℕ) → NotIn x (y ∷ ys) → x ≢ last y ys
NotIn-last x y [] (n, t) = n
NotIn-last x y (z ∷ zs) (n, t) = NotIn-last x z zs t
