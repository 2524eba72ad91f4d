-- ===== src/Rt/Calls/Bytes.antt =====
-- Bytes that are read and written.
use native.Mathlib.Nat.{pow-succ'}
use keystone_workspace.Base.{
  ℕ, zero, suc, ◌+◌, ◌/◌, ◌^◌, ◌≤◌, ◌<◌, ◌≡◌, ◌≢◌, ◌⊎◌, inl, inr, List, [], ◌∷◌, arith, refl, ◌∙◌,
  update, update_self, update_ne, length,
}
use keystone_workspace.Sm.Measure.{read, le_bytes}
use keystone_workspace.Sm.Attest.{write}
use keystone_workspace.Rt.Calls.{number}

pub length-read : (mem : ℕ → ℕ) (a n : ℕ) → length (read mem a n) ≡ n
unfolding read
length-read mem a zero = refl
length-read mem a (suc n) = omega (arith, length-read mem (a + 1) n)

-- The address is in front of the bytes, or behind them.
abbrev pub Outside : ℕ → ℕ → ℕ → Type 0
Outside x a n = (x < a) ⊎ (a + n ≤ x)

Outside-rest : (x a n : ℕ) → Outside x a (1 + n) → Outside x (a + 1) n
Outside-rest x a n (inl l) = inl (omega arith)
Outside-rest x a n (inr l) = inr (omega arith)

Outside-ne : (x a n : ℕ) → Outside x a (1 + n) → a ≢ x
Outside-ne x a n (inl l) = omega arith
Outside-ne x a n (inr l) = omega arith

pub Outside-fewer : (x a n m : ℕ) → m ≤ n → Outside x a n → Outside x a m
Outside-fewer x a n m le (inl l) = inl l
Outside-fewer x a n m le (inr l) = inr (omega arith)

pub write-Outside :
    (mem : ℕ → ℕ) (a : ℕ) (bytes : List ℕ) (x : ℕ)
    → Outside x a (length bytes)
    → write mem a bytes x ≡ mem x
unfolding write
write-Outside mem a [] x o = refl
write-Outside mem a (b ∷ bytes) x o =
    write-Outside (update mem a b) (a + 1) bytes x (Outside-rest x a (length bytes) o)
    ∙ update_ne mem a x b (Outside-ne x a (length bytes) o)

-- The two runs of bytes have no address in common.
abbrev pub Apart : ℕ → ℕ → ℕ → ℕ → Type 0
Apart c m a n = (c + m ≤ a) ⊎ (a + n ≤ c)

Apart-Outside : (c m a n : ℕ) → Apart c (suc m) a n → Outside c a n
Apart-Outside c m a n (inl l) = inl (omega arith)
Apart-Outside c m a n (inr l) = inr l

Apart-rest : (c m a n : ℕ) → Apart c (suc m) a n → Apart (c + 1) m a n
Apart-rest c m a n (inl l) = inl (omega arith)
Apart-rest c m a n (inr l) = inr (omega arith)

pub read-write-Apart :
    (mem : ℕ → ℕ) (a : ℕ) (bytes : List ℕ) (c m : ℕ)
    → Apart c m a (length bytes)
    → read (write mem a bytes) c m ≡ read mem c m
unfolding read
read-write-Apart mem a bytes c zero o = refl
read-write-Apart mem a bytes c (suc m) o =
    rw
      (
        write-Outside mem a bytes c (Apart-Outside c m a (length bytes) o),
        read-write-Apart mem a bytes (c + 1) m (Apart-rest c m a (length bytes) o),
      )
      refl

pub read-write :
    (mem : ℕ → ℕ) (a : ℕ) (bytes : List ℕ) (n : ℕ)
    → length bytes ≡ n
    → read (write mem a bytes) a n ≡ bytes
unfolding read write
read-write mem a [] zero e = refl
read-write mem a [] (suc n) e = absurd (omega (arith, e))
read-write mem a (b ∷ bytes) zero e = absurd (omega (arith, e))
read-write mem a (b ∷ bytes) (suc n) e =
    rw
      (
        write-Outside (update mem a b) (a + 1) bytes a (inl (omega arith)),
        update_self mem a b,
        read-write (update mem a b) (a + 1) bytes n (omega arith),
      )
      refl

pub length-le_bytes : (n v : ℕ) → length (le_bytes n v) ≡ n
unfolding le_bytes
length-le_bytes zero v = refl
length-le_bytes (suc n) v = omega (arith, length-le_bytes n (v / 256))

pub number-le_bytes : (n v : ℕ) → v < 256 ^ n → number (le_bytes n v) ≡ v
unfolding le_bytes
number-le_bytes zero v l = omega arith
number-le_bytes (suc n) v l =
    let i = number-le_bytes n (v / 256) (omega (arith, l, pow-succ' 256 n)) in rw i (omega arith)
