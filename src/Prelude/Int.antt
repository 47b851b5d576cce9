-- ===== src/Prelude/Int.antt =====
-- Go's signed integers: `negsuc n` is -(n + 1).
use Prim.Native.Nat.{ℕ, ◌+◌, ◌-◌, ◌*◌, ◌^◌, ◌%◌, ◌≤◌, ◌<◌}
use mathlib.Core.Path.{◌≡◌, ap₂, ◌∙◌}
use native.Mathlib.Omega.{arith}
use mathlib.Core.Bool.{Bool, true, false}
use native.Mathlib.Nat.{mod-eq_of_lt}
use xiaoya_qwen.Prelude.Tests.{ltb, ◌==◌, if◌then◌else◌}

pub data ℤ : Type 0 where
  pos : ℕ → ℤ
  negsuc : ℕ → ℤ

-- a < b and a == b on integers
abbrev pub int_lt : ℤ → ℤ → Bool
int_lt (pos a) (pos b) = ltb a b
int_lt (pos a) (negsuc b) = false
int_lt (negsuc a) (pos b) = true
int_lt (negsuc a) (negsuc b) = ltb b a

abbrev pub int_eq : ℤ → ℤ → Bool
int_eq (pos a) (pos b) = a == b
int_eq (pos a) (negsuc b) = false
int_eq (negsuc a) (pos b) = false
int_eq (negsuc a) (negsuc b) = a == b

-- The 64-bit integer whose bit pattern is `n % 2 ^ 64`.
unfoldable pub int64 : ℕ → ℤ
int64 n =
    let bits = n % 2 ^ 64 in if ltb bits (2 ^ 63) then pos bits else negsuc (2 ^ 64 - 1 - bits)

-- The bit pattern of a 64-bit integer, and the operations that wrap around.
unfoldable pub bits : ℤ → ℕ
bits (pos n) = n % 2 ^ 64
bits (negsuc n) = 2 ^ 64 - 1 - n % 2 ^ 64

unfoldable pub int_add : ℤ → ℤ → ℤ
unfolding int64 bits
int_add a b = int64 (bits a + bits b)

unfoldable pub int_sub : ℤ → ℤ → ℤ
unfolding int64 bits
int_sub a b = int64 (bits a + 2 ^ 64 - bits b)

unfoldable pub int_mul : ℤ → ℤ → ℤ
unfolding int64 bits
int_mul a b = int64 (bits a * bits b)

pub int64-mod : (n m : ℕ) → n % 2 ^ 64 ≡ m → m < 2 ^ 63 → int64 n ≡ pos m
unfolding int64
int64-mod n m e h = ground arith

pub int64-mod_negative : (n m : ℕ) → n % 2 ^ 64 ≡ m → 2 ^ 63 ≤ m → int64 n ≡ negsuc (2 ^ 64 - 1 - m)
unfolding int64
int64-mod_negative n m e h = ground arith

-- Where nothing wraps around, the operations are those of the numbers.
pub int_sub-pos : (a b : ℕ) → b ≤ a → a < 2 ^ 63 → int_sub (pos a) (pos b) ≡ pos (a - b)
unfolding int_sub
int_sub-pos a b h k =
    int64-mod (a % 2 ^ 64 + 2 ^ 64 - b % 2 ^ 64) (a - b) (omega arith) (omega arith)

pub int_add-pos : (a b : ℕ) → a + b < 2 ^ 63 → int_add (pos a) (pos b) ≡ pos (a + b)
unfolding int_add
int_add-pos a b h = int64-mod (a % 2 ^ 64 + b % 2 ^ 64) (a + b) (omega arith) (omega arith)

pub int_mul-pos :
    (a b : ℕ) → a < 2 ^ 63 → b < 2 ^ 63 → a * b < 2 ^ 63 → int_mul (pos a) (pos b) ≡ pos (a * b)
unfolding int_mul
int_mul-pos a b ha hb h =
    int64-mod ((a % 2 ^ 64) * (b % 2 ^ 64)) (a * b)
      (ap₂ (λ x y. (x * y) % 2 ^ 64) (mod-eq_of_lt {m = 2 ^ 64} (omega arith))
          (mod-eq_of_lt {m = 2 ^ 64} (omega arith))
        ∙ mod-eq_of_lt (omega arith))
      h
