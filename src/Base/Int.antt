-- ===== src/Base/Int.antt =====
-- Python's unbounded integers, where a value of the program may be negative.
use Prim.Native.Nat.{ℕ, zero, suc, ◌+◌, ◌*◌, ◌/◌, max}
use bedrock_gateway_platform.Base.{◌≡◌, ◌≢◌, arith, Bool, true, ltb}

-- `negsuc n` is -(n + 1).
pub data ℤ : Type 0 where
  pos : ℕ → ℤ
  negsuc : ℕ → ℤ

-- max(x, 0)
abbrev pub max_zero : ℤ → ℕ
max_zero (pos n) = n
max_zero (negsuc n) = 0

-- x + 1
abbrev pub plus_one : ℤ → ℤ
plus_one (pos n) = pos (n + 1)
plus_one (negsuc zero) = pos 0
plus_one (negsuc (suc n)) = negsuc n

pub plus_one_ne : (x : ℤ) → plus_one x ≢ x
plus_one_ne (pos n) h = let same : n + 1 ≡ n = cc h in absurd (omega (arith, same))
plus_one_ne (negsuc zero) h = cc h
plus_one_ne (negsuc (suc n)) h = let same : n ≡ suc n = cc h in absurd (omega (arith, same))

-- 100 * x; -(n + 1) * 100 is -(100 * n + 99 + 1).
abbrev pub times_hundred : ℤ → ℤ
times_hundred (pos n) = pos (100 * n)
times_hundred (negsuc n) = negsuc (100 * n + 99)

-- x > t
abbrev pub exceeds : ℕ → ℤ → Bool
exceeds x (pos t) = ltb t x
exceeds x (negsuc t) = true

-- x // d for a positive d; the quotient is rounded down.
abbrev pub floor_div : ℤ → ℕ → ℤ
floor_div (pos n) d = pos (n / d)
floor_div (negsuc n) d = negsuc (n / d)

-- max(1, x)
abbrev pub max_one : ℤ → ℤ
max_one (pos n) = pos (max 1 n)
max_one (negsuc n) = pos 1
