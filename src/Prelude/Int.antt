-- ===== src/Prelude/Int.antt =====
-- Signed file offsets (`goffset`) over the native numbers. `negsuc n` is -(n + 1).
use lighttpd.Prelude.{
  ℕ, zero, suc, ◌+◌, ◌-◌, Bool, true, false, Option, none, some, ltb, leb, if◌then◌else◌,
}

pub data ℤ : Type 0 where
  pos : ℕ → ℤ
  negsuc : ℕ → ℤ

abbrev pub neg : ℕ → ℤ
neg zero = pos 0
neg (suc n) = negsuc n

-- `z <= 0`
abbrev pub leb_zero : ℤ → Bool
leb_zero (pos zero) = true
leb_zero (pos (suc n)) = false
leb_zero (negsuc n) = true

-- `n < z` for a nonnegative n
abbrev pub ltb_ℤ : ℕ → ℤ → Bool
ltb_ℤ n (pos k) = ltb n k
ltb_ℤ n (negsuc k) = false

-- `n + d` where it is not negative.
abbrev pub add_ℤ : ℕ → ℤ → Option ℕ
add_ℤ n (pos d) = some (n + d)
add_ℤ n (negsuc d) = if leb (suc d) n then some (n - suc d) else none
