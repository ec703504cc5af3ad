-- ===== src/Throttle/Gint.antt =====
-- `gint` and `guint` of 32 bits. A signed number z stands as z + 2 ^ 31, so that the order of signed
-- numbers is the order of ℕ; an unsigned number stands as itself.
use lighttpd.Prelude.{ℕ, ◌+◌, ◌-◌, ◌%◌}

-- 0
abbrev pub gint_zero : ℕ
gint_zero = 2147483648

-- A `guint` as a `gint`, and back
abbrev pub gint_of : ℕ → ℕ
gint_of n = (n + 2147483648) % 4294967296

abbrev pub guint_of : ℕ → ℕ
guint_of z = (z + 2147483648) % 4294967296

abbrev pub add_gint : ℕ → ℕ → ℕ
add_gint y z = (y + z + 2147483648) % 4294967296

abbrev pub sub_gint : ℕ → ℕ → ℕ
sub_gint y z = (y + 4294967296 - z + 2147483648) % 4294967296

-- `a - b` of unsigned numbers
abbrev pub sub_guint : ℕ → ℕ → ℕ
sub_guint a b = (a + 4294967296 - b) % 4294967296
