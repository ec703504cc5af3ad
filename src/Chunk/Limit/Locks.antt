-- ===== src/Chunk/Limit/Locks.antt =====
-- When a memory limit is locked, and what its owner is told.
use lighttpd.Prelude.{ℕ, ◌≡◌, Bool, not, ◌&&◌, some, ◌⊎◌, ◌∷◌, arith, if◌then◌else◌}
use lighttpd.Prelude.Int.{ℤ, leb_zero, ltb_ℤ, add_ℤ}
use lighttpd.Chunk.Defs.{CqLimit}
use lighttpd.Chunk.Limit.{cqlimit_check, cqlimit_set_limit, cqlimit_add, watch}

-- A positive limit that the current use has reached.
abbrev pub exceeded : ℤ → ℕ → Bool
exceeded l n = not (leb_zero l) && not (ltb_ℤ n l)

abbrev pub IsLocked : CqLimit → Type 0
IsLocked c = c.locked ≡ exceeded c.limit c.current

-- The lock is turned: the watcher follows it, and the callback is told.
abbrev pub Turned : CqLimit → CqLimit → Type 0
Turned c d =
    (d.locked ≡ not c.locked)
    × (d.reading ≡ watch (not d.locked) c.reading)
    × (d.notified ≡ (if c.notify then d.locked ∷ c.notified else c.notified))

abbrev pub Kept : CqLimit → CqLimit → Type 0
Kept c d = (d.locked ≡ c.locked) × (d.reading ≡ c.reading) × (d.notified ≡ c.notified)

-- What the check leaves behind, whatever the state of the lock was before.
pub record IsChecked (c d : CqLimit) : Type 0 where
  pub lock_is : d.locked ≡ exceeded c.limit c.current
  pub limit_is : d.limit ≡ c.limit
  pub current_is : d.current ≡ c.current
  pub told : Kept c d ⊎ Turned c d

check_lock : (c : CqLimit) → (cqlimit_check c).locked ≡ exceeded c.limit c.current
unfolding cqlimit_check
check_lock c = ground arith

check_told : (c : CqLimit) → Kept c (cqlimit_check c) ⊎ Turned c (cqlimit_check c)
unfolding cqlimit_check
check_told c = ground arith

pub cqlimit_check-IsChecked : (c : CqLimit) → IsChecked c (cqlimit_check c)
unfolding cqlimit_check
cqlimit_check-IsChecked c = record {
  lock_is = check_lock c;
  limit_is = ground arith;
  current_is = ground arith;
  told = check_told c;
}

-- `li_cqlimit_set_limit` enforces a new limit at once: it is locked exactly if it is positive and
-- reached. The watcher and the callback hear of it exactly if the lock changes.
pub cqlimit_set_limit-IsChecked :
    (c : CqLimit) (l : ℤ) → IsChecked (record c { limit = l }) (cqlimit_set_limit c l)
unfolding cqlimit_set_limit
cqlimit_set_limit-IsChecked c l = cqlimit_check-IsChecked (record c { limit = l })

-- `current += d` of `cqlimit_update`, where the sum is not negative, fails no assertion: the limit is
-- locked exactly if it is positive and reached, and the watcher and the callback hear of it exactly
-- if the lock changes.
pub cqlimit_add-IsChecked :
    (c : CqLimit) (d : ℤ) {n : ℕ}
    → add_ℤ c.current d ≡ some n
    → (c' : CqLimit) × (cqlimit_add c d ≡ some c') × IsChecked (record c { current = n }) c'
unfolding cqlimit_add
cqlimit_add-IsChecked c d {n} e = (
  cqlimit_check (record c { current = n }),
  rw e,
  cqlimit_check-IsChecked (record c { current = n }),
)
