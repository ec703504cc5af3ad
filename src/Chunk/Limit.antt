-- ===== src/Chunk/Limit.antt =====
-- The memory limits of src/main/chunk.c: `li_cqlimit_*`, `cqlimit_update`. A failed
-- LI_FORCE_ASSERT is `none`.
pub mod Locks
use Prim.Native.Nat.{compare, Ordering}
use lighttpd.Prelude.{
  ◌>>=◌, ℕ, ◌+◌, ◌-◌, ◌≤◌, ◌≡◌, Bool, true, false, not, ◌&&◌, ◌||◌, Option, none, some, List, [],
  ◌∷◌, ltb, ◌==◌, if◌then◌else◌,
}
use lighttpd.Prelude.Int.{ℤ, pos, negsuc, neg, leb_zero, ltb_ℤ, add_ℤ}
use lighttpd.Chunk.Defs.{Body, in_memory, body_mem, CqLimit, ChunkQueue, Limits}

-- `li_cqlimit_new`
abbrev pub cqlimit_new : CqLimit
cqlimit_new = record {
  limit = negsuc 0;
  current = 0;
  locked = false;
  reading = none;
  notify = false;
  notified = [];
}

cqlimit_notify : Bool → CqLimit → CqLimit
cqlimit_notify b c = if c.notify then record c { notified = b ∷ c.notified } else c

-- `li_event_io_rem_events` and `li_event_io_add_events` on LI_EV_READ
abbrev pub watch : Bool → Option Bool → Option Bool
watch b none = none
watch b (some _) = some b

pub cqlimit_lock : CqLimit → CqLimit
unfolding cqlimit_notify
cqlimit_lock c = cqlimit_notify true (record c { locked = true; reading = watch false c.reading })

pub cqlimit_unlock : CqLimit → CqLimit
unfolding cqlimit_notify
cqlimit_unlock c =
    cqlimit_notify false (record c { locked = false; reading = watch true c.reading })

-- The tests at the end of `cqlimit_update` and of `li_cqlimit_set_limit`.
unfoldable pub cqlimit_check : CqLimit → CqLimit
unfolding cqlimit_lock cqlimit_unlock
cqlimit_check c =
    if c.locked
    then (if leb_zero c.limit || ltb_ℤ c.current c.limit then cqlimit_unlock c else c)
    else (if not (leb_zero c.limit) && not (ltb_ℤ c.current c.limit) then cqlimit_lock c else c)

unfoldable pub cqlimit_set_limit : CqLimit → ℤ → CqLimit
unfolding cqlimit_check
cqlimit_set_limit c l = cqlimit_check (record c { limit = l })

-- `cql->current += d` and the tests
unfoldable pub cqlimit_add : CqLimit → ℤ → Option CqLimit
unfolding cqlimit_check
cqlimit_add c d = do
  current ← add_ℤ c.current d
  some (cqlimit_check (record c { current = current }))

abbrev pub set_cqlimit : Limits → ℕ → CqLimit → Limits
set_cqlimit lims i c j = if i == j then c else lims j

unfoldable pub limits_add : Limits → Option ℕ → ℤ → Option Limits
unfolding cqlimit_add
limits_add lims none d = some lims
limits_add lims (some i) d = do c ← cqlimit_add (lims i) d; some (set_cqlimit lims i c)

unfoldable pub cqlimit_update : Limits → ChunkQueue → ℤ → Option (Limits × ChunkQueue)
unfolding limits_add
cqlimit_update lims cq d = do
  usage ← add_ℤ cq.mem_usage d
  lims' ← limits_add lims cq.limit d
  some (lims', record cq { mem_usage = usage })

-- `cqlimit_update` by the type of a chunk that comes or goes; for a file nothing is called.
unfoldable pub charge : Limits → ChunkQueue → Body → Option (Limits × ChunkQueue)
charge lims cq b =
    if in_memory b then cqlimit_update lims cq (pos (body_mem b)) else some (lims, cq)

unfoldable pub release : Limits → ChunkQueue → Body → Option (Limits × ChunkQueue)
release lims cq b =
    if in_memory b then cqlimit_update lims cq (neg (body_mem b)) else some (lims, cq)

-- `li_cqlimit_reset`
unfoldable pub cqlimit_reset : CqLimit → Option CqLimit
cqlimit_reset c = elim c.reading [
  | none ↦ if (c.current == 0) && not c.notify then some (record c { limit = negsuc 0 }) else none
  | some _ ↦ none
]
