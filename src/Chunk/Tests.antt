-- ===== src/Chunk/Tests.antt =====
-- Two queues with data in memory and in a file, under two limits of which one is reached.
use lighttpd.Prelude.{ℕ, zero, suc, ◌≡◌, refl, true, false, none, some, List, [], ◌∷◌, Bytes, arith}
use lighttpd.Prelude.Int.{pos, negsuc}
use lighttpd.Chunk.Defs.{string_chunk, mem_chunk, file_chunk, Chunk, CqLimit, ChunkQueue, Limits}
use lighttpd.Chunk.Limit.Locks.{IsLocked}
use lighttpd.Chunk.Account.{IsQueue}
use lighttpd.Chunk.World.{share-zero, IsWorld, IsWorld-swap, shares}
use lighttpd.Chunk.Queue.{
  use_limit, append_string, append_bytearr, append_buffer, append_buffer2, append_mem, append_file,
  reset, skip_all, skip, limit_available, set_limit,
}
use lighttpd.Chunk.Queue.Skip.{HasSkipped, skip-HasSkipped, reset-IsWorld}
use lighttpd.Chunk.Queue.Space.{set_limit-IsWorld}
use lighttpd.Chunk.Steal.{steal_len, steal_all, steal_chunk}
use lighttpd.Chunk.Steal.Laws.{HasMoved, steal_len-HasMoved}
use lighttpd.Chunk.Steal.All.{steal_all-HasMoved, steal_chunk_unaccounted}

abbrev hello : Bytes
hello = b'h' ∷ b'e' ∷ b'l' ∷ b'l' ∷ b'o' ∷ []

abbrev full_limit : CqLimit
full_limit = record {
  limit = pos 5;
  current = 5;
  locked = true;
  reading = some false;
  notify = true;
  notified = true ∷ [];
}

abbrev wide_limit : CqLimit
wide_limit = record {
  limit = pos 9;
  current = 2;
  locked = false;
  reading = some true;
  notify = true;
  notified = [];
}

abbrev no_limit : CqLimit
no_limit = record {
  limit = negsuc 0;
  current = 0;
  locked = false;
  reading = none;
  notify = false;
  notified = [];
}

abbrev limits : Limits
limits zero = full_limit
limits (suc zero) = wide_limit
limits (suc (suc _)) = no_limit

abbrev first_chunk : Chunk
first_chunk = record { offset = 1; body = string_chunk hello }

abbrev last_chunks : List Chunk
last_chunks = record { offset = 0; body = file_chunk 7 100 10 } ∷ []

abbrev source : ChunkQueue
source = record {
  is_closed = false;
  bytes_in = 15;
  bytes_out = 1;
  size = 14;
  mem_usage = 5;
  limit = some 0;
  queue = first_chunk ∷ last_chunks;
}

abbrev sink : ChunkQueue
sink = record {
  is_closed = false;
  bytes_in = 2;
  bytes_out = 0;
  size = 2;
  mem_usage = 2;
  limit = some 1;
  queue = record { offset = 0; body = mem_chunk (b'a' ∷ b'b' ∷ []) } ∷ [];
}

-- an empty queue under the limit of `source`
abbrev neighbour : ChunkQueue
neighbour = record {
  is_closed = false;
  bytes_in = 0;
  bytes_out = 0;
  size = 0;
  mem_usage = 0;
  limit = some 0;
  queue = [];
}

source-IsQueue : IsQueue source
source-IsQueue = record {
  chunks = (omega arith, (omega arith, omega arith));
  size_is = refl;
  mem_is = refl;
  flow = refl;
}

sink-IsQueue : IsQueue sink
sink-IsQueue = record {
  chunks = (omega arith, omega arith);
  size_is = refl;
  mem_is = refl;
  flow = refl;
}

neighbour-IsQueue : IsQueue neighbour
neighbour-IsQueue = record { chunks = omega arith; size_is = refl; mem_is = refl; flow = refl }

counts : (i : ℕ) → (limits i).current ≡ shares i (sink ∷ source ∷ neighbour ∷ [])
counts zero = refl
counts (suc zero) = refl
counts (suc (suc i)) = ground arith

limits-IsLocked : (i : ℕ) → IsLocked (limits i)
limits-IsLocked zero = refl
limits-IsLocked (suc zero) = refl
limits-IsLocked (suc (suc i)) = refl

world : IsWorld limits (sink ∷ source ∷ neighbour ∷ [])
world = record { counted = counts; locks = limits-IsLocked }

from_source : IsWorld limits (source ∷ sink ∷ neighbour ∷ [])
from_source = IsWorld-swap sink source (neighbour ∷ []) world

from_neighbour : IsWorld limits (neighbour ∷ source ∷ sink ∷ [])
from_neighbour = record { counted = λ i. omega (arith, counts i); locks = limits-IsLocked }

steal_len-HasMoved_example :
    HasMoved sink source 6 (neighbour ∷ []) (steal_len limits sink source 6)
steal_len-HasMoved_example =
    steal_len-HasMoved limits sink source 6 (neighbour ∷ []) sink-IsQueue source-IsQueue world

steal_all-HasMoved_example : HasMoved sink source 14 (neighbour ∷ []) (steal_all limits sink source)
steal_all-HasMoved_example =
    steal_all-HasMoved limits sink source (neighbour ∷ []) sink-IsQueue source-IsQueue world

steal_chunk_unaccounted_example :
    (out' inq' : ChunkQueue) × (steal_chunk limits neighbour source ≡ some (limits, out', inq', 4))
    × (skip_all limits out' ≡ none)
    × ¬ IsQueue inq'
unfolding lighttpd.Chunk.Queue.same_limit
steal_chunk_unaccounted_example =
    steal_chunk_unaccounted limits neighbour source (sink ∷ []) neighbour-IsQueue source-IsQueue
      from_neighbour first_chunk last_chunks refl refl refl (omega arith)

skip-HasSkipped_example : HasSkipped source 6 (sink ∷ neighbour ∷ []) (skip limits source 6)
skip-HasSkipped_example =
    skip-HasSkipped limits source (sink ∷ neighbour ∷ []) source-IsQueue from_source 6

abbrev source_cleared : ChunkQueue
source_cleared = record {
  is_closed = false;
  bytes_in = 0;
  bytes_out = 0;
  size = 0;
  mem_usage = 0;
  limit = some 0;
  queue = [];
}

reset-IsWorld_example :
    (lims' : Limits) × (reset limits source ≡ some (lims', source_cleared))
    × IsWorld lims' (source_cleared ∷ sink ∷ neighbour ∷ [])
reset-IsWorld_example =
    reset-IsWorld limits source (sink ∷ neighbour ∷ []) source-IsQueue from_source

set_limit-IsWorld_example :
    (lims' : Limits) × (set_limit limits source (some 1)
      ≡ some (lims', record source { limit = some 1 }))
    × IsWorld lims' (record source { limit = some 1 } ∷ sink ∷ neighbour ∷ [])
set_limit-IsWorld_example =
    set_limit-IsWorld limits source (some 1) (sink ∷ neighbour ∷ []) from_source

abbrev unlimited : ChunkQueue
unlimited = record neighbour { limit = none }

abbrev loose : ChunkQueue
loose = record source { limit = none }

from_unlimited : IsWorld limits (unlimited ∷ source ∷ sink ∷ [])
from_unlimited = record {
  counted = λ i. omega (arith, from_neighbour.counted i, share-zero i (some 0));
  locks = limits-IsLocked;
}

unlimited_empty : unlimited.limit ≡ none → unlimited.mem_usage ≡ 0
unlimited_empty e = refl
