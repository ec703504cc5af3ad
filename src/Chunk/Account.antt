-- ===== src/Chunk/Account.antt =====
-- What the counters of a chunk queue have to agree with.
use lighttpd.Prelude.{
  ℕ, ◌+◌, ◌≡◌, refl, sym, append_assoc, List, [], ◌∷◌, ◌++◌, arith, length, length-append,
}
use lighttpd.Chunk.Defs.{Chunk, ChunkQueue, chunk_length, chunk_mem}
use lighttpd.Chunk.Content.{body_octets, octets, AreChunks, length-body_octets}

abbrev pub total : List Chunk → ℕ
total [] = 0
total (c ∷ cs) = chunk_length c + total cs

abbrev pub total_mem : List Chunk → ℕ
total_mem [] = 0
total_mem (c ∷ cs) = chunk_mem c + total_mem cs

pub total-append : (xs ys : List Chunk) → total (xs ++ ys) ≡ total xs + total ys
total-append [] ys = omega arith
total-append (c ∷ xs) ys = omega (arith, total-append xs ys)

pub total_mem-append : (xs ys : List Chunk) → total_mem (xs ++ ys) ≡ total_mem xs + total_mem ys
total_mem-append [] ys = omega arith
total_mem-append (c ∷ xs) ys = omega (arith, total_mem-append xs ys)

pub AreChunks-append : (xs ys : List Chunk) → AreChunks xs → AreChunks ys → AreChunks (xs ++ ys)
AreChunks-append [] ys h k = k
AreChunks-append (c ∷ xs) ys (h, t) k = (h, AreChunks-append xs ys t k)

pub octets-append : (xs ys : List Chunk) → octets (xs ++ ys) ≡ octets xs ++ octets ys
octets-append [] ys = refl
octets-append (c ∷ xs) ys =
    rw (octets-append xs ys)
      (sym (append_assoc (body_octets c.body c.offset) (octets xs) (octets ys)))

-- The lengths add up to the number of octets.
pub length-octets : (cs : List Chunk) → AreChunks cs → length (octets cs) ≡ total cs
length-octets [] h = refl
length-octets (c ∷ cs) (h, t) = omega (
  arith,
  length-append (body_octets c.body c.offset) (octets cs),
  length-body_octets c.body c.offset h,
  length-octets cs t,
)

-- The invariant of a queue: offsets in range, `length` and `mem_usage` exact, and every byte that
-- came in either still here or gone out.
pub record IsQueue (cq : ChunkQueue) : Type 0 where
  pub chunks : AreChunks cq.queue
  pub size_is : cq.size ≡ total cq.queue
  pub mem_is : cq.mem_usage ≡ total_mem cq.queue
  pub flow : cq.bytes_in ≡ cq.bytes_out + cq.size
