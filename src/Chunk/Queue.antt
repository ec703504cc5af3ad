-- ===== src/Chunk/Queue.antt =====
-- src/main/chunk.c: the operations of one chunk queue. `none` is a failed LI_FORCE_ASSERT.
pub mod Skip
pub mod Append
pub mod Space
pub mod Fresh
use lighttpd.Prelude.{
  ◌>>=◌, ℕ, zero, suc, ◌+◌, ◌-◌, ◌<◌, ◌≡◌, Bool, true, false, Option, none, some, List, [], ◌∷◌,
  ◌++◌, Bytes, length, leb, ltb, ◌==◌, if◌then◌else◌,
}
use lighttpd.Prelude.Int.{ℤ, pos, negsuc, neg, leb_zero, ltb_ℤ}
use lighttpd.Chunk.Defs.{
  Body, unused_chunk, string_chunk, mem_chunk, file_chunk, buffer_chunk, Chunk, CqLimit, ChunkQueue,
  Limits, chunk_length, chunk_mem, body_length, new_chunk,
}
use lighttpd.Chunk.Limit.{cqlimit_update, release, cqlimit_set_limit, cqlimit_new, set_cqlimit}

abbrev pub chunkqueue_new : ChunkQueue
chunkqueue_new = record {
  is_closed = false;
  bytes_in = 0;
  bytes_out = 0;
  size = 0;
  mem_usage = 0;
  limit = none;
  queue = [];
}

-- `g_queue_push_tail_link`, `length += n`, `bytes_in += n`
abbrev pub push_chunk : ChunkQueue → Body → ℕ → ChunkQueue
push_chunk cq b n = record cq {
  queue = cq.queue ++ (new_chunk b ∷ []);
  size = cq.size + n;
  bytes_in = cq.bytes_in + n;
}

unfoldable pub append_string : Limits → ChunkQueue → Bytes → Option (Limits × ChunkQueue)
append_string lims cq str =
    if length str == 0
    then some (lims, cq)
    else cqlimit_update lims (push_chunk cq (string_chunk str) (length str)) (pos (length str))

unfoldable pub append_bytearr : Limits → ChunkQueue → Bytes → Option (Limits × ChunkQueue)
append_bytearr lims cq mem =
    if length mem == 0
    then some (lims, cq)
    else cqlimit_update lims (push_chunk cq (mem_chunk mem) (length mem)) (pos (length mem))

-- The bytes are `buffer->addr` up to `buffer->used`.
unfoldable pub append_buffer : Limits → ChunkQueue → Bytes → Option (Limits × ChunkQueue)
append_buffer lims cq buffer =
    if length buffer == 0
    then some (lims, cq)
    else cqlimit_update lims (push_chunk cq (buffer_chunk buffer 0 (length buffer)) (length buffer))
        (pos (length buffer))

unfoldable pub append_buffer2 : Limits → ChunkQueue → Bytes → ℕ → ℕ → Option (Limits × ChunkQueue)
append_buffer2 lims cq buffer offset len =
    if len == 0
    then some (lims, cq)
    else if leb (offset + len) (length buffer)
    then cqlimit_update lims (push_chunk cq (buffer_chunk buffer offset len) len) (pos len)
    else none

-- `li_chunkqueue_append_mem`: the bytes are copied first.
unfoldable pub append_mem : Limits → ChunkQueue → Bytes → Option (Limits × ChunkQueue)
append_mem lims cq mem =
    if length mem == 0
    then some (lims, cq)
    else cqlimit_update lims (push_chunk cq (mem_chunk mem) (length mem)) (pos (length mem))

-- `li_chunkqueue_append_chunkfile`, `li_chunkqueue_append_file` and its variants
unfoldable pub append_file : ChunkQueue → ℕ → ℕ → ℕ → ChunkQueue
append_file cq file start len =
    if len == 0 then cq else push_chunk cq (file_chunk file start len) len

-- `__chunk_free` on every chunk
unfoldable pub free_chunks : Limits → ChunkQueue → List Chunk → Option (Limits × ChunkQueue)
free_chunks lims cq [] = some (lims, record cq { queue = [] })
free_chunks lims cq (c ∷ cs) = do (lims', cq') ← release lims cq c.body; free_chunks lims' cq' cs

unfoldable pub reset : Limits → ChunkQueue → Option (Limits × ChunkQueue)
unfolding free_chunks
reset lims cq = do
  (lims', cq') ←
      free_chunks lims (record cq { is_closed = false; bytes_in = 0; bytes_out = 0; size = 0 })
        cq.queue
  if cq'.mem_usage == 0 then some (lims', cq') else none

-- the counters of `cq`, once its chunks are free
abbrev pub all_out : ChunkQueue → Limits × ChunkQueue → Option (Limits × ChunkQueue × ℕ)
all_out cq (lims, cq') =
    some (lims, record cq' { bytes_out = cq'.bytes_out + cq.size; size = 0 }, cq.size)

unfoldable pub skip_all : Limits → ChunkQueue → Option (Limits × ChunkQueue × ℕ)
unfolding free_chunks
skip_all lims cq = free_chunks lims cq cq.queue >>= all_out cq

-- The loop of `li_chunkqueue_skip` over the chunks in the queue; the last result is `bytes`.
unfoldable pub skip_loop :
    Limits → ChunkQueue → List Chunk → ℕ → ℕ → Option (Limits × ChunkQueue × ℕ)
skip_loop lims cq [] len bytes = some (lims, record cq { queue = [] }, bytes)
skip_loop lims cq (c ∷ cs) len bytes =
    let drop_chunk = (do
      (lims', cq') ← release lims cq c.body
      skip_loop lims' cq' cs (len - chunk_length c) (bytes + chunk_length c)) in
    if leb (chunk_length c) len
    then drop_chunk
    else if len == 0
    then some (lims, record cq { queue = c ∷ cs }, bytes)
    else some (lims, record cq { queue = record c { offset = c.offset + len } ∷ cs }, bytes + len)

unfoldable pub skip : Limits → ChunkQueue → ℕ → Option (Limits × ChunkQueue × ℕ)
unfolding skip_loop
skip lims cq len = do
  (lims', cq', bytes) ← skip_loop lims cq cq.queue len 0
  some (lims', record cq' { bytes_out = cq'.bytes_out + bytes; size = cq'.size - bytes }, bytes)

-- the space left below a positive limit
unfoldable pub available : ℤ → ℕ → ℤ
available (pos l) current = pos (l - current)
available (negsuc l) current = pos 0

-- `li_chunkqueue_limit_available`: -1 for no limit, 0 for a full queue.
unfoldable pub limit_available : Limits → ChunkQueue → ℤ
unfolding available
limit_available lims cq = elim cq.limit [
  | none ↦ negsuc 0
  | some i ↦
      (if leb_zero (lims i).limit then negsuc 0 else available (lims i).limit (lims i).current)
]

-- `li_chunkqueue_use_limit`; `fresh` is the name of the limit that may be created.
unfoldable pub use_limit : Limits → ChunkQueue → ℕ → ℤ → Limits × ChunkQueue
use_limit lims cq fresh l = elim cq.limit [
  | none ↦
      (set_cqlimit lims fresh (cqlimit_set_limit cqlimit_new l), record cq { limit = some fresh })
  | some i ↦ (set_cqlimit lims i (cqlimit_set_limit (lims i) l), cq)
]

unfoldable pub same_limit : Option ℕ → Option ℕ → Bool
same_limit none none = true
same_limit (some i) (some j) = i == j
same_limit _ _ = false

-- `li_chunkqueue_set_limit`
unfoldable pub set_limit : Limits → ChunkQueue → Option ℕ → Option (Limits × ChunkQueue)
unfolding same_limit
set_limit lims cq cql = if same_limit cql cq.limit then some (lims, cq) else (do
  (lims', cq') ← cqlimit_update lims cq (neg cq.mem_usage)
  cqlimit_update lims' (record cq' { limit = cql }) (pos cq.mem_usage))
