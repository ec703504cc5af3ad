-- ===== src/Chunk/Defs.antt =====
-- src/main/chunk.c and include/lighttpd/chunk.h: the data of chunks and chunk queues.
-- A chunk file or a limit is named by a number; the open file, its memory map and the
-- reference counts are not part of the state.
use lighttpd.Prelude.{ℕ, ◌-◌, Bool, true, false, Option, List, Bytes, length}
use lighttpd.Prelude.Int.{ℤ}

-- `type` with the members of the union that belong to it.
pub data Body : Type 0 where
  unused_chunk : Body
  string_chunk : Bytes → Body
  mem_chunk : Bytes → Body
  -- file, start, length
  file_chunk : ℕ → ℕ → ℕ → Body
  -- the used part of the buffer, offset, length
  buffer_chunk : Bytes → ℕ → ℕ → Body

pub record Chunk : Type 0 where
  pub offset : ℕ
  pub body : Body

-- `liCQLimit`. `reading` is whether the watcher, if any, waits for LI_EV_READ; `notified`
-- has the calls of the callback, newest first.
pub record CqLimit : Type 0 where
  pub limit : ℤ
  pub current : ℕ
  pub locked : Bool
  pub reading : Option Bool
  pub notify : Bool
  pub notified : List Bool

pub record ChunkQueue : Type 0 where
  pub is_closed : Bool
  pub bytes_in : ℕ
  pub bytes_out : ℕ
  pub size : ℕ
  pub mem_usage : ℕ
  pub limit : Option ℕ
  pub queue : List Chunk

-- The limits that exist, by name; queues share them.
abbrev pub Limits : Type 0
Limits = ℕ → CqLimit

abbrev pub body_length : Body → ℕ → ℕ
body_length unused_chunk offset = 0
body_length (string_chunk str) offset = length str - offset
body_length (mem_chunk mem) offset = length mem - offset
body_length (file_chunk file start len) offset = len - offset
body_length (buffer_chunk buffer start len) offset = len - offset

-- `li_chunk_length`
abbrev pub chunk_length : Chunk → ℕ
chunk_length c = body_length c.body c.offset

-- The types of chunks of which the memory is counted.
abbrev pub in_memory : Body → Bool
in_memory unused_chunk = false
in_memory (string_chunk str) = true
in_memory (mem_chunk mem) = true
in_memory (file_chunk file start len) = false
in_memory (buffer_chunk buffer start len) = true

-- What a chunk adds to `mem_usage`, whatever part of it was sent.
abbrev pub body_mem : Body → ℕ
body_mem unused_chunk = 0
body_mem (string_chunk str) = length str
body_mem (mem_chunk mem) = length mem
body_mem (file_chunk file start len) = 0
body_mem (buffer_chunk buffer start len) = len

abbrev pub chunk_mem : Chunk → ℕ
chunk_mem c = body_mem c.body

-- `chunk_new` and the members set on it
abbrev pub new_chunk : Body → Chunk
new_chunk b = record { offset = 0; body = b }
