-- ===== src/Headers/Defs.antt =====
-- main/http_headers.c: the headers of a request or a response. A link of the queue is its position,
-- and every header is shorter than 2^32 bytes, so that a `guint` holds the lengths.
use lighttpd.Prelude.{
  ℕ, zero, suc, ◌+◌, ◌-◌, Bool, true, false, ◌||◌, Option, none, some, List, [], ◌∷◌, ◌++◌, Bytes,
  length, get_elem?, set, take, ◌==◌, if◌then◌else◌,
}

-- `liHttpHeader`; `content` is the `data` of the source.
pub record Header : Type 0 where
  pub keylen : ℕ
  pub content : Bytes

-- The `entries` of `liHttpHeaders`
abbrev pub Headers : Type 0
Headers = List Header

-- `str[i]`
abbrev pub byte_at : Bytes → ℕ → ℕ
byte_at str i = elim (get_elem? str i) [ none ↦ 0 | some c ↦ c ]

-- '\r' or '\n'
abbrev pub is_eol : ℕ → Bool
is_eol c = (c == 13) || (c == 10)

-- ' ' or '\t'
abbrev pub is_blank : ℕ → Bool
is_blank c = (c == 32) || (c == 9)

-- The first loop of `_http_header_sanitize`, n bytes from the end
unfoldable pub find_eol : ℕ → Bytes → ℕ → Option ℕ
find_eol zero str i = none
find_eol (suc n) str i =
    let rest = find_eol n str (suc i) in if is_eol (byte_at str i) then some i else rest

-- The state of its second loop, which moves bytes to j
pub record Unfold : Type 0 where
  pub str : Bytes
  pub j : ℕ
  pub folding : Bool

-- `str[j++] = c`
abbrev pub store : ℕ → Unfold → Unfold
store c s = record s { str = set s.str s.j c; j = suc s.j }

-- The `switch` on the byte c
abbrev pub unfold_byte : ℕ → Unfold → Unfold
unfold_byte c s =
    if is_eol c
    then record s { folding = true }
    else if is_blank c
    then (if s.folding then s else store c s)
    else store c (if s.folding then record (store 32 s) { folding = false } else s)

-- The loop from i, n bytes from the end
unfoldable pub unfold_loop : ℕ → ℕ → Unfold → Unfold
unfold_loop zero i s = s
unfold_loop (suc n) i s = unfold_loop n (suc i) (unfold_byte (byte_at s.str i) s)

-- The content after the loops, where the first one has ended at i, if at all
unfoldable pub unfolded_content : Bytes → Option ℕ → Bytes
unfolding unfold_loop
unfolded_content str none = str
unfolded_content str (some i) =
    let s = unfold_loop (length str - i) i (record { str = str; j = i; folding = false }) in
    take s.j s.str

-- `_http_header_sanitize`
abbrev pub header_sanitize : Header → Header
header_sanitize h =
    let start = h.keylen + 2 in
    record h {
      content = unfolded_content h.content (find_eol (length h.content - start) h.content start);
    }

-- `_http_header_new`
unfoldable pub header_new : Bytes → Bytes → Header
unfolding unfolded_content find_eol
header_new key val =
    header_sanitize (record { keylen = length key; content = key ++ 58 ∷ 32 ∷ val })

-- `li_http_header_insert`
abbrev pub header_insert : Bytes → Bytes → Headers → Headers
header_insert key val headers = headers ++ (header_new key val ∷ [])
