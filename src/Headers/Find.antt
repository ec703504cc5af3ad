-- ===== src/Headers/Find.antt =====
-- main/http_headers.c: the operations on the queue of headers. `ncase_eq s1 s2 n` is whether
-- g_ascii_strncasecmp(s1, s2, n) is 0, `case_eq s1 s2` whether g_ascii_strcasecmp(s1, s2) is.
use lighttpd.Prelude.{
  ℕ, zero, suc, ◌+◌, ◌-◌, Bool, true, false, ◌&&◌, Option, none, some, [], ◌∷◌, ◌++◌, Bytes, length,
  get_elem?, set, take, drop, ◌==◌, if◌then◌else◌,
}
use lighttpd.Headers.Defs.{Header, Headers, header_insert}

-- The loops of the two forward searches, at the link i
unfoldable pub find_from : (Header → Bool) → Headers → ℕ → Option ℕ
find_from is_key [] i = none
find_from is_key (h ∷ hs) i =
    let rest = find_from is_key hs (suc i) in if is_key h then some i else rest

-- `l->data`
abbrev pub header_at : Headers → ℕ → Header
header_at hs l = elim (get_elem? hs l) [ none ↦ record { keylen = 0; content = [] } | some h ↦ h ]

-- `NULL == l ? NULL : l->data`
abbrev pub data_of : Headers → Option ℕ → Option Header
data_of hs none = none
data_of hs (some l) = some (header_at hs l)

-- That of the backward search, with n links to go
unfoldable pub find_back : (Header → Bool) → Headers → ℕ → Option ℕ
find_back is_key hs zero = none
find_back is_key hs (suc n) =
    let rest = find_back is_key hs n in if is_key (header_at hs n) then some n else rest

-- `li_http_header_remove_link`
abbrev pub remove_link : Headers → ℕ → Headers
remove_link [] l = []
remove_link (h ∷ hs) zero = hs
remove_link (h ∷ hs) (suc l) = h ∷ remove_link hs l

-- The value in `data->str` after the key and ": "
abbrev pub header_value : Header → Bytes
header_value h = drop (h.keylen + 2) h.content

module _ (ncase_eq : Bytes → Bytes → ℕ → Bool) where
  abbrev pub has_key : Bytes → Header → Bool
  has_key key h = h.keylen == length key && ncase_eq key h.content (length key)

  -- `li_http_header_find_first`
  abbrev pub header_find_first : Headers → Bytes → Option ℕ
  header_find_first headers key = find_from (has_key key) headers 0

  -- `li_http_header_find_next`
  abbrev pub header_find_next : Headers → ℕ → Bytes → Option ℕ
  header_find_next headers l key = find_from (has_key key) (drop (suc l) headers) (suc l)

  -- `li_http_header_find_last`
  abbrev pub header_find_last : Headers → Bytes → Option ℕ
  header_find_last headers key = find_back (has_key key) headers (length headers)

  -- The header at a link gets other content.
  abbrev pub change : (Header → Bytes) → Headers → ℕ → Headers
  change f headers l = let h = header_at headers l in set headers l (record h { content = f h })

  abbrev pub insert_or : Bytes → Bytes → (Header → Bytes) → Headers → Option ℕ → Headers
  insert_or key val f headers none = header_insert key val headers
  insert_or key val f headers (some l) = change f headers l

  -- `li_http_header_append`
  abbrev pub header_append : Headers → Bytes → Bytes → Headers
  header_append headers key val =
      insert_or key val (λ h. h.content ++ 44 ∷ 32 ∷ val) headers (header_find_last headers key)

  -- `li_http_header_overwrite`
  abbrev pub header_overwrite : Headers → Bytes → Bytes → Headers
  header_overwrite headers key val =
      insert_or key val (λ h. take (length key + 2) h.content ++ val) headers
        (header_find_last headers key)

  -- `li_http_header_lookup`
  abbrev pub header_lookup : Headers → Bytes → Option Header
  header_lookup headers key = data_of headers (header_find_last headers key)

  -- The loop of `li_http_header_remove`; without `lp` the links from it on move up when it goes.
  unfoldable pub remove_loop :
      ℕ → Headers → Bytes → Option ℕ → Option ℕ → Bool → Option (Headers × Bool)
  unfolding find_from
  remove_loop zero headers key l lp res = none
  remove_loop (suc fuel) headers key none none res = some (headers, res)
  remove_loop (suc fuel) headers key none (some lp) res = some (remove_link headers lp, true)
  remove_loop (suc fuel) headers key (some l) none res =
      remove_loop fuel headers key (header_find_next headers l key) (some l) res
  remove_loop (suc fuel) headers key (some l) (some lp) res =
      let headers' = remove_link headers lp in
      remove_loop fuel headers' key (header_find_next headers' (l - 1) key) (some (l - 1)) true

  -- `li_http_header_remove`
  unfoldable pub header_remove : Headers → Bytes → Option (Headers × Bool)
  unfolding remove_loop
  header_remove headers key =
      remove_loop (length headers + 2) headers key (header_find_first headers key) none false

  -- The loop of `li_http_header_get_all`
  unfoldable pub get_all_loop : ℕ → Headers → Bytes → Option ℕ → Bytes → Option Bytes
  unfolding find_from
  get_all_loop zero headers key l dest = none
  get_all_loop (suc fuel) headers key none dest = some dest
  get_all_loop (suc fuel) headers key (some l) dest =
      let sep = if length dest == 0 then [] else 44 ∷ 32 ∷ [] in
      get_all_loop fuel headers key (header_find_next headers l key)
        (dest ++ sep ++ header_value (header_at headers l))

  -- `li_http_header_get_all`
  unfoldable pub header_get_all : Headers → Bytes → Option Bytes
  unfolding get_all_loop
  header_get_all headers key =
      get_all_loop (length headers + 1) headers key (header_find_first headers key) []

  module _ (case_eq : Bytes → Bytes → Bool) where
    -- The loop of `li_http_header_is`
    unfoldable pub is_loop : ℕ → Headers → Bytes → Bytes → Option ℕ → Option Bool
    unfolding find_from
    is_loop zero headers key val l = none
    is_loop (suc fuel) headers key val none = some false
    is_loop (suc fuel) headers key val (some l) =
        let h = header_at headers l in
        let rest = is_loop fuel headers key val (header_find_next headers l key) in
        if length h.content - (h.keylen + 2) == length val && case_eq (header_value h) val
        then some true
        else rest

    -- `li_http_header_is`
    unfoldable pub header_is : Headers → Bytes → Bytes → Option Bool
    unfolding is_loop
    header_is headers key val =
        is_loop (length headers + 1) headers key val (header_find_first headers key)
