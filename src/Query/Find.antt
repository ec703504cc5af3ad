-- ===== src/Query/Find.antt =====
-- li_querystring_find. The string is the list of its characters; `key` is compared with what stands
-- between `start` and the place that has been reached.
use lighttpd.Prelude.{
  ℕ, Bool, true, false, ◌&&◌, ◌||◌, Option, none, some, Bytes, [], ◌∷◌, ◌++◌, ◌==◌, if◌then◌else◌,
}

-- Equal lengths, and `memcmp` says 0.
unfoldable pub same : Bytes → Bytes → Bool
same [] [] = true
same [] (k ∷ ks) = false
same (c ∷ cs) [] = false
same (c ∷ cs) (k ∷ ks) = (c == k) && same cs ks

-- '&' or ';'
abbrev pub is_separator : ℕ → Bool
is_separator c = (c == 38) || (c == 59)

-- `delim`, 0 being `none`, after this character
abbrev pub next_delim : Option ℕ → ℕ → Option ℕ
next_delim none c = if is_separator c then some c else none
next_delim (some d) c = some d

abbrev pub is_delim : Option ℕ → ℕ → Bool
is_delim none c = false
is_delim (some d) c = c == d

-- Whether the value ends here
abbrev pub ends_value : Option ℕ → ℕ → Bool
ends_value none c = is_separator c
ends_value (some d) c = is_separator c && (c == d)

unfoldable pub value : Option ℕ → Bytes → Bytes
value delim [] = []
value delim (c ∷ cs) = let rest = value delim cs in if ends_value delim c then [] else c ∷ rest

-- The loop, with the characters from `start` on that have been passed
unfoldable pub find : Bytes → Option ℕ → Bytes → Bytes → Option Bytes
unfolding same value
find key delim passed [] = none
find key delim passed (c ∷ cs) =
    let d = next_delim delim c in
    let next = find key d [] cs in
    let more = find key d (passed ++ (c ∷ [])) cs in
    if (c == 61) || is_delim d c
    then (if same passed key then some (value d cs) else next)
    else more

unfoldable pub querystring_find : Bytes → Bytes → Option Bytes
unfolding find
querystring_find querystring key = find key none [] querystring
