-- ===== src/Headers/Lookup.antt =====
-- The last header with a key, before and after it changes.
use lighttpd.Prelude.{
  ℕ, zero, suc, ◌+◌, ◌<◌, ◌≤◌, ◌≡◌, refl, sym, ap, ap₂, subst, ◌∙◌, inl, inr, Bool, true, false,
  ◌&&◌, Option, none, some, [], ◌∷◌, ◌++◌, Bytes, arith, length, length-append, length-take, set,
  take, drop, take-append-drop, drop-all, take-append_le, drop-append_ge, drop-append_le, ◌==◌,
  ==_refl, Bool-cases,
}
use lighttpd.Path.Memory.{take-take}
use lighttpd.Headers.Defs.{Header, Headers, header_new}
use lighttpd.Headers.Sanitize.{unfolded, header_new-unfolded}
use lighttpd.Headers.Find.{
  header_at, data_of, find_back, header_value, has_key, header_find_last, change, insert_or,
  header_append, header_overwrite, header_lookup,
}
use lighttpd.Headers.Remove.{IsNone}

abbrev IsLast : (Header → Bool) → Headers → Option ℕ → Type 0
IsLast p hs none = IsNone p hs
IsLast p hs (some l) =
    (pre : Headers) × (h : Header) × (post : Headers) × (hs ≡ pre ++ (h ∷ post))
    × (l ≡ length pre)
    × (p h ≡ true)
    × IsNone p post

drop-header_at :
    (hs : Headers) (n : ℕ) → n < length hs → drop n hs ≡ header_at hs n ∷ drop (suc n) hs
drop-header_at [] n l = absurd (omega arith)
drop-header_at (h ∷ hs) zero l = refl
drop-header_at (h ∷ hs) (suc n) l = drop-header_at hs n (omega arith)

find_back-IsLast :
    (p : Header → Bool) (hs : Headers) (n : ℕ)
    → n ≤ length hs
    → IsNone p (drop n hs)
    → IsLast p hs (find_back p hs n)
unfolding find_back
find_back-IsLast p hs zero l i = i
find_back-IsLast p hs (suc n) l i =
    let d = drop-header_at hs n (omega (arith, l)) in
    elim (Bool-cases (p (header_at hs n))) [
      | inl e ↦ rw e (
        take n hs,
        header_at hs n,
        drop (suc n) hs,
        sym (take-append-drop n hs) ∙ ap (λ x. take n hs ++ x) d,
        omega (arith, length-take n hs, l),
        e,
        i,
      )
      | inr e ↦ rw e (find_back-IsLast p hs n (omega (arith, l)) (subst (IsNone p) (sym d) (e, i)))
    ]

header_at-append :
    (pre : Headers) (h : Header) (post : Headers) (n : ℕ)
    → n ≡ length pre
    → header_at (pre ++ (h ∷ post)) n ≡ h
header_at-append [] h post n e = rw e refl
header_at-append (x ∷ pre) h post zero e = absurd (omega (arith, e))
header_at-append (x ∷ pre) h post (suc n) e = header_at-append pre h post n (omega (arith, e))

none-header_at :
    (p : Header → Bool) (pre : Headers) (h : Header) (post : Headers) (n k : ℕ)
    → IsNone p post
    → n ≡ length pre + suc k
    → k < length post
    → p (header_at (pre ++ (h ∷ post)) n) ≡ false
none-header_at p (x ∷ pre) h post zero k i e l = absurd (omega (arith, e))
none-header_at p (x ∷ pre) h post (suc n) k i e l =
    none-header_at p pre h post n k i (omega (arith, e)) l
none-header_at p [] h post zero k i e l = absurd (omega (arith, e))
none-header_at p [] h [] (suc n) k i e l = absurd (omega (arith, l))
none-header_at p [] h (y ∷ post) (suc zero) k i e l = i.0
none-header_at p [] h (y ∷ post) (suc (suc n)) zero i e l = absurd (omega (arith, e))
none-header_at p [] h (y ∷ post) (suc (suc n)) (suc k) i e l =
    none-header_at p [] h post (suc n) k i.1 (omega (arith, e)) (omega (arith, l))

-- The search finds the header behind which none has the key.
find_back-append :
    (p : Header → Bool) (hs pre : Headers) (h : Header) (post : Headers) (n k : ℕ)
    → hs ≡ pre ++ (h ∷ post)
    → p h ≡ true
    → IsNone p post
    → n ≡ length pre + suc k
    → k ≤ length post
    → find_back p hs n ≡ some (length pre)
unfolding find_back
find_back-append p hs pre h post zero k a e i m l = absurd (omega (arith, m))
find_back-append p hs pre h post (suc n) zero a e i m l =
    let g = ap (λ x. header_at x n) a ∙ header_at-append pre h post n (omega (arith, m)) in
    rw (g, e) (ap some (omega (arith, m)))
find_back-append p hs pre h post (suc n) (suc k) a e i m l =
    let f : p (header_at hs n) ≡ false =
      ap (λ x. p (header_at x n)) a
      ∙ none-header_at p pre h post n k i (omega (arith, m)) (omega (arith, l)) in
    rw f (find_back-append p hs pre h post n k a e i (omega (arith, m)) (omega (arith, l)))

-- The search in a queue where the last header with the key is h
header_lookup-append :
    (ncase_eq : Bytes → Bytes → ℕ → Bool) (key : Bytes) (pre : Headers) (h : Header)
    (post : Headers)
    → has_key ncase_eq key h ≡ true
    → IsNone (has_key ncase_eq key) post
    → header_lookup ncase_eq (pre ++ (h ∷ post)) key ≡ some h
header_lookup-append ncase_eq key pre h post e i =
    let m : length (pre ++ (h ∷ post)) ≡ length pre + suc (length post) =
      length-append pre (h ∷ post) in
    ap (data_of (pre ++ (h ∷ post))) (
      find_back-append (has_key ncase_eq key) (pre ++ (h ∷ post)) pre h post _ (length post) refl e
        i m (omega arith))
    ∙ ap some (header_at-append pre h post (length pre) refl)

-- A header has room for its key, ": " behind it.
abbrev pub AllHeaders : Headers → Type 0
AllHeaders [] = 0 ≤ 0
AllHeaders (h ∷ hs) = (h.keylen + 2 ≤ length h.content) × AllHeaders hs

all_middle :
    (pre : Headers) (h : Header) (post : Headers)
    → AllHeaders (pre ++ (h ∷ post))
    → h.keylen + 2 ≤ length h.content
all_middle [] h post a = a.0
all_middle (x ∷ pre) h post a = all_middle pre h post a.1

set-append :
    (pre : Headers) (h g : Header) (post : Headers)
    → set (pre ++ (h ∷ post)) (length pre) g ≡ pre ++ (g ∷ post)
set-append [] h g post = refl
set-append (x ∷ pre) h g post = ap (◌∷◌ x) (set-append pre h g post)

-- The header that li_http_header_append leaves as the last with the key, by the one that was
abbrev pub IsAppended : Bytes → Bytes → Option Header → Header → Type 0
IsAppended key val none h = h ≡ header_new key val
IsAppended key val (some g) h =
    (h.keylen ≡ g.keylen) × (header_value h ≡ header_value g ++ (44 ∷ 32 ∷ val))

-- The same for li_http_header_overwrite
abbrev pub IsOverwritten : Bytes → Bytes → Option Header → Header → Type 0
IsOverwritten key val none h = h ≡ header_new key val
IsOverwritten key val (some g) h = (h.keylen ≡ g.keylen) × (header_value h ≡ val)

keylen-header_new : (key val : Bytes) → (header_new key val).keylen ≡ length key
unfolding header_new
keylen-header_new key val = refl

and_left : (x y : Bool) → (x && y) ≡ true → x ≡ true
and_left true y h = refl
and_left false y h = h

and_right : (x y : Bool) → (x && y) ≡ true → y ≡ true
and_right true y h = h
and_right false y h = absurd (ground (arith, h))

and_both : (x y : Bool) → x ≡ true → y ≡ true → (x && y) ≡ true
and_both x y p q = rw (p, q) refl

module _ (ncase_eq : Bytes → Bytes → ℕ → Bool)
    (prefix_law : (k s t : Bytes) (n : ℕ) → take n s ≡ take n t → ncase_eq k s n ≡ ncase_eq k t n)
    (same_law : (k x : Bytes) → ncase_eq k (k ++ x) (length k) ≡ true) (key val : Bytes) where
  new-has_key : has_key ncase_eq key (header_new key val) ≡ true
  new-has_key =
      rw (keylen-header_new key val, ==_refl (length key), header_new-unfolded key val)
        (same_law key (58 ∷ 32 ∷ unfolded false val))

  abbrev stored : (Header → Bytes) → Option Header → Header
  stored f none = header_new key val
  stored f (some h) = record h { content = f h }

  -- The header keeps its key.
  abbrev Keeps : (Header → Bytes) → Type 0
  Keeps f =
      (h : Header)
      → h.keylen ≡ length key
      → h.keylen + 2 ≤ length h.content
      → take (length key) (f h) ≡ take (length key) h.content

  insert_or-header_lookup :
      (f : Header → Bytes) (headers : Headers) (o : Option ℕ)
      → Keeps f
      → AllHeaders headers
      → IsLast (has_key ncase_eq key) headers o
      → header_lookup ncase_eq (insert_or ncase_eq key val f headers o) key
        ≡ some (stored f (data_of headers o))
  insert_or-header_lookup f headers none k a i =
      header_lookup-append ncase_eq key headers _ [] new-has_key (omega arith)
  insert_or-header_lookup f headers (some l) k a i =
      let (pre, h, post, b, c, d, e) = i in
      let g = record h { content = f h } in
      let n : h.keylen ≡ length key = ground (arith, d) in
      let q : ncase_eq key h.content (length key) ≡ true = and_right (h.keylen == length key) _ d in
      let m = all_middle pre h post (subst AllHeaders b a) in
      let t : has_key ncase_eq key g ≡ true =
        and_both (h.keylen == length key) _ (and_left _ _ d)
          (prefix_law key (f h) h.content (length key) (k h n m) ∙ q) in
      let u : header_at headers l ≡ h = ap₂ header_at b c ∙ header_at-append pre h post _ refl in
      ap (λ x. header_lookup ncase_eq x key)
        (ap₂ (λ x n. change ncase_eq f x n) b c
          ∙ ap {A = Header} (λ y. set (pre ++ (h ∷ post)) (length pre) (record y { content = f y }))
              (header_at-append pre h post _ refl)
          ∙ set-append pre h g post)
      ∙ header_lookup-append ncase_eq key pre g post t e
      ∙ ap {A = Header} (λ y. some (record y { content = f y })) (sym u)

  header_find_last-IsLast :
      (headers : Headers)
      → IsLast (has_key ncase_eq key) headers (header_find_last ncase_eq headers key)
  header_find_last-IsLast headers =
      find_back-IsLast (has_key ncase_eq key) headers (length headers) (omega arith) (
        subst (IsNone (has_key ncase_eq key))
          (sym (drop-all (length headers) headers (omega arith))) (omega arith))

  -- What the search finds has room for its key, which is as long as the given one.
  found-length :
      (headers : Headers) (l : ℕ)
      → AllHeaders headers
      → IsLast (has_key ncase_eq key) headers (some l)
      → ((header_at headers l).keylen ≡ length key)
        × ((header_at headers l).keylen + 2 ≤ length (header_at headers l).content)
  found-length headers l a i =
      let (pre, h, post, b, c, d, n) = i in
      let u : header_at headers l ≡ h = ap₂ header_at b c ∙ header_at-append pre h post _ refl in
      subst (λ g. (g.keylen ≡ length key) × (g.keylen + 2 ≤ length g.content)) (sym u)
        (ground (arith, d), all_middle pre h post (subst AllHeaders b a))

  abbrev appended : Header → Bytes
  appended h = h.content ++ 44 ∷ 32 ∷ val

  abbrev overwritten : Header → Bytes
  overwritten h = take (length key + 2) h.content ++ val

  stored-IsAppended :
      (headers : Headers) (o : Option ℕ)
      → AllHeaders headers
      → IsLast (has_key ncase_eq key) headers o
      → IsAppended key val (data_of headers o) (stored appended (data_of headers o))
  stored-IsAppended headers none a i = refl
  stored-IsAppended headers (some l) a i =
      let (e, m) = found-length headers l a i in
      (refl, drop-append_le _ (header_at headers l).content _ m)

  stored-IsOverwritten :
      (headers : Headers) (o : Option ℕ)
      → AllHeaders headers
      → IsLast (has_key ncase_eq key) headers o
      → IsOverwritten key val (data_of headers o) (stored overwritten (data_of headers o))
  stored-IsOverwritten headers none a i = refl
  stored-IsOverwritten headers (some l) a i =
      let (e, m) = found-length headers l a i in
      let h = header_at headers l in
      let t : h.keylen + 2 ≡ length (take (length key + 2) h.content) + 0 =
        omega (arith, e, m, length-take (length key + 2) h.content) in
      (refl, drop-append_ge (take (length key + 2) h.content) (h.keylen + 2) 0 val t)

  appended-Keeps : Keeps appended
  appended-Keeps h e m = take-append_le (length key) h.content (44 ∷ 32 ∷ val) (omega (arith, e, m))

  overwritten-Keeps : Keeps overwritten
  overwritten-Keeps h e m =
      take-append_le (length key) (take (length key + 2) h.content) val
        (omega (arith, e, m, length-take (length key + 2) h.content))
      ∙ take-take (length key) (length key + 2) h.content (omega arith)

  -- If g_ascii_strncasecmp goes by the first n bytes and takes equal bytes as equal, and every header
  -- has room for its key and ": ": after li_http_header_append the last header with the key is a new
  -- one, if there was none, and otherwise the one that was, its value followed by a comma, a space
  -- and the given one. After li_http_header_overwrite it is a new one or the one that was with the given value.
  pub header_lookup-header_append :
      (headers : Headers)
      → AllHeaders headers
      → ((h : Header) × (header_lookup ncase_eq (header_append ncase_eq headers key val) key
            ≡ some h)
          × IsAppended key val (header_lookup ncase_eq headers key) h)
        × ((h : Header) × (header_lookup ncase_eq (header_overwrite ncase_eq headers key val) key
              ≡ some h)
            × IsOverwritten key val (header_lookup ncase_eq headers key) h)
  header_lookup-header_append headers a =
      let o = header_find_last ncase_eq headers key in
      let i = header_find_last-IsLast headers in
      (
        (
          _,
          insert_or-header_lookup appended headers o appended-Keeps a i,
          stored-IsAppended headers o a i,
        ),
        (
          _,
          insert_or-header_lookup overwritten headers o overwritten-Keeps a i,
          stored-IsOverwritten headers o a i,
        ),
      )
