-- ===== src/Headers/Remove.antt =====
-- The loops over all headers with a key: they end, and they leave out none.
use lighttpd.Prelude.{
  ℕ, zero, suc, ◌+◌, ◌-◌, ◌<◌, ◌≤◌, ◌≡◌, refl, sym, ap, ap₂, ◌∙◌, inl, inr, Bool, true, false, not,
  ◌||◌, Option, none, some, [], ◌∷◌, ◌++◌, Bytes, arith, append_assoc, length, length-append,
  drop-append_ge, ◌==◌, Bool-cases, if◌then◌else◌,
}
use lighttpd.Headers.Defs.{Header, Headers}
use lighttpd.Headers.Find.{
  find_from, remove_link, header_at, header_value, has_key, header_find_next, remove_loop,
  header_remove, get_all_loop, header_get_all,
}

-- The headers with the property, in their order
abbrev pub filter : (Header → Bool) → Headers → Headers
filter p [] = []
filter p (h ∷ hs) = let rest = filter p hs in if p h then h ∷ rest else rest

abbrev pub any : (Header → Bool) → Headers → Bool
any p [] = false
any p (h ∷ hs) = p h || any p hs

abbrev others : (Header → Bool) → Headers → Headers
others p = filter (λ h. not (p h))

-- No header of `mid` has the property.
abbrev pub IsNone : (Header → Bool) → Headers → Type 0
IsNone p [] = 0 ≤ 0
IsNone p (h ∷ hs) = (p h ≡ false) × IsNone p hs

-- The first header with the property, where hs starts at the link i
abbrev IsFound : (Header → Bool) → Headers → ℕ → Option ℕ → Type 0
IsFound p hs i none = IsNone p hs
IsFound p hs i (some l) =
    (mid : Headers) × (h : Header) × (post : Headers) × (hs ≡ mid ++ (h ∷ post))
    × (l ≡ i + length mid)
    × (p h ≡ true)
    × IsNone p mid

later-IsFound :
    (p : Header → Bool) (h : Header) (hs : Headers) (i : ℕ) (o : Option ℕ)
    → p h ≡ false
    → IsFound p hs (suc i) o
    → IsFound p (h ∷ hs) i o
later-IsFound p h hs i none e f = (e, f)
later-IsFound p h hs i (some l) e f =
    let (mid, x, post, a, b, c, d) = f in
    (h ∷ mid, x, post, ap (◌∷◌ h) a, omega (arith, b), c, (e, d))

find_from-IsFound : (p : Header → Bool) (hs : Headers) (i : ℕ) → IsFound p hs i (find_from p hs i)
unfolding find_from
find_from-IsFound p [] i = omega arith
find_from-IsFound p (h ∷ hs) i = elim (Bool-cases (p h)) [
  | inl e ↦ rw e ([], h, hs, refl, omega arith, e, omega arith)
  | inr e ↦ rw e (later-IsFound p h hs i _ e (find_from-IsFound p hs (suc i)))
]

module _ (p : Header → Bool) where
  others-none : (hs : Headers) → IsNone p hs → others p hs ≡ hs
  others-none [] n = refl
  others-none (h ∷ hs) n = rw (n.0) (ap (◌∷◌ h) (others-none hs n.1))

  filter-none : (hs : Headers) → IsNone p hs → filter p hs ≡ []
  filter-none [] n = refl
  filter-none (h ∷ hs) n = rw (n.0) (filter-none hs n.1)

  any-none : (hs : Headers) → IsNone p hs → any p hs ≡ false
  any-none [] n = refl
  any-none (h ∷ hs) n = rw (n.0) (any-none hs n.1)

  others-found :
      (mid : Headers) (h : Header) (post : Headers)
      → IsNone p mid
      → p h ≡ true
      → others p (mid ++ (h ∷ post)) ≡ mid ++ others p post
  others-found [] h post n e = rw e refl
  others-found (x ∷ mid) h post n e = rw (n.0) (ap (◌∷◌ x) (others-found mid h post n.1 e))

  filter-found :
      (mid : Headers) (h : Header) (post : Headers)
      → IsNone p mid
      → p h ≡ true
      → filter p (mid ++ (h ∷ post)) ≡ h ∷ filter p post
  filter-found [] h post n e = rw e refl
  filter-found (x ∷ mid) h post n e = rw (n.0) (filter-found mid h post n.1 e)

  any-found :
      (mid : Headers) (h : Header) (post : Headers)
      → IsNone p mid
      → p h ≡ true
      → any p (mid ++ (h ∷ post)) ≡ true
  any-found [] h post n e = rw e refl
  any-found (x ∷ mid) h post n e = rw (n.0) (any-found mid h post n.1 e)

remove_link-append :
    (pre : Headers) (h : Header) (post : Headers)
    → remove_link (pre ++ (h ∷ post)) (length pre) ≡ pre ++ post
remove_link-append [] h post = refl
remove_link-append (x ∷ pre) h post = ap (◌∷◌ x) (remove_link-append pre h post)

header_at-append :
    (pre : Headers) (h : Header) (post : Headers) → header_at (pre ++ (h ∷ post)) (length pre) ≡ h
header_at-append [] h post = refl
header_at-append (x ∷ pre) h post = header_at-append pre h post

module _ (ncase_eq : Bytes → Bytes → ℕ → Bool) (key : Bytes) where
  -- The search goes on behind the header at the link.
  header_find_next-append :
      (pre : Headers) (h : Header) (post : Headers)
      → header_find_next ncase_eq (pre ++ (h ∷ post)) (length pre) key
        ≡ find_from (has_key ncase_eq key) post (suc (length pre))
  header_find_next-append pre h post =
      ap (λ x. find_from (has_key ncase_eq key) x (suc (length pre)))
        (drop-append_ge pre (suc (length pre)) 1 (h ∷ post) (omega arith))

  abbrev is_key : Header → Bool
  is_key = has_key ncase_eq key

  length-found :
      (rest mid : Headers) (h : Header) (post : Headers)
      → rest ≡ mid ++ (h ∷ post)
      → length post < length rest
  length-found rest mid h post e =
      let a = ap length e in let b = length-append mid (h ∷ post) in omega (arith, a, b)

  -- The header g before the rest is about to be removed.
  loop-others :
      (fuel : ℕ) (rest kept : Headers) (g : Header) (o : Option ℕ) (res : Bool)
      → length rest + 1 ≤ fuel
      → IsFound is_key rest (suc (length kept)) o
      → remove_loop ncase_eq fuel (kept ++ (g ∷ rest)) key o (some (length kept)) res
        ≡ some (kept ++ others is_key rest, true)
  unfolding remove_loop
  loop-others zero rest kept g o res f i = absurd (omega (arith, f))
  loop-others (suc fuel) rest kept g none res f i =
      ap (λ x. some (x, true))
        (remove_link-append kept g rest ∙ ap (λ x. kept ++ x) (sym (others-none is_key rest i)))
  loop-others (suc fuel) rest kept g (some l) res f i =
      let (mid, h, post, a, b, c, d) = i in
      let k = kept ++ mid in
      let e : remove_link (kept ++ (g ∷ rest)) (length kept) ≡ k ++ (h ∷ post) =
        remove_link-append kept g rest
        ∙ ap (λ x. kept ++ x) a
        ∙ sym (append_assoc kept mid (h ∷ post)) in
      let m : l - 1 ≡ length k = omega (arith, b, length-append kept mid) in
      ap₂
        (λ hs n.
          remove_loop ncase_eq fuel hs key (header_find_next ncase_eq hs n key) (some n) true)
        e m
      ∙ ap (λ o. remove_loop ncase_eq fuel (k ++ (h ∷ post)) key o (some (length k)) true)
          (header_find_next-append k h post)
      ∙ loop-others fuel post k h _ true (omega (arith, f, length-found rest mid h post a))
          (find_from-IsFound is_key post (suc (length k)))
      ∙ ap (λ x. some (x, true))
          (append_assoc kept mid (others is_key post)
            ∙ ap (λ x. kept ++ x)
                (sym (others-found is_key mid h post d c) ∙ ap (others is_key) (sym a)))

  header_remove-found :
      (headers : Headers) (o : Option ℕ)
      → IsFound is_key headers 0 o
      → remove_loop ncase_eq (length headers + 2) headers key o none false
        ≡ some (others is_key headers, any is_key headers)
  unfolding remove_loop
  header_remove-found headers none i =
      let e : length headers + 2 ≡ suc (length headers + 1) = omega arith in
      rw (e, others-none is_key headers i, any-none is_key headers i) refl
  header_remove-found headers (some l) i =
      let (mid, h, post, a, b, c, d) = i in
      let e : length headers + 2 ≡ suc (length headers + 1) = omega arith in
      let m : l ≡ length mid = omega (arith, b) in
      ap (λ n. remove_loop ncase_eq n headers key (some l) none false) e
      ∙ ap₂
          (λ hs n.
            remove_loop ncase_eq (length headers + 1) hs key (header_find_next ncase_eq hs n key)
              (some n) false)
          a m
      ∙ ap
          (λ o.
            remove_loop ncase_eq (length headers + 1) (mid ++ (h ∷ post)) key o (some (length mid))
              false)
          (header_find_next-append mid h post)
      ∙ loop-others (length headers + 1) post mid h _ false
          (omega (arith, length-found headers mid h post a))
          (find_from-IsFound is_key post (suc (length mid)))
      ∙ ap₂ (λ x y. some (x, y))
          (sym (others-found is_key mid h post d c) ∙ ap (others is_key) (sym a))
          (sym (any-found is_key mid h post d c) ∙ ap (any is_key) (sym a))

  -- Whatever the comparison of keys is: li_http_header_remove ends, it removes the headers with the key
  -- and no others, keeps those in their order, and returns whether there was one.
  pub header_remove-others :
      (headers : Headers)
      → header_remove ncase_eq headers key
        ≡ some
            (filter (λ h. not (has_key ncase_eq key h)) headers, any (has_key ncase_eq key) headers)
  unfolding header_remove
  header_remove-others headers = header_remove-found headers _ (find_from-IsFound is_key headers 0)

  -- The values joined, with a separator behind what is not empty
  abbrev pub joined : Headers → Bytes → Bytes
  joined [] dest = dest
  joined (h ∷ hs) dest =
      joined hs (dest ++ (if length dest == 0 then [] else 44 ∷ 32 ∷ []) ++ header_value h)

  abbrev extended : Bytes → Header → Bytes
  extended dest h = dest ++ (if length dest == 0 then [] else 44 ∷ 32 ∷ []) ++ header_value h

  step-extended :
      (fuel : ℕ) (pre : Headers) (h : Header) (post : Headers) (dest : Bytes)
      → get_all_loop ncase_eq (suc fuel) (pre ++ (h ∷ post)) key (some (length pre)) dest
        ≡ get_all_loop ncase_eq fuel
            (pre ++ (h ∷ post))
            key
            (find_from is_key post (suc (length pre)))
            (extended dest h)
  unfolding get_all_loop
  step-extended fuel pre h post dest =
      ap₂ (λ o g. get_all_loop ncase_eq fuel (pre ++ (h ∷ post)) key o (extended dest g))
        (header_find_next-append pre h post) (header_at-append pre h post)

  loop-joined :
      (fuel : ℕ) (rest pre : Headers) (o : Option ℕ) (dest : Bytes)
      → length rest + 1 ≤ fuel
      → IsFound is_key rest (length pre) o
      → get_all_loop ncase_eq fuel (pre ++ rest) key o dest
        ≡ some (joined (filter is_key rest) dest)
  unfolding get_all_loop
  loop-joined zero rest pre o dest f i = absurd (omega (arith, f))
  loop-joined (suc fuel) rest pre none dest f i = rw (filter-none is_key rest i) refl
  loop-joined (suc fuel) rest pre (some l) dest f i =
      let (mid, h, post, a, b, c, d) = i in
      let k = pre ++ mid in
      let e : pre ++ rest ≡ k ++ (h ∷ post) =
        ap (λ x. pre ++ x) a ∙ sym (append_assoc pre mid (h ∷ post)) in
      let m : l ≡ length k = omega (arith, b, length-append pre mid) in
      let s : k ++ (h ∷ post) ≡ (k ++ (h ∷ [])) ++ post = sym (append_assoc k (h ∷ []) post) in
      let t : suc (length k) ≡ length (k ++ (h ∷ [])) = omega (arith, length-append k (h ∷ [])) in
      ap₂ (λ hs n. get_all_loop ncase_eq (suc fuel) hs key (some n) dest) e m
      ∙ step-extended fuel k h post dest
      ∙ ap₂ (λ hs n. get_all_loop ncase_eq fuel hs key (find_from is_key post n) (extended dest h))
          s t
      ∙ loop-joined fuel post (k ++ (h ∷ [])) _ (extended dest h)
          (omega (arith, f, length-found rest mid h post a))
          (find_from-IsFound is_key post (length (k ++ (h ∷ []))))
      ∙ ap (λ x. some (joined x dest))
          (sym (filter-found is_key mid h post d c) ∙ ap (filter is_key) (sym a))

  -- Whatever the comparison of keys is: li_http_header_get_all ends, and it returns the values of the
  -- headers with the key in their order, with a comma and a space between what is not empty and the next.
  pub header_get_all-joined :
      (headers : Headers)
      → header_get_all ncase_eq headers key
        ≡ some (joined (filter (has_key ncase_eq key) headers) [])
  unfolding header_get_all
  header_get_all-joined headers =
      loop-joined (length headers + 1) headers [] _ [] (omega arith)
        (find_from-IsFound is_key headers 0)
