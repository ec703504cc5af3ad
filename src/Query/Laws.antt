-- ===== src/Query/Laws.antt =====
-- What li_querystring_find finds.
use lighttpd.Prelude.{
  ℕ, ◌≤◌, ◌≡◌, refl, sym, ap, ◌∙◌, Bool, true, false, Option, none, some, List, Bytes, [], ◌∷◌,
  ◌++◌, arith, append_assoc, append-nil, ==_refl, ◌==◌, if◌then◌else◌,
}
use lighttpd.Query.Find.{
  same, is_separator, next_delim, is_delim, ends_value, value, find, querystring_find,
}

-- Without '&', ';' and '='
abbrev pub IsPlain : Bytes → Type 0
IsPlain [] = 0 ≤ 0
IsPlain (c ∷ t) = (is_separator c ≡ false) × ((c == 61) ≡ false) × IsPlain t

-- Without '&' and ';'
abbrev pub IsValue : Bytes → Type 0
IsValue [] = 0 ≤ 0
IsValue (c ∷ t) = (is_separator c ≡ false) × IsValue t

-- '&' is the delimiter, or none has been seen.
abbrev pub ampersand : Bool → Option ℕ
ampersand false = none
ampersand true = some 38

same_refl : (t : Bytes) → same t t ≡ true
unfolding same
same_refl [] = refl
same_refl (c ∷ t) = rw (==_refl c) (same_refl t)

plain_next : (c : ℕ) (b : Bool) → is_separator c ≡ false → next_delim (ampersand b) c ≡ ampersand b
plain_next c false h = rw h
plain_next c true h = refl

plain_delim : (c : ℕ) (b : Bool) → is_separator c ≡ false → is_delim (ampersand b) c ≡ false
plain_delim c false h = refl
plain_delim c true h = ground (arith, h)

plain_value : (c : ℕ) (b : Bool) → is_separator c ≡ false → ends_value (ampersand b) c ≡ false
plain_value c false h = h
plain_value c true h = rw h

-- Plain characters are passed.
find_plain :
    (key : Bytes) (b : Bool) (t passed rest : Bytes)
    → IsPlain t
    → find key (ampersand b) passed (t ++ rest) ≡ find key (ampersand b) (passed ++ t) rest
unfolding find
find_plain key b [] passed rest h =
    ap (λ x. find key (ampersand b) x rest) (sym (append-nil passed))
find_plain key b (c ∷ t) passed rest (s, e, h) =
    rw (plain_next c b s, plain_delim c b s, e)
      (find_plain key b t (passed ++ (c ∷ [])) rest h
        ∙ ap (λ x. find key (ampersand b) x rest) (append_assoc passed (c ∷ []) t))

-- At '=' the key is compared.
find_equal :
    (key : Bytes) (b : Bool) (passed rest : Bytes)
    → find key (ampersand b) passed (61 ∷ rest) ≡ (
        if same passed key then some (value (ampersand b) rest) else find key (ampersand b) [] rest)
unfolding find
find_equal key false passed rest = refl
find_equal key true passed rest = refl

-- And at '&'.
find-ampersand :
    (key : Bytes) (b : Bool) (passed rest : Bytes)
    → find key (ampersand b) passed (38 ∷ rest)
      ≡ (if same passed key then some (value (some 38) rest) else find key (some 38) [] rest)
unfolding find
find-ampersand key false passed rest = refl
find-ampersand key true passed rest = refl

-- Nothing, or '&' and more
abbrev pub IsTail : Bytes → Type 0
IsTail [] = 0 ≤ 0
IsTail (c ∷ t) = c ≡ 38

value_plain :
    (b : Bool) (v tail : Bytes) → IsValue v → IsTail tail → value (ampersand b) (v ++ tail) ≡ v
unfolding value
value_plain b [] [] h t = refl
value_plain false [] (c ∷ tail) h t = rw t
value_plain true [] (c ∷ tail) h t = rw t
value_plain b (c ∷ v) tail (s, h) t = rw (plain_value c b s) (ap (◌∷◌ c) (value_plain b v tail h t))

-- "k=v&" for every pair
unfoldable pub pairs : List (Bytes × Bytes) → Bytes → Bytes
pairs [] rest = rest
pairs ((k, v) ∷ ps) rest = k ++ (61 ∷ v ++ (38 ∷ pairs ps rest))

-- The key is none of these keys and none of these values.
abbrev pub AreOthers : Bytes → List (Bytes × Bytes) → Type 0
AreOthers key [] = 0 ≤ 0
AreOthers key ((k, v) ∷ ps) =
    IsPlain k × IsPlain v × (same k key ≡ false) × (same v key ≡ false) × AreOthers key ps

find-pairs :
    (key v tail : Bytes) (b : Bool) (ps : List (Bytes × Bytes))
    → IsPlain key
    → IsValue v
    → IsTail tail
    → AreOthers key ps
    → find key (ampersand b) [] (pairs ps (key ++ (61 ∷ v ++ tail))) ≡ some v
unfolding pairs
find-pairs key v tail b [] k p t h =
    find_plain key b key [] (61 ∷ v ++ tail) k
    ∙ find_equal key b key (v ++ tail)
    ∙ rw (same_refl key) (ap some (value_plain b v tail p t))
find-pairs key v tail b ((k1, v1) ∷ ps) k p t (hk, hv, nk, nv, h) =
    let rest = pairs ps (key ++ (61 ∷ v ++ tail)) in
    find_plain key b k1 [] (61 ∷ v1 ++ (38 ∷ rest)) hk
    ∙ find_equal key b k1 (v1 ++ (38 ∷ rest))
    ∙ rw nk (
        find_plain key b v1 [] (38 ∷ rest) hv
        ∙ find-ampersand key b v1 rest
        ∙ rw nv (find-pairs key v tail true ps k p t h))

-- In a query string of pairs "k=v" joined by '&', li_querystring_find returns the value behind the
-- key it looks for, where no key and no value before equals that key. The key, and the keys and the
-- values of the pairs before it, hold no '&', no ';' and no '=', and the value no '&' and no ';';
-- behind the value the string ends, or '&' and anything follows.
pub querystring_find-pairs :
    (key v tail : Bytes) (ps : List (Bytes × Bytes))
    → IsPlain key
    → IsValue v
    → IsTail tail
    → AreOthers key ps
    → querystring_find (pairs ps (key ++ (61 ∷ v ++ tail))) key ≡ some v
unfolding querystring_find
querystring_find-pairs key v tail ps k p t h = find-pairs key v tail false ps k p t h

-- Where a value before equals the key, li_querystring_find takes it for the key: it returns what
-- stands behind that value up to the next '&', which is a key with its value.
pub querystring_find_value :
    (k key next tail : Bytes)
    → IsPlain k
    → IsPlain key
    → same k key ≡ false
    → IsValue next
    → IsTail tail
    → querystring_find (k ++ (61 ∷ key ++ (38 ∷ next ++ tail))) key ≡ some next
unfolding querystring_find
querystring_find_value k key next tail pk pq n pn t =
    find_plain key false k [] (61 ∷ key ++ (38 ∷ next ++ tail)) pk
    ∙ find_equal key false k (key ++ (38 ∷ next ++ tail))
    ∙ rw n (
        find_plain key false key [] (38 ∷ next ++ tail) pq
        ∙ find-ampersand key false key (next ++ tail)
        ∙ rw (same_refl key) (ap some (value_plain true next tail pn t)))
