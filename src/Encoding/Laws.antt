-- ===== src/Encoding/Laws.antt =====
-- Decoding a path that was encoded for an URI, and what decoding can leave in a path.
use lighttpd.Prelude.{
  ℕ, suc, ◌≤◌, ◌<◌, ◌≡◌, ◌≢◌, refl, sym, ap, subst, ◌∙◌, ◌⊎◌, Bool, true, false, ◌||◌, inl, inr,
  Bool-cases, Option, none, some, Bytes, [], ◌∷◌, ◌++◌, arith, map, append-nil, length, drop, ltb,
  ◌==◌, if◌then◌else◌,
}
use lighttpd.Encoding.Encode.{uri, encode_map, encode_bytes}
use lighttpd.Encoding.Decode.{
  hex2int, join, sanitize, unescape, push, escape_or_plain, url_decode_end, decode_bytes,
  url_decode, decode_bytes_plain, decode_bytes_escape,
}

-- The bytes of a C string
abbrev pub IsCString : Bytes → Type 0
IsCString [] = 0 ≤ 0
IsCString (c ∷ s) = (0 < c) × (c < 256) × IsCString s

push_all : (b : ℕ) (bs : Bytes) (r : Bytes × Bool) → push (b ∷ []) (push bs r) ≡ push (b ∷ bs) r
push_all b bs (out, complete) = refl

not_percent : (c : ℕ) → encode_map uri c ≡ false → (c == 37) ≡ false
unfolding encode_map
not_percent c h = ground arith

not_zero : (c : ℕ) → 0 < c → (c == 0) ≡ false
not_zero c h = ground arith

-- What follows the encoded string is decoded on its own.
decode_bytes-encode_bytes :
    (s t : Bytes)
    → IsCString s
    → decode_bytes (encode_bytes uri s ++ t) ≡ push (map sanitize s) (decode_bytes t)
unfolding encode_bytes
decode_bytes-encode_bytes [] t h = refl
decode_bytes-encode_bytes (c ∷ s) t (z, b, h) =
    let rest =
      ap (push (sanitize c ∷ [])) (decode_bytes-encode_bytes s t h)
      ∙ push_all (sanitize c) (map sanitize s) (decode_bytes t) in
    elim (Bool-cases (encode_map uri c)) [
      | inl e ↦ rw (not_zero c z, e) (decode_bytes_escape c (encode_bytes uri s ++ t) b ∙ rest)
      | inr e ↦
          rw (not_zero c z, e)
            (decode_bytes_plain c (encode_bytes uri s ++ t) (not_zero c z) (not_percent c e) ∙ rest)
    ]

-- What is shown of a string: '_' for each control character, 127 among them, and every other byte
-- itself
abbrev pub IsShown : Bytes → Bytes → Type 0
IsShown [] [] = 0 ≤ 0
IsShown [] (d ∷ t) = ⊥
IsShown (c ∷ s) [] = ⊥
IsShown (c ∷ s) (d ∷ t) =
    (((c < 32 ⊎ (c ≡ 127)) × (d ≡ b'_')) ⊎ ((32 ≤ c) × (c ≢ 127) × (d ≡ c))) × IsShown s t

sanitize-IsShown : (s : Bytes) → IsShown s (map sanitize s)
unfolding sanitize
sanitize-IsShown [] = omega arith
sanitize-IsShown (c ∷ s) = (
  elim (Bool-cases (ltb c 32 || (c == 127))) [
    | inl e ↦ rw e (
        inl (elim (Bool-cases (ltb c 32)) [
          | inl f ↦ (inl (ground (arith, f)), refl)
          | inr f ↦ (inr (ground (arith, e, f)), refl)
        ]))
    | inr e ↦ rw e (inr (ground (arith, e), (λ k. ground (arith, e, k)), refl))
  ],
  sanitize-IsShown s,
)

-- Decoding what li_string_encode writes for an URI, of a C string, gives a string of the same
-- length, with '_' for every control character and for 127, and with every other byte as it was.
pub url_decode-encode_bytes :
    (s : Bytes) → IsCString s → IsShown s (url_decode (encode_bytes uri s))
unfolding url_decode
url_decode-encode_bytes s h =
    let d : decode_bytes (encode_bytes uri s) ≡ (map sanitize s, true) =
      ap decode_bytes (sym (append-nil (encode_bytes uri s)))
      ∙ decode_bytes-encode_bytes s [] h
      ∙ ap (λ out. (out, true)) (append-nil (map sanitize s)) in
    subst (IsShown s) (sym (ap (url_decode_end (encode_bytes uri s)) d)) (sanitize-IsShown s)

length-sanitize : (s : Bytes) → length (map sanitize s) ≡ length s
length-sanitize [] = refl
length-sanitize (c ∷ s) = ap suc (length-sanitize s)

-- A path that ends within an escape keeps its length: behind what has been decoded stands the
-- end of the encoded path.
pub url_decode_incomplete :
    (s t : Bytes)
    → IsCString s
    → decode_bytes t ≡ ([], false)
    → url_decode (encode_bytes uri s ++ t)
      ≡ map sanitize s ++ drop (length s) (encode_bytes uri s ++ t)
unfolding url_decode
url_decode_incomplete s t h e =
    ap (url_decode_end (encode_bytes uri s ++ t))
      (decode_bytes-encode_bytes s t h ∙ ap (push (map sanitize s)) e)
    ∙ rw (append-nil (map sanitize s), length-sanitize s)

-- Neither a control character nor the end of a C string.
abbrev pub AreClean : Bytes → Type 0
AreClean [] = 0 ≤ 0
AreClean (c ∷ s) = (32 ≤ c) × ((c == 127) ≡ false) × AreClean s

sanitize_clean : (c : ℕ) (s : Bytes) → AreClean s → AreClean (sanitize c ∷ s)
unfolding sanitize
sanitize_clean c s h = elim (Bool-cases (ltb c 32 || (c == 127))) [
  | inl e ↦ rw e (omega arith, refl, h)
  | inr e ↦ rw e (ground (arith, e), ground (arith, e), h)
]

unescape_clean : (a b : Option ℕ) (s : Bytes) → AreClean s → AreClean (unescape a b ++ s)
unfolding unescape
unescape_clean none none s h = h
unescape_clean none (some b) s h = h
unescape_clean (some a) none s h = h
unescape_clean (some a) (some b) s h = sanitize_clean (join a b) s h

escape_or_plain_clean :
    (c : ℕ) (escaped plain : Bytes × Bool)
    → AreClean escaped.0
    → AreClean plain.0
    → AreClean (escape_or_plain c escaped plain).0
escape_or_plain_clean c escaped plain he hp = go (c == 0) (c == 37)
  where
    go :
        (z p : Bool)
        → AreClean
            (if z then ([], true) else (if p then escaped else push (sanitize c ∷ []) plain)).0
    go true p = omega arith
    go false true = he
    go false false = sanitize_clean c plain.0 hp

if_clean : (x : Bool) (r : Bytes × Bool) → AreClean r.0 → AreClean (if x then ([], false) else r).0
if_clean true r h = omega arith
if_clean false r h = h

decode_bytes_clean : (s : Bytes) → AreClean (decode_bytes s).0
unfolding decode_bytes
decode_bytes_clean [] = omega arith
decode_bytes_clean (c ∷ []) =
    escape_or_plain_clean c ([], false) ([], true) (omega arith) (omega arith)
decode_bytes_clean (c ∷ a ∷ []) =
    escape_or_plain_clean c ([], false) (decode_bytes (a ∷ [])) (omega arith)
      (decode_bytes_clean (a ∷ []))
decode_bytes_clean (c ∷ a ∷ b ∷ s) =
    let escaped = push (unescape (hex2int a) (hex2int b)) (decode_bytes s) in
    escape_or_plain_clean c _ (decode_bytes (a ∷ b ∷ s))
      (if_clean ((a == 0) || (b == 0)) escaped
        (unescape_clean (hex2int a) (hex2int b) (decode_bytes s).0 (decode_bytes_clean s)))
      (decode_bytes_clean (a ∷ b ∷ s))

-- Whatever path li_url_decode reads to its end, not into an incomplete escape, the result has no
-- control character and no zero byte in it.
pub url_decode-AreClean : (path : Bytes) → (decode_bytes path).1 ≡ true → AreClean (url_decode path)
unfolding url_decode
url_decode-AreClean path h = rw h (decode_bytes_clean path)
