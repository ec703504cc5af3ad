-- ===== src/Headers/Clean.antt =====
-- A new header stands on one line.
use lighttpd.Prelude.{
  ℕ, ◌≡◌, refl, ap, inl, inr, Bool, true, false, not, ◌&&◌, ◌||◌, [], ◌∷◌, ◌++◌, Bytes, arith,
  Bool-cases, if◌then◌else◌,
}
use lighttpd.Headers.Defs.{is_eol, is_blank, Header, header_new}
use lighttpd.Headers.Sanitize.{unfolded, header_new-unfolded}

-- Whether no byte is '\r' or '\n'
abbrev pub is_line : Bytes → Bool
is_line [] = true
is_line (c ∷ cs) = not (is_eol c) && is_line cs

-- The bytes that are no white space
abbrev pub solid : Bytes → Bytes
solid [] = []
solid (c ∷ cs) = let rest = solid cs in if is_eol c || is_blank c then rest else c ∷ rest

-- `Key: v` on one line, where v has the bytes of val other than white space in their order, and is
-- val if that is on one line
abbrev pub IsClean : Bytes → Bytes → Header → Type 0
IsClean key val h =
    (v : Bytes) × (h.content ≡ key ++ (58 ∷ 32 ∷ v))
    × (is_line v ≡ true)
    × (solid v ≡ solid val)
    × (is_line val ≡ true → v ≡ val)

blank_line : (c : ℕ) → is_blank c ≡ true → is_eol c ≡ false
blank_line c h = ground (arith, h)

unfolded-line : (folding : Bool) (cs : Bytes) → is_line (unfolded folding cs) ≡ true
unfolded-line folding [] = refl
unfolded-line folding (c ∷ cs) = elim (Bool-cases (is_eol c)) [
  | inl e ↦ rw e (unfolded-line true cs)
  | inr e ↦ elim (Bool-cases (is_blank c)) [
    | inl k ↦ blank folding e k (λ f. unfolded-line f cs)
    | inr k ↦ other folding e k (λ f. unfolded-line f cs)
  ]
]
  where
    blank :
        (f : Bool)
        → is_eol c ≡ false
        → is_blank c ≡ true
        → ((f : Bool) → is_line (unfolded f cs) ≡ true)
        → is_line (unfolded f (c ∷ cs)) ≡ true
    blank true e k ih = rw (e, k) (ih true)
    blank false e k ih = rw (e, k, e) (ih false)

    other :
        (f : Bool)
        → is_eol c ≡ false
        → is_blank c ≡ false
        → ((f : Bool) → is_line (unfolded f cs) ≡ true)
        → is_line (unfolded f (c ∷ cs)) ≡ true
    other true e k ih = rw (e, k, e) (ih false)
    other false e k ih = rw (e, k, e) (ih false)

solid-unfolded : (folding : Bool) (cs : Bytes) → solid (unfolded folding cs) ≡ solid cs
solid-unfolded folding [] = refl
solid-unfolded folding (c ∷ cs) = elim (Bool-cases (is_eol c)) [
  | inl e ↦ rw e (solid-unfolded true cs)
  | inr e ↦ elim (Bool-cases (is_blank c)) [
    | inl k ↦ blank folding e k (λ f. solid-unfolded f cs)
    | inr k ↦ other folding e k (λ f. solid-unfolded f cs)
  ]
]
  where
    blank :
        (f : Bool)
        → is_eol c ≡ false
        → is_blank c ≡ true
        → ((f : Bool) → solid (unfolded f cs) ≡ solid cs)
        → solid (unfolded f (c ∷ cs)) ≡ solid (c ∷ cs)
    blank true e k ih = rw (e, k) (ih true)
    blank false e k ih = rw (e, k, e, k) (ih false)

    other :
        (f : Bool)
        → is_eol c ≡ false
        → is_blank c ≡ false
        → ((f : Bool) → solid (unfolded f cs) ≡ solid cs)
        → solid (unfolded f (c ∷ cs)) ≡ solid (c ∷ cs)
    other true e k ih = rw (e, k, e, k) (ap (◌∷◌ c) (ih false))
    other false e k ih = rw (e, k, e, k) (ap (◌∷◌ c) (ih false))

unfolded_eq : (cs : Bytes) → is_line cs ≡ true → unfolded false cs ≡ cs
unfolded_eq [] h = refl
unfolded_eq (c ∷ cs) h = elim (Bool-cases (is_eol c)) [
  | inl e ↦ absurd (ground (arith, h, e))
  | inr e ↦ elim (Bool-cases (is_blank c)) [
    | inl k ↦ rw (e, k) (ap (◌∷◌ c) (unfolded_eq cs (ground (arith, h, e))))
    | inr k ↦ rw (e, k) (ap (◌∷◌ c) (unfolded_eq cs (ground (arith, h, e))))
  ]
]

-- Whatever the value is, the header that _http_header_new makes of it is the key, a colon, a space and
-- a value without '\r' and '\n'. That value has the same bytes other than white space in the same
-- order, and it is the given one when that has no '\r' and no '\n'.
pub header_new-IsClean : (key val : Bytes) → IsClean key val (header_new key val)
header_new-IsClean key val = (
  unfolded false val,
  header_new-unfolded key val,
  unfolded-line false val,
  solid-unfolded false val,
  unfolded_eq val,
)
