-- ===== src/Headers/Tests.antt =====
-- Headers with the keys "A" and "B", and a comparison that goes by the lower case letters.
use lighttpd.Prelude.{
  ℕ, ◌+◌, ◌≡◌, refl, ap, ◌∙◌, Bool, true, false, ◌&&◌, not, some, [], ◌∷◌, ◌++◌, Bytes, arith,
  length, take, take-append_le, leb, ◌==◌, ==_refl, if◌then◌else◌,
}
use lighttpd.Headers.Defs.{Header, Headers, find_eol, unfold_loop, header_new, unfolded_content}
use lighttpd.Headers.Clean.{IsClean, header_new-IsClean}
use lighttpd.Headers.Find.{
  find_from, has_key, header_append, header_overwrite, header_lookup, header_remove, header_get_all,
  header_is, is_loop,
}
use lighttpd.Headers.Remove.{filter, any, header_remove-others, header_get_all-joined}
use lighttpd.Headers.Lookup.{IsAppended, IsOverwritten, header_lookup-header_append}

abbrev lower : ℕ → ℕ
lower c = if leb 65 c && leb c 90 then c + 32 else c

abbrev same_text : Bytes → Bytes → Bool
same_text [] [] = true
same_text [] (d ∷ ds) = false
same_text (c ∷ cs) [] = false
same_text (c ∷ cs) (d ∷ ds) = (lower c == lower d) && same_text cs ds

abbrev ncase_eq : Bytes → Bytes → ℕ → Bool
ncase_eq s t n = same_text (take n s) (take n t)

same_refl : (cs : Bytes) → same_text cs cs ≡ true
same_refl [] = refl
same_refl (c ∷ cs) = rw (==_refl (lower c), same_refl cs) refl

same_law : (k x : Bytes) → ncase_eq k (k ++ x) (length k) ≡ true
same_law k x =
    ap (same_text (take (length k) k)) (take-append_le (length k) k x (omega arith))
    ∙ same_refl (take (length k) k)

-- "A: 1", "B: 2", "a: 3"
abbrev headers : Headers
headers =
    record { keylen = 1; content = 65 ∷ 58 ∷ 32 ∷ 49 ∷ [] }
    ∷ record { keylen = 1; content = 66 ∷ 58 ∷ 32 ∷ 50 ∷ [] }
    ∷ record { keylen = 1; content = 97 ∷ 58 ∷ 32 ∷ 51 ∷ [] }
    ∷ []

header_new-IsClean_example :
    IsClean
      (65 ∷ [])
      (49 ∷ 13 ∷ 10 ∷ 32 ∷ 50 ∷ [])
      (header_new (65 ∷ []) (49 ∷ 13 ∷ 10 ∷ 32 ∷ 50 ∷ []))
header_new-IsClean_example = header_new-IsClean (65 ∷ []) (49 ∷ 13 ∷ 10 ∷ 32 ∷ 50 ∷ [])

-- "1\r\n 2" becomes "1 2", and a folding at the end goes.
header_new_folded :
    (header_new (65 ∷ []) (49 ∷ 13 ∷ 10 ∷ 32 ∷ 50 ∷ 10 ∷ [])).content
    ≡ 65 ∷ 58 ∷ 32 ∷ 49 ∷ 32 ∷ 50 ∷ []
unfolding header_new unfolded_content find_eol unfold_loop
header_new_folded = refl

header_remove-others_example :
    header_remove ncase_eq headers (97 ∷ [])
    ≡ some (
      filter (λ h. not (has_key ncase_eq (97 ∷ []) h)) headers,
      any (has_key ncase_eq (97 ∷ [])) headers,
    )
header_remove-others_example = header_remove-others ncase_eq (97 ∷ []) headers

-- "1, 3"
get_all_two : header_get_all ncase_eq headers (97 ∷ []) ≡ some (49 ∷ 44 ∷ 32 ∷ 51 ∷ [])
get_all_two = header_get_all-joined ncase_eq (97 ∷ []) headers

header_lookup-header_append_example :
    ((h : Header) × (header_lookup ncase_eq
          (header_append ncase_eq headers (65 ∷ []) (57 ∷ []))
          (65 ∷ [])
        ≡ some h)
      × IsAppended (65 ∷ []) (57 ∷ []) (header_lookup ncase_eq headers (65 ∷ [])) h)
    × ((h : Header) × (header_lookup ncase_eq
            (header_overwrite ncase_eq headers (65 ∷ []) (57 ∷ []))
            (65 ∷ [])
          ≡ some h)
        × IsOverwritten (65 ∷ []) (57 ∷ []) (header_lookup ncase_eq headers (65 ∷ [])) h)
header_lookup-header_append_example =
    header_lookup-header_append ncase_eq (λ k s t n e. ap (same_text (take n k)) e) same_law
      (65 ∷ []) (57 ∷ []) headers (omega arith, (omega arith, (omega arith, omega arith)))

-- The value is "1", and "a" is not it.
is_one : header_is ncase_eq same_text headers (65 ∷ []) (49 ∷ []) ≡ some true
unfolding header_is is_loop find_from
is_one = refl

is_other : header_is ncase_eq same_text headers (66 ∷ []) (49 ∷ []) ≡ some false
unfolding header_is is_loop find_from
is_other = refl
