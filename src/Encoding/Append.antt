-- ===== src/Encoding/Append.antt =====
-- li_string_encode_append: the writes into the memory of the `GString`.
use lighttpd.Prelude.{
  ℕ, zero, suc, ◌+◌, ◌≤◌, ◌≡◌, refl, sym, ap, ◌∙◌, Option, none, some, Bytes, [], ◌∷◌, ◌++◌, arith,
  length, take, take-all, length-append, length-take,
}
use lighttpd.Encoding.Encode.{Encoding, encode_bytes, count, length-encode_bytes}

-- `len` and the memory at `str`, without the zero byte at its end
pub record GString : Type 0 where
  pub len : ℕ
  pub mem : Bytes

-- The string that another function of GLib sees.
abbrev pub text : GString → Bytes
text s = take s.len s.mem

-- Write at the place `pos`; out of bounds there is nothing to write to.
unfoldable pub write : ℕ → Bytes → Bytes → Option Bytes
write (suc pos) bs [] = none
write (suc pos) bs (m ∷ mem) = elim (write pos bs mem) [ none ↦ none | some mem' ↦ some (m ∷ mem') ]
write zero [] mem = some mem
write zero (b ∷ bs) [] = none
write zero (b ∷ bs) (m ∷ mem) = elim (write zero bs mem) [
  | none ↦ none
  | some mem' ↦ some (b ∷ mem')
]

-- The memory of a given string holds its length.
abbrev pub HasRoom : Option GString → Type 0
HasRoom none = 0 ≤ 0
HasRoom (some dest) = dest.len ≤ length dest.mem

-- What is appended to a given string; without one the length stays 0.
abbrev pub HasText : Option GString → Bytes → GString → Type 0
HasText (some dest) encoded s = (text s ≡ text dest ++ encoded) × (length s.mem ≡ s.len)
HasText none encoded s = (text s ≡ []) × (s.mem ≡ encoded)

-- `fresh n` is the memory that GLib allocates for n bytes.
module _ (fresh : ℕ → Bytes) where
  -- `g_string_set_size` to a larger size
  abbrev pub grow : GString → ℕ → GString
  grow s n = record { len = s.len + n; mem = take s.len s.mem ++ fresh n }

  -- `g_string_sized_new`
  abbrev pub sized_new : ℕ → GString
  sized_new n = record { len = 0; mem = fresh n }

  abbrev pub written : GString → Option Bytes → Option GString
  written s none = none
  written s (some mem) = some (record { len = s.len; mem = mem })

  unfoldable pub string_encode_append : Bytes → Option GString → Encoding → Option GString
  unfolding write encode_bytes count
  string_encode_append str (some dest) enc =
      let result = grow dest (count enc str) in
      written result (write dest.len (encode_bytes enc str) result.mem)
  string_encode_append str none enc =
      let result = sized_new (count enc str) in
      written result (write 0 (encode_bytes enc str) result.mem)

  -- `g_string_truncate(dest, 0)` first
  abbrev pub truncated : Option GString → Option GString
  truncated none = none
  truncated (some dest) = some (record { len = 0; mem = dest.mem })

  unfoldable pub string_encode : Bytes → Option GString → Encoding → Option GString
  unfolding string_encode_append
  string_encode str dest enc = string_encode_append str (truncated dest) enc

  write_all : (bs mem : Bytes) → length mem ≡ length bs → write 0 bs mem ≡ some bs
  unfolding write
  write_all [] [] h = refl
  write_all [] (m ∷ mem) h = absurd (omega arith)
  write_all (b ∷ bs) [] h = absurd (omega arith)
  write_all (b ∷ bs) (m ∷ mem) h = rw (write_all bs mem (omega arith))

  write_after :
      (old bs mem : Bytes)
      → length mem ≡ length bs
      → write (length old) bs (old ++ mem) ≡ some (old ++ bs)
  unfolding write
  write_after [] bs mem h = write_all bs mem h
  write_after (x ∷ old) bs mem h = rw (write_after old bs mem h)

  module _ (length-fresh : (n : ℕ) → length (fresh n) ≡ n) where
    string_encode_append_given :
        (str : Bytes) (dest : GString) (enc : Encoding)
        → dest.len ≤ length dest.mem
        → (s : GString) × (string_encode_append str (some dest) enc ≡ some s)
          × (text s ≡ text dest ++ encode_bytes enc str)
          × (length s.mem ≡ s.len)
    unfolding string_encode_append
    string_encode_append_given str dest enc h =
        let n = count enc str in
        let bs = encode_bytes enc str in
        let old = take dest.len dest.mem in
        let e = length-encode_bytes enc str in
        let l : length old ≡ dest.len = omega (arith, length-take dest.len dest.mem) in
        let whole = length-append old bs in
        (
          record { len = dest.len + n; mem = old ++ bs },
          ap (written (grow dest n)) (
              ap (λ k. write k bs (old ++ fresh n)) (sym l)
              ∙ write_after old bs (fresh n) (length-fresh n ∙ sym e)),
          take-all (dest.len + n) (old ++ bs) (omega arith),
          omega arith,
        )

    string_encode_append_null :
        (str : Bytes) (enc : Encoding)
        → (s : GString) × (string_encode_append str none enc ≡ some s)
          × (text s ≡ [])
          × (s.mem ≡ encode_bytes enc str)
    unfolding string_encode_append
    string_encode_append_null str enc =
        let mem = fresh (count enc str) in
        let e = length-fresh (count enc str) ∙ sym (length-encode_bytes enc str) in
        (
          record { len = 0; mem = encode_bytes enc str },
          ap (written (sized_new (count enc str))) (write_all (encode_bytes enc str) mem e),
          refl,
          refl,
        )

    -- Where the memory that GLib returns has the size asked for, and that of a given string holds
    -- at least its length, li_string_encode_append writes inside the memory that it has made room
    -- for. To a given string it appends exactly the bytes that encode_bytes writes with the table
    -- of the encoding; without one, where dest is NULL, it returns a string of length 0 with those
    -- bytes in its memory.
    pub string_encode_append-text :
        (str : Bytes) (dest : Option GString) (enc : Encoding)
        → HasRoom dest
        → (s : GString) × (string_encode_append str dest enc ≡ some s)
          × HasText dest (encode_bytes enc str) s
    string_encode_append-text str (some dest) enc h =
        let (s, e, t, m) = string_encode_append_given str dest enc h in (s, e, (t, m))
    string_encode_append-text str none enc h =
        let (s, e, t, m) = string_encode_append_null str enc in (s, e, (t, m))
