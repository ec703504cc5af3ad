-- ===== src/Ids/IdList.antt =====
-- common/idlist.c: numbers that are handed out and taken back. A `gulong` has 64 bits.
use lighttpd.Prelude.{
  ℕ, zero, suc, ◌+◌, ◌-◌, ◌*◌, ◌/◌, ◌%◌, Bool, true, false, not, ◌&&◌, Option, none, some, ltb, leb,
  ◌==◌, if◌then◌else◌,
}

-- The `GArray` of `len` words; `bit i` is the bit i % 64 of the word i / 64.
pub record BitVector : Type 0 where
  pub len : ℕ
  pub bit : ℕ → Bool

-- `liIDList`; -1 in `next_free_id` is `none`.
pub record IdList : Type 0 where
  pub bitvector : BitVector
  pub max_ids : ℕ
  pub next_free_id : Option ℕ
  pub used_ids : ℕ

-- `li_idlist_new`
abbrev pub idlist_new : ℕ → IdList
idlist_new max_ids = record {
  bitvector = record { len = 0; bit = λ i. false };
  max_ids = max_ids;
  next_free_id = none;
  used_ids = 0;
}

abbrev pub set_bit : (ℕ → Bool) → ℕ → Bool → ℕ → Bool
set_bit bits id b i = if i == id then b else bits i

-- A failed assertion is `none`.
unfoldable pub mark_bit : BitVector → ℕ → Option BitVector
mark_bit a id =
    if ltb (id / 64) a.len && not (a.bit id)
    then some (record a { bit = set_bit a.bit id true })
    else none

unfoldable pub clear_bit : BitVector → ℕ → Option BitVector
clear_bit a id =
    if ltb (id / 64) a.len && a.bit id
    then some (record a { bit = set_bit a.bit id false })
    else none

-- The new words are zero.
unfoldable pub idlist_reserve : BitVector → ℕ → BitVector
idlist_reserve a id =
    if leb a.len (id / 64)
    then record { len = suc (id / 64); bit = λ i. if ltb (i / 64) a.len then a.bit i else false }
    else a

-- Whether the n lowest bits of a word are set
unfoldable pub all_set : ℕ → (ℕ → Bool) → Bool
all_set zero word = true
all_set (suc n) word = word n && all_set n word

abbrev pub word : BitVector → ℕ → ℕ → Bool
word a ndx b = a.bit (64 * ndx + b)

-- The loop over the words, of which n are left
unfoldable pub find_word : BitVector → ℕ → ℕ → ℕ
unfolding all_set
find_word a zero ndx = ndx
find_word a (suc n) ndx =
    let rest = find_word a n (suc ndx) in if all_set 64 (word a ndx) then rest else ndx

-- `newid`, marked and counted
abbrev pub hand_out : ℕ → Option ℕ → IdList → Option BitVector → Option (Option ℕ × IdList)
hand_out newid next l none = none
hand_out newid next l (some a) =
    some (some newid, record l { bitvector = a; next_free_id = next; used_ids = suc l.used_ids })

abbrev pub hand_out_next : IdList → Option (Option ℕ × IdList)
hand_out_next l =
    hand_out l.used_ids none l (mark_bit (idlist_reserve l.bitvector l.used_ids) l.used_ids)

-- `g_bit_nth_lsf(mask, start - 1)`: the lowest bit of the mask from `start` on.
module _ (bit_nth_lsf : (ℕ → Bool) → ℕ → Option ℕ) where
  abbrev pub hand_out_bit : IdList → ℕ → Option ℕ → Option (Option ℕ × IdList)
  hand_out_bit l ndx none = none
  hand_out_bit l ndx (some bndx) =
      let newid = 64 * ndx + bndx in
      hand_out newid (if newid == l.used_ids then none else some (suc newid)) l
        (mark_bit l.bitvector newid)

  -- The part after the search for a word
  unfoldable pub get_from_word : IdList → ℕ → ℕ → Option (Option ℕ × IdList)
  unfolding mark_bit idlist_reserve
  get_from_word l next ndx =
      if ndx == l.bitvector.len
      then hand_out_next l
      else hand_out_bit l ndx (
          bit_nth_lsf (λ b. not (word l.bitvector ndx b))
            (if next / 64 == ndx then next / 64 else 0))

  -- `li_idlist_get`; the id -1 is `none`.
  unfoldable pub idlist_get : IdList → Option (Option ℕ × IdList)
  unfolding get_from_word find_word
  idlist_get l = if leb l.max_ids l.used_ids then some (none, l) else elim l.next_free_id [
    | none ↦ hand_out_next l
    | some next ↦
        get_from_word l next (find_word l.bitvector (l.bitvector.len - next / 64) (next / 64))
  ]

-- `li_idlist_is_used`
unfoldable pub idlist_is_used : IdList → ℕ → Bool
idlist_is_used l id = if leb l.bitvector.len (id / 64) then false else l.bitvector.bit id

-- Whether `next_free_id` has to be lowered
abbrev pub is_lower : ℕ → Option ℕ → ℕ → Bool
is_lower id none used = ltb id used
is_lower id (some next) used = ltb id next

-- `li_idlist_put`
unfoldable pub idlist_put : IdList → ℕ → Option IdList
unfolding clear_bit
idlist_put l id = elim (clear_bit l.bitvector id) [
  | none ↦ none
  | some a ↦
      let used = (l.used_ids + 4294967295) % 4294967296 in
      some (record l {
        bitvector = a;
        used_ids = used;
        next_free_id = if is_lower id l.next_free_id used then some id else l.next_free_id;
      })
]
