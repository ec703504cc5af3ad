-- ===== src/Ids/Laws.antt =====
-- Which ids are in use after the operations.
use lighttpd.Prelude.{
  ℕ, suc, ◌+◌, ◌-◌, ◌*◌, ◌/◌, ◌%◌, ◌<◌, ◌≤◌, ◌≡◌, refl, sym, ap, ◌∙◌, Bool, true, false, not, ◌&&◌,
  inl, inr, Option, none, some, arith, Bool-cases, ==_refl, ltb, leb, lt→ltb, leb→le, ◌==◌,
  if◌then◌else◌,
}
use lighttpd.Ids.IdList.{
  BitVector, IdList, set_bit, is_lower, mark_bit, clear_bit, idlist_reserve, find_word, hand_out,
  hand_out_bit, get_from_word, idlist_get, idlist_is_used, idlist_put,
}

abbrev pub is_marked : BitVector → ℕ → Bool
is_marked a id = if leb a.len (id / 64) then false else a.bit id

-- The id was free and is used now, and no other has changed. Without an id the list is as before,
-- and as many ids are used as may be.
abbrev pub IsFresh : IdList → Option (Option ℕ × IdList) → Type 0
IsFresh l none = 0 ≤ 0
IsFresh l (some (none, l')) = (l' ≡ l) × (l.max_ids ≤ l.used_ids)
IsFresh l (some (some id, l')) =
    (idlist_is_used l id ≡ false)
    × (idlist_is_used l' id ≡ true)
    × ((j : ℕ) → (j == id) ≡ false → idlist_is_used l' j ≡ idlist_is_used l j)
    × (l'.used_ids ≡ suc l.used_ids)

and_left : (x y : Bool) → (x && y) ≡ true → x ≡ true
and_left true y h = refl
and_left false y h = h

and_right : (x y : Bool) → (x && y) ≡ true → y ≡ true
and_right true y h = h
and_right false y h = absurd (ground (arith, h))

not-true : (x : Bool) → not x ≡ true → x ≡ false
not-true true h = sym h
not-true false h = refl

below_len : (i n : ℕ) → ltb i n ≡ true → leb n i ≡ false
below_len i n h = ground (arith, h)

either_false : (x y : Bool) → y ≡ false → (if x then false else y) ≡ false
either_false true y h = refl
either_false false y h = h

hand_out-IsFresh :
    (l : IdList) (a : BitVector) (id : ℕ) (next : Option ℕ)
    → ((j : ℕ) → is_marked a j ≡ idlist_is_used l j)
    → IsFresh l (hand_out id next l (mark_bit a id))
unfolding mark_bit idlist_is_used
hand_out-IsFresh l a id next h = elim (Bool-cases (ltb (id / 64) a.len && not (a.bit id))) [
  | inr e ↦ rw e (omega arith)
  | inl e ↦
      let b = below_len (id / 64) a.len (and_left _ _ e) in
      let f = not-true (a.bit id) (and_right (ltb (id / 64) a.len) _ e) in
      rw e (
        sym (h id) ∙ either_false (leb a.len (id / 64)) (a.bit id) f,
        rw (idlist_is_used, b, ==_refl id),
        λ j n. rw (idlist_is_used, n) (h j),
        refl,
      )
]

is_marked-reserve : (a : BitVector) (id j : ℕ) → is_marked (idlist_reserve a id) j ≡ is_marked a j
unfolding idlist_reserve
is_marked-reserve a id j = elim (Bool-cases (leb a.len (id / 64))) [
  | inr e ↦ rw e
  | inl e ↦ rw e (elim (Bool-cases (leb a.len (j / 64))) [
    | inl f ↦
        let g : ltb (j / 64) a.len ≡ false = ground (arith, f) in
        rw (f, g) (either_false (leb (suc (id / 64)) (j / 64)) false refl)
    | inr f ↦
        let g : ltb (j / 64) a.len ≡ true = ground (arith, f) in
        let x : leb (suc (id / 64)) (j / 64) ≡ false = ground (arith, e, f) in rw (f, x, g)
  ])
]

next-IsFresh :
    (l : IdList) (m : ℕ) → IsFresh l (hand_out m none l (mark_bit (idlist_reserve l.bitvector m) m))
unfolding idlist_is_used
next-IsFresh l m =
    hand_out-IsFresh l (idlist_reserve l.bitvector m) m none
      (λ j. is_marked-reserve l.bitvector m j)

reserve_len : (a : BitVector) (id : ℕ) → id / 64 < (idlist_reserve a id).len
unfolding idlist_reserve
reserve_len a id = elim (Bool-cases (leb a.len (id / 64))) [
  | inl e ↦ rw e (omega arith)
  | inr e ↦ rw e (ground (arith, e))
]

mark_free :
    (a : BitVector) (id : ℕ)
    → id / 64 < a.len
    → is_marked a id ≡ false
    → mark_bit a id ≡ some (record a { bit = set_bit a.bit id true })
unfolding mark_bit
mark_free a id l f =
    let g : leb a.len (id / 64) ≡ false = ground (arith, l) in
    let b : a.bit id ≡ false = rw g at f in rw (lt→ltb _ _ l, b)

mark_next :
    (a : BitVector) (id : ℕ)
    → is_marked a id ≡ false
    → (a' : BitVector) × (mark_bit (idlist_reserve a id) id ≡ some a')
mark_next a id f =
    let r = idlist_reserve a id in
    (
      record r { bit = set_bit r.bit id true },
      mark_free r id (reserve_len a id) (is_marked-reserve a id id ∙ f),
    )

module _ (bit_nth_lsf : (ℕ → Bool) → ℕ → Option ℕ) where
  bit-IsFresh : (l : IdList) (ndx : ℕ) (o : Option ℕ) → IsFresh l (hand_out_bit bit_nth_lsf l ndx o)
  unfolding idlist_is_used
  bit-IsFresh l ndx none = omega arith
  bit-IsFresh l ndx (some b) = hand_out-IsFresh l l.bitvector (64 * ndx + b) _ (λ j. refl)

  word-IsFresh : (l : IdList) (next ndx : ℕ) → IsFresh l (get_from_word bit_nth_lsf l next ndx)
  unfolding get_from_word
  word-IsFresh l next ndx = elim (Bool-cases (ndx == l.bitvector.len)) [
    | inl e ↦ rw e (next-IsFresh l l.used_ids)
    | inr e ↦ rw e (bit-IsFresh l ndx _)
  ]

  -- Whatever g_bit_nth_lsf finds and whatever state the list is in: an id that li_idlist_get
  -- returns was not in use before, is in use now, and is counted; no other id changes. Without an
  -- id the list stays as it was, all that may be used being used.
  pub idlist_get-IsFresh : (l : IdList) → IsFresh l (idlist_get bit_nth_lsf l)
  unfolding idlist_get
  idlist_get-IsFresh l = elim (Bool-cases (leb l.max_ids l.used_ids)) [
    | inl e ↦ rw e (refl, leb→le _ _ e)
    | inr e ↦
        rw e
          (elim l.next_free_id
            as (λ o. IsFresh l (elim o [
              | none ↦
                  hand_out l.used_ids none l
                    (mark_bit (idlist_reserve l.bitvector l.used_ids) l.used_ids)
              | some next ↦
                  get_from_word bit_nth_lsf l next
                    (find_word l.bitvector (l.bitvector.len - next / 64) (next / 64))
            ])) [ none ↦ next-IsFresh l l.used_ids | some next ↦ word-IsFresh l next _ ])
  ]

  -- Where exactly the ids below `used_ids` are in use and none is to be searched for, it returns
  -- the next one.
  pub idlist_get-next :
      (l : IdList)
      → l.next_free_id ≡ none
      → l.used_ids < l.max_ids
      → idlist_is_used l l.used_ids ≡ false
      → (l' : IdList) × (idlist_get bit_nth_lsf l ≡ some (some l.used_ids, l'))
  unfolding idlist_get mark_bit idlist_is_used
  idlist_get-next l e h f =
      let g : leb l.max_ids l.used_ids ≡ false = ground (arith, h) in
      rw (g, e)
        (let (a, m) = mark_next l.bitvector l.used_ids f in
          (
            record l { bitvector = a; next_free_id = none; used_ids = suc l.used_ids },
            ap (hand_out l.used_ids none l) m,
          ))

marked_bit : (x y : Bool) → (if x then false else y) ≡ true → (x ≡ false) × (y ≡ true)
marked_bit true y h = absurd (ground (arith, h))
marked_bit false y h = (refl, h)

-- An id that is in use can be taken back with li_idlist_put: it is free then, and no other id has
-- changed.
pub idlist_put-idlist_is_used :
    (l : IdList) (id : ℕ)
    → idlist_is_used l id ≡ true
    → (l' : IdList) × (idlist_put l id ≡ some l')
      × (idlist_is_used l' id ≡ false)
      × ((j : ℕ) → (j == id) ≡ false → idlist_is_used l' j ≡ idlist_is_used l j)
unfolding idlist_put clear_bit idlist_is_used
idlist_put-idlist_is_used l id h =
    let (g, b) = marked_bit (leb l.bitvector.len (id / 64)) (l.bitvector.bit id) h in
    let lt : ltb (id / 64) l.bitvector.len ≡ true = ground (arith, g) in
    let used = (l.used_ids + 4294967295) % 4294967296 in
    let a : BitVector = record l.bitvector { bit = set_bit l.bitvector.bit id false } in
    (
      record l {
        bitvector = a;
        used_ids = used;
        next_free_id = if is_lower id l.next_free_id used then some id else l.next_free_id;
      },
      rw (idlist_put, clear_bit, lt, b),
      rw (idlist_is_used, g, ==_refl id),
      λ j n. rw n,
    )
