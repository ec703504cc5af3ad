-- ===== src/Ids/Stuck.antt =====
-- Where the search for a free bit begins too high.
use lighttpd.Prelude.{
  ℕ, zero, suc, ◌+◌, ◌-◌, ◌<◌, ◌≤◌, ◌≡◌, sym, ap, ◌∙◌, Bool, true, false, not, inl, inr, Option,
  none, some, arith, Bool-cases, ==_iff, leb, ◌==◌,
}
use lighttpd.Ids.IdList.{IdList, all_set, word, find_word, hand_out_bit, get_from_word, idlist_get}

-- What the documentation of g_bit_nth_lsf says: without a set bit from `start` on there is none.
abbrev pub FindsNone : ((ℕ → Bool) → ℕ → Option ℕ) → Type 0
FindsNone bit_nth_lsf =
    (mask : ℕ → Bool) (start : ℕ)
    → ((b : ℕ) → start ≤ b → b < 64 → mask b ≡ false)
    → bit_nth_lsf mask start ≡ none

all_set_at : (n b : ℕ) (w : ℕ → Bool) → b < n → w b ≡ false → all_set n w ≡ false
unfolding all_set
all_set_at zero b w h e = absurd (omega arith)
all_set_at (suc n) b w h e = elim (Bool-cases (w n)) [
  | inr f ↦ rw f
  | inl f ↦ elim (Bool-cases (b == n)) [
    | inl d ↦ rw (sym (ap w ((==_iff b n).0 d)) ∙ e)
    | inr d ↦ rw f (all_set_at n b w (ground (arith, h, d)) e)
  ]
]

-- If 64 is the next free id, and the other ids of its word are all in use, li_idlist_get does not
-- find it: an assertion fails.
pub idlist_get_stuck :
    (bit_nth_lsf : (ℕ → Bool) → ℕ → Option ℕ) (l : IdList)
    → FindsNone bit_nth_lsf
    → l.used_ids < l.max_ids
    → l.next_free_id ≡ some 64
    → 1 < l.bitvector.len
    → l.bitvector.bit 64 ≡ false
    → ((b : ℕ) → 0 < b → b < 64 → l.bitvector.bit (64 + b) ≡ true)
    → idlist_get bit_nth_lsf l ≡ none
unfolding idlist_get get_from_word find_word
idlist_get_stuck nth l n u f len free full =
    let g : leb l.max_ids l.used_ids ≡ false = ground (arith, u) in
    let a = l.bitvector in
    let some_free = all_set_at 64 0 (word a 1) (omega arith) free in
    let found : find_word a (suc (a.len - 2)) 1 ≡ 1 = rw some_free in
    let steps : a.len - 1 ≡ suc (a.len - 2) = omega (arith, len) in
    let inside : (1 == a.len) ≡ false = ground (arith, len) in
    let none_found = n (λ b. not (word a 1 b)) 1 (λ b p q. ap not (full b p q)) in
    rw (g, f)
      (ap (get_from_word nth l 64) (ap (λ k. find_word a k 1) steps ∙ found)
        ∙ rw inside (ap (hand_out_bit nth l 1) none_found))
