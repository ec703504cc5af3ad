-- ===== src/Ids/Tests.antt =====
-- A list of 128 ids of which 64 has been taken back, and shorter ones.
use lighttpd.Prelude.{
  ℕ, zero, suc, ◌+◌, ◌-◌, ◌<◌, ◌≤◌, ◌≡◌, refl, Bool, true, false, not, ◌&&◌, Option, none, some,
  arith, ltb, ◌==◌, if◌then◌else◌,
}
use lighttpd.Ids.IdList.{IdList, idlist_get, idlist_is_used, idlist_put}
use lighttpd.Ids.Laws.{IsFresh, idlist_get-IsFresh, idlist_put-idlist_is_used}
use lighttpd.Ids.Stuck.{FindsNone, idlist_get_stuck}

first_set : ℕ → (ℕ → Bool) → ℕ → Option ℕ
first_set zero mask b = none
first_set (suc n) mask b = let rest = first_set n mask (suc b) in if mask b then some b else rest

-- `g_bit_nth_lsf(mask, start - 1)` on 64 bits
bit_nth_lsf : (ℕ → Bool) → ℕ → Option ℕ
unfolding first_set
bit_nth_lsf mask start = first_set (64 - start) mask start

first_set-none :
    (n : ℕ) (mask : ℕ → Bool) (start : ℕ)
    → ((b : ℕ) → start ≤ b → b < start + n → mask b ≡ false)
    → first_set n mask start ≡ none
unfolding first_set
first_set-none zero mask start h = refl
first_set-none (suc n) mask start h =
    rw (h start (omega arith) (omega arith))
      (first_set-none n mask (suc start) (λ b p q. h b (omega arith) (omega arith)))

bit_nth_lsf-FindsNone : FindsNone bit_nth_lsf
unfolding bit_nth_lsf
bit_nth_lsf-FindsNone mask start h =
    first_set-none (64 - start) mask start (λ b p q. h b p (omega arith))

abbrev holed : IdList
holed = record {
  bitvector = record { len = 2; bit = λ i. not (i == 64) };
  max_ids = 200;
  next_free_id = some 64;
  used_ids = 127;
}

holed_full : (b : ℕ) → 0 < b → b < 64 → holed.bitvector.bit (64 + b) ≡ true
holed_full b p q = ground (arith, p)

idlist_get_stuck_example : idlist_get bit_nth_lsf holed ≡ none
idlist_get_stuck_example =
    idlist_get_stuck bit_nth_lsf holed bit_nth_lsf-FindsNone (omega arith) refl (omega arith) refl
      holed_full

-- Of the ids 0 to 4, 2 is free.
abbrev small : IdList
small = record {
  bitvector = record { len = 1; bit = λ i. ltb i 5 && not (i == 2) };
  max_ids = 200;
  next_free_id = some 1;
  used_ids = 4;
}

idlist_get-IsFresh_example : IsFresh small (idlist_get bit_nth_lsf small)
idlist_get-IsFresh_example = idlist_get-IsFresh bit_nth_lsf small

abbrev got : Option (Option ℕ × IdList) → Option ℕ
got none = none
got (some (id, l)) = id

small-got : got (idlist_get bit_nth_lsf small) ≡ some 2
unfolding idlist_get bit_nth_lsf
small-got = refl

idlist_put-idlist_is_used_example :
    (l' : IdList) × (idlist_put small 3 ≡ some l')
    × (idlist_is_used l' 3 ≡ false)
    × ((j : ℕ) → (j == 3) ≡ false → idlist_is_used l' j ≡ idlist_is_used small j)
unfolding idlist_is_used
idlist_put-idlist_is_used_example = idlist_put-idlist_is_used small 3 refl
