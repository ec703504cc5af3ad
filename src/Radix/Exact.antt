-- ===== src/Radix/Exact.antt =====
-- `li_radixtree_insert` with `li_radixtree_lookup_exact`.
use lighttpd.Prelude.{
  ℕ, zero, suc, ◌+◌, ◌*◌, ◌/◌, ◌<◌, ◌≡◌, refl, sym, ap, ◌∙◌, Bool, true, false, not, ◌||◌,
  Bool-cases, ==_iff, inl, inr, Option, some, Bytes, List, [], ◌∷◌, arith, length, take, drop, ltb,
  ◌==◌, if◌then◌else◌,
}
use lighttpd.Radix.Word.{Word, read_word, read_words, get_input}
use lighttpd.Radix.Tree.{
  Node, null, node, step, matches, branch, chain, set_child, insert_node, insert, find_exact,
  lookup_exact,
}
use lighttpd.Radix.Insert.{
  AreWords, IsInput, IsNode, step-IsInput, chain-IsNode, find_exact-branch, find_exact-chain,
}
use lighttpd.Radix.Split.{HasInserted, split-HasInserted, find_exact-here}

-- The child that the search goes to is replaced.
set_child-HasInserted :
    (key : Word) (width : ℕ) (value : Option ℕ) (b : Bool) (child other : Node) (input : List Word)
    (bits d : ℕ) {r : Option (Node × Option ℕ)}
    → IsNode (branch key width value b child other)
    → matches input key width ≡ true
    → width < bits
    → (step input bits width).to_right ≡ b
    → HasInserted child (step input bits width).input (step input bits width).bits d r
    → HasInserted
        (branch key width value b child other)
        input
        bits
        d
        (set_child key width value b other r)
set_child-HasInserted key width value b child other input bits d v m lt t h = record {
  tree = branch key width value b h.tree other;
  result =
      ap (set_child key width value b other) h.result
      ∙ ap (λ x. some (branch key width value b h.tree other, x))
          (sym (find_exact-branch key width value b child other input bits m lt t));
  found = find_exact-branch key width value b h.tree other input bits m lt t ∙ h.found;
  valid = replaced b v;
}
  where
    replaced :
        (b : Bool)
        → IsNode (branch key width value b child other)
        → IsNode (branch key width value b h.tree other)
    replaced true (k, w, m, c, o) = (k, w, m, h.valid, o)
    replaced false (k, w, m, o, c) = (k, w, m, o, h.valid)

pub insert_node-HasInserted :
    (t : Node) (input : List Word) (bits d : ℕ)
    → IsNode t
    → IsInput input bits
    → HasInserted t input bits d (insert_node t input bits d)
unfolding insert_node find_exact
insert_node-HasInserted null input bits d v i = record {
  tree = chain input bits d;
  result = refl;
  found = find_exact-chain input bits d i;
  valid = chain-IsNode input bits d i;
}
insert_node-HasInserted (node key width value right left) input bits d (k, w, m, r, l) i =
    elim (Bool-cases (ltb bits width || not (matches input key width))) [
      | inl miss ↦
          rw miss (split-HasInserted key width value right left input bits d (k, w, m, r, l) i miss)
      | inr hit ↦
          let short : ltb bits width ≡ false = left_false _ _ hit in
          let same : matches input key width ≡ true = right_true _ _ hit in
          elim (Bool-cases (width == bits)) [
            | inl e ↦
                rw (hit, e)
                  (record {
                    tree = node key width (some d) right left;
                    result = rw (hit, e);
                    found =
                        find_exact-here key width (some d) true right left input bits same
                          ((==_iff width bits).0 e);
                    valid = (k, w, m, r, l);
                  })
            | inr ne ↦
                let lt : width < bits = ground (arith, short, ne) in
                let s = step input bits width in
                let j = step-IsInput input bits width i lt in
                elim (Bool-cases s.to_right) [
                  | inl g ↦
                      rw (hit, ne, g)
                        (set_child-HasInserted key width value true right left input bits d
                          (k, w, m, r, l) same lt g
                          (insert_node-HasInserted right s.input s.bits d r j))
                  | inr g ↦
                      rw (hit, ne, g)
                        (set_child-HasInserted key width value false left right input bits d
                          (k, w, m, r, l) same lt g
                          (insert_node-HasInserted left s.input s.bits d l j))
                ]
          ]
    ]
  where
    left_false : (a b : Bool) → (a || b) ≡ false → a ≡ false
    left_false true b e = cc
    left_false false b e = refl

    right_true : (a b : Bool) → (a || not b) ≡ false → b ≡ true
    right_true true b e = cc
    right_true false true e = refl
    right_true false false e = cc

length-read_word : (n : ℕ) (bs : Bytes) → length (read_word n bs) ≡ 8 * n
length-read_word zero bs = omega arith
length-read_word (suc n) [] = omega (arith, length-read_word n [])
length-read_word (suc n) (b ∷ bs) = omega (arith, length-read_word n bs)

read_words-AreWords : (n : ℕ) (bs : Bytes) → AreWords (read_words n bs)
read_words-AreWords zero bs = omega arith
read_words-AreWords (suc n) bs =
    (omega (arith, length-read_word 4 bs), read_words-AreWords n (drop 4 bs))

length-read_words : (n : ℕ) (bs : Bytes) → length (read_words n bs) ≡ n
length-read_words zero bs = refl
length-read_words (suc n) bs = ap suc (length-read_words n (drop 4 bs))

pub get_input-IsInput : (key : Bytes) (bits : ℕ) → IsInput (get_input key bits) bits
unfolding get_input
get_input-IsInput key bits = record {
  words = read_words-AreWords _ _;
  enough = ground (
    arith,
    length-read_words (if bits == 0 then 1 else (bits + 31) / 32) (take ((bits + 7) / 8) key),
  );
  one = ground (
    arith,
    length-read_words (if bits == 0 then 1 else (bits + 31) / 32) (take ((bits + 7) / 8) key),
  );
}

-- Into a tree of which every key has the bits of its width only, `li_radixtree_insert` puts data
-- under a key of any length: no assertion fails, the data that the key had before is returned,
-- `li_radixtree_lookup_exact` finds the new data, and the keys of the new tree are as before.
pub insert-lookup_exact :
    (t : Node) (key : Bytes) (bits d : ℕ)
    → IsNode t
    → (t' : Node) × (insert t key bits (some d) ≡ some (t', lookup_exact t key bits))
      × (lookup_exact t' key bits ≡ some d)
      × IsNode t'
unfolding insert lookup_exact
insert-lookup_exact t key bits d v =
    let h = insert_node-HasInserted t (get_input key bits) bits d v (get_input-IsInput key bits) in
    (h.tree, h.result, h.found, h.valid)
