-- ===== src/Radix/Remove.antt =====
-- `li_radixtree_remove`, in one word and beyond.
use lighttpd.Prelude.{
  ℕ, ◌≤◌, ◌<◌, ◌≡◌, refl, ap, subst, ◌∙◌, Bool, true, false, not, ◌||◌, Bool-cases, inl, inr,
  Option, none, some, Bytes, List, ◌∷◌, arith, length, ltb, ◌==◌,
}
use lighttpd.Radix.Word.{
  Word, and_bits, rdx_mask, get_bit, same_word, same_word_refl, and_bits-ones, ones_last, get_input,
}
use lighttpd.Radix.Tree.{
  Node, null, node, step, remove_step, matches, chain, removed, remove_node, remove, insert_node,
  insert, find_exact, lookup_exact,
}
use lighttpd.Radix.Insert.{IsInput, find_exact-chain}
use lighttpd.Radix.Exact.{get_input-IsInput}

remove_step_inside :
    (input : List Word) (bits w : ℕ) → w < 32 → remove_step input bits w ≡ step input bits w
remove_step_inside input bits w h = elim (Bool-cases (get_bit (rdx_mask w) 31)) [
  | inl e ↦ absurd (omega (arith, ones_last 31 w e))
  | inr e ↦ rw e
]

step_bits : (input : List Word) (bits w : ℕ) → bits ≤ 32 → (step input bits w).bits ≤ 32
step_bits input bits w h = elim (Bool-cases (get_bit (rdx_mask w) 31)) [
  | inl e ↦ rw e (omega arith)
  | inr e ↦ rw e h
]

not_or : (a b : Bool) → (a || b) ≡ false → a ≡ false
not_or true b e = cc
not_or false b e = refl

removed_data :
    (key : Word) (width : ℕ) (value : Option ℕ) (b : Bool) (other : Node) (r : Node × Option ℕ)
    → (removed key width value b other r).1 ≡ r.1
unfolding removed
removed_data key width value b other (child, none) = refl
removed_data key width value b other (child, some d) = refl

removed_node :
    (t : Node) (input : List Word) (bits : ℕ)
    → bits ≤ 32
    → (remove_node t input bits).1 ≡ find_exact t input bits
unfolding remove_node find_exact
removed_node null input bits h = refl
removed_node (node key width value right left) input bits h =
    elim (Bool-cases (ltb bits width || not (matches input key width))) [
      | inl miss ↦ rw miss
      | inr hit ↦ elim (Bool-cases (width == bits)) [
        | inl e ↦ rw (hit, e)
        | inr ne ↦
            let lt : width < bits =
              ground (arith, not_or (ltb bits width) (not (matches input key width)) hit, ne) in
            let s = step input bits width in
            let same = remove_step_inside input bits width (omega (arith, lt)) in
            elim (Bool-cases s.to_right) [
              | inl r ↦
                  rw (hit, ne, same, r)
                    (removed_data key width value true left (remove_node right s.input s.bits)
                      ∙ removed_node right s.input s.bits (step_bits input bits width h))
              | inr r ↦
                  rw (hit, ne, same, r)
                    (removed_data key width value false right (remove_node left s.input s.bits)
                      ∙ removed_node left s.input s.bits (step_bits input bits width h))
            ]
      ]
    ]

remove_chain :
    (v w : Word) (ws : List Word) (bits d : ℕ)
    → length v ≡ 32
    → 32 < bits
    → get_bit v 0 ≡ not (get_bit w 0)
    → let t = chain (v ∷ w ∷ ws) bits d in remove_node t (v ∷ w ∷ ws) bits ≡ (t, none)
unfolding chain remove_node removed
remove_chain v w ws bits d l h e =
    let m : same_word (and_bits v (rdx_mask 32)) v ≡ true =
      ap (λ a. same_word a v) (and_bits-ones 32 v l) ∙ same_word_refl v in
    let a : ltb 32 bits ≡ true = ground arith in
    let b : ltb bits 32 ≡ false = ground arith in
    let c : (32 == bits) ≡ false = ground arith in
    elim (Bool-cases (get_bit w 0)) [
      | inl f ↦ rw (a, f, b, m, c, e, f)
      | inr f ↦ rw (a, f, b, m, c, e, f)
    ]

-- The data that `li_radixtree_remove` returns for a key of at most 32 bits are those that
-- `li_radixtree_lookup_exact` finds for it, in every tree.
pub remove-lookup_exact :
    (t : Node) (key : Bytes) (bits : ℕ)
    → bits ≤ 32
    → (remove t key bits).1 ≡ lookup_exact t key bits
unfolding remove lookup_exact
remove-lookup_exact t key bits h = removed_node t (get_input key bits) bits h

-- The bug: where a key has more than 32 bits, and the first bit of its second word is not that of
-- its first, `li_radixtree_remove` does not find it in the tree that holds this key alone, and
-- changes nothing; `li_radixtree_lookup_exact` finds it.
pub remove-misses :
    (key : Bytes) (bits d : ℕ) (v w : Word) (ws : List Word)
    → get_input key bits ≡ v ∷ w ∷ ws
    → 32 < bits
    → get_bit v 0 ≡ not (get_bit w 0)
    → (t : Node) × (insert null key bits (some d) ≡ some (t, none))
      × (lookup_exact t key bits ≡ some d)
      × (remove t key bits ≡ (t, none))
unfolding insert insert_node lookup_exact remove
remove-misses key bits d v w ws e h g =
    let i : IsInput (get_input key bits) bits = get_input-IsInput key bits in
    let j : IsInput (v ∷ w ∷ ws) bits = subst (λ x. IsInput x bits) e i in
    (
      chain (get_input key bits) bits d,
      refl,
      find_exact-chain (get_input key bits) bits d i,
      rw e (remove_chain v w ws bits d j.words.0 h g),
    )
