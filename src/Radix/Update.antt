-- ===== src/Radix/Update.antt =====
-- `li_radixtree_insert` changes the data of one key.
use lighttpd.Prelude.{
  ℕ, ◌≤◌, ◌<◌, ◌≡◌, sym, ap, subst, ◌∙◌, Bool, true, false, not, ◌||◌, Bool-cases, ==_iff, lt→ltb,
  le→leb, inl, inr, Option, none, some, Bytes, List, [], ◌∷◌, arith, leb, ltb, ◌==◌, if◌then◌else◌,
}
use lighttpd.Radix.Word.{
  Word, and_bits, rdx_mask, get_bit, same_word, same_word_refl, same_word→eq, ones_last, get_input,
}
use lighttpd.Radix.Tree.{
  Node, null, node, current, step, matches, branch, common, split, set_child, insert_node, insert,
  find_exact, lookup_exact,
}
use lighttpd.Radix.Insert.{IsInput, IsNode, length-current, step-IsInput, find_exact-branch}
use lighttpd.Radix.Split.{find_exact-here, common-Agree, leaves}
use lighttpd.Radix.Exact.{insert_node-HasInserted, get_input-IsInput}
use lighttpd.Radix.Others.{
  same_key, same_key_more, same_key_last, whole_word, meets, side, find_exact-miss, find_exact-off,
  find_null, find_exact-chain_other,
}
use lighttpd.Radix.Others.Split.{split_node_other}

-- Below a node that two keys match, they are compared by what is left of them.
same_key-step :
    (key : Word) (width : ℕ) (input input' : List Word) (bits bits' : ℕ)
    → IsInput input bits
    → IsInput input' bits'
    → width ≤ 32
    → matches input key width ≡ true
    → matches input' key width ≡ true
    → width < bits
    → width < bits'
    → (let s = step input bits width in
        let s' = step input' bits' width in
        same_key s.input s.bits s'.input s'.bits ≡ same_key input bits input' bits')
same_key-step key width [] input' bits bits' i j wide m n lt lt' = absurd (omega (arith, i.one))
same_key-step key width (w ∷ ws) input' bits bits' i j wide m n lt lt' =
    elim (Bool-cases (get_bit (rdx_mask width) 31)) [
      | inl f ↦
          let full : width ≡ 32 = omega (arith, ones_last 31 width f) in
          let a : ltb 32 bits ≡ true = lt→ltb 32 bits (omega arith) in
          let b : ltb 32 bits' ≡ true = lt→ltb 32 bits' (omega arith) in
          let m32 : matches (w ∷ ws) key 32 ≡ true =
            subst (λ x. matches (w ∷ ws) key x ≡ true) full m in
          let n32 : matches input' key 32 ≡ true =
            subst (λ x. matches input' key x ≡ true) full n in
          let e : key ≡ w = same_word→eq key w (whole_word key (w ∷ ws) bits i m32) in
          let c : same_word w (current input') ≡ true =
            subst (λ x. same_word x (current input') ≡ true) e
              (whole_word key input' bits' j n32) in
          rw f (sym (same_key_more w ws input' bits bits' a ∙ rw (b, c)))
      | inr f ↦ rw f
    ]

-- The new tree in the result of an insertion.
abbrev pub result_tree : Option (Node × Option ℕ) → Node
result_tree none = null
result_tree (some (t, old)) = t

-- An insertion into one child, and nothing else.
set_child_other :
    (key : Word) (width : ℕ) (value : Option ℕ) (b : Bool) (child other : Node) (input' : List Word)
    (bits' : ℕ) (t : Node) (old : Option ℕ) {r : Option (Node × Option ℕ)}
    → r ≡ some (t, old)
    → (matches input' key width ≡ true
        → width < bits'
        → find_exact (result_tree r) (step input' bits' width).input (step input' bits' width).bits
          ≡ find_exact child (step input' bits' width).input (step input' bits' width).bits)
    → find_exact (result_tree (set_child key width value b other r)) input' bits'
      ≡ find_exact (branch key width value b child other) input' bits'
set_child_other key width value b child other input' bits' t old e h =
    ap (λ x. find_exact (result_tree (set_child key width value b other x)) input' bits') e
    ∙ elim (meets key width input' bits') [
      | inl miss ↦
          find_exact-miss key width value b t other input' bits' miss
          ∙ sym (find_exact-miss key width value b child other input' bits' miss)
      | inr (m, inl at) ↦
          find_exact-here key width value b t other input' bits' m at
          ∙ sym (find_exact-here key width value b child other input' bits' m at)
      | inr (m, inr lt) ↦ elim (side (step input' bits' width).to_right b) [
        | inl on ↦
            find_exact-branch key width value b t other input' bits' m lt on
            ∙ ap
                (λ x.
                  find_exact (result_tree x) (step input' bits' width).input
                    (step input' bits' width).bits)
                (sym e)
            ∙ h m lt
            ∙ sym (find_exact-branch key width value b child other input' bits' m lt on)
        | inr off ↦
            find_exact-off key width value b t other input' bits' m lt off
            ∙ sym (find_exact-off key width value b child other input' bits' m lt off)
      ]
    ]

-- New data on a node do not show at the keys that do not end there.
value_other :
    (key : Word) (width : ℕ) (v v' : Option ℕ) (child other : Node) (input' : List Word) (bits' : ℕ)
    → (matches input' key width ≡ true → width ≡ bits' → ⊥)
    → find_exact (node key width v child other) input' bits'
      ≡ find_exact (node key width v' child other) input' bits'
value_other key width v v' child other input' bits' h = elim (meets key width input' bits') [
  | inl miss ↦
      find_exact-miss key width v true child other input' bits' miss
      ∙ sym (find_exact-miss key width v' true child other input' bits' miss)
  | inr (m, inl at) ↦ absurd (h m at)
  | inr (m, inr lt) ↦ elim (side (step input' bits' width).to_right true) [
    | inl on ↦
        find_exact-branch key width v true child other input' bits' m lt on
        ∙ sym (find_exact-branch key width v' true child other input' bits' m lt on)
    | inr off ↦
        find_exact-off key width v true child other input' bits' m lt off
        ∙ sym (find_exact-off key width v' true child other input' bits' m lt off)
  ]
]

-- Keys that end at the same node are the same.
same_end :
    (key : Word) (input input' : List Word) (bits bits' : ℕ)
    → IsInput input bits
    → bits ≤ 32
    → matches input key bits ≡ true
    → matches input' key bits ≡ true
    → bits ≡ bits'
    → same_key input bits input' bits' ≡ true
same_end key [] input' bits bits' i h m n at = absurd (omega (arith, i.one))
same_end key (w ∷ ws) input' bits bits' i h m n at =
    let last : ltb 32 bits ≡ false = ground (arith, h) in
    let eq : (bits == bits') ≡ true = (==_iff bits bits').1 at in
    let a : and_bits w (rdx_mask bits) ≡ key = same_word→eq (and_bits w (rdx_mask bits)) key m in
    let b : and_bits (current input') (rdx_mask bits) ≡ key =
      same_word→eq (and_bits (current input') (rdx_mask bits)) key n in
    same_key_last w ws input' bits bits' last ∙ rw (eq, a, b) (same_word_refl key)

module _ (input' : List Word) (bits' d : ℕ) (j : IsInput input' bits') where
  split_other :
      (key : Word) (width : ℕ) (value : Option ℕ) (right left : Node) (input : List Word) (bits : ℕ)
      → IsNode (node key width value right left)
      → IsInput input bits
      → (ltb bits width || not (matches input key width)) ≡ true
      → same_key input bits input' bits' ≡ false
      → find_exact
          (result_tree (split key width (node key width value right left) input bits d))
          input'
          bits'
        ≡ find_exact (node key width value right left) input' bits'
  unfolding split
  split_other key width value right left input bits (k, wide, m, r, l) i miss other =
      let t = node key width value right left in
      let w = common (current input) key (if ltb bits width then bits else width) in
      let g = common-Agree (current input) key (length-current input bits i) k _ in
      let (low, inner, top, le, turn) =
        leaves key width t input bits d k wide m i (k, wide, m, r, l) w miss g in
      let a : leb (if ltb bits width then bits else width) 32 ≡ true = le→leb _ _ top in
      let b : leb w 31 ≡ true = le→leb _ _ (omega (arith, low)) in
      rw (a, b)
        (split_node_other key width value right left w input input' bits bits' d low inner wide i j
          g.same other)

same_place :
    (key : Word) (width : ℕ) (input input' : List Word) (bits bits' : ℕ)
    → width ≤ 32
    → IsInput input bits
    → matches input key width ≡ true
    → width ≡ bits
    → same_key input bits input' bits' ≡ false
    → matches input' key width ≡ true
    → width ≡ bits'
    → ⊥
same_place key width input input' bits bits' wide i m at other m' at' =
    let a : matches input key bits ≡ true = subst (λ x. matches input key x ≡ true) at m in
    let b : matches input' key bits ≡ true = subst (λ x. matches input' key x ≡ true) at m' in
    let yes = same_end key input input' bits bits' i (omega (arith, at)) a b (sym at ∙ at') in
    cc (yes, other)

insert_node_other :
    (t : Node) (input : List Word) (bits d : ℕ) (input' : List Word) (bits' : ℕ)
    → IsNode t
    → IsInput input bits
    → IsInput input' bits'
    → same_key input bits input' bits' ≡ false
    → find_exact (result_tree (insert_node t input bits d)) input' bits' ≡ find_exact t input' bits'
unfolding insert_node
insert_node_other null input bits d input' bits' v i j other =
    find_exact-chain_other input bits d input' bits' i j other ∙ sym (find_null input' bits')
insert_node_other (node key width value right left) input bits d input' bits' (k, wide, m, r, l) i j
      other =
    elim (meets key width input bits) [
      | inl miss ↦ rw miss (
          split_other input' bits' d j key width value right left input bits (k, wide, m, r, l) i
            miss other)
      | inr (h, inl at) ↦
          let a : ltb bits width ≡ false = ground (arith, at) in
          let b : (width == bits) ≡ true = (==_iff width bits).1 at in
          rw (a, h, b)
            (value_other key width (some d) value right left input' bits'
              (same_place key width input input' bits bits' wide i h at other))
      | inr (h, inr lt) ↦
          let a : ltb bits width ≡ false = ground (arith, lt) in
          let b : (width == bits) ≡ false = ground (arith, lt) in
          let s = step input bits width in
          let s' = step input' bits' width in
          let i' = step-IsInput input bits width i lt in
          let rest = same_key-step key width input input' bits bits' i j wide h in
          elim (side s.to_right true) [
            | inl on ↦
                let g = insert_node-HasInserted right s.input s.bits d r i' in
                rw (a, h, b, on)
                  (set_child_other key width value true right left input' bits' g.tree _ g.result
                    (λ h' lt'.
                      insert_node_other right s.input s.bits d s'.input s'.bits r i'
                        (step-IsInput input' bits' width j lt') (rest h' lt lt' ∙ other)))
            | inr on ↦
                let g = insert_node-HasInserted left s.input s.bits d l i' in
                rw (a, h, b, on)
                  (set_child_other key width value false left right input' bits' g.tree _ g.result
                    (λ h' lt'.
                      insert_node_other left s.input s.bits d s'.input s'.bits l i'
                        (step-IsInput input' bits' width j lt') (rest h' lt lt' ∙ other)))
          ]
    ]

-- In a tree of which every key has the bits of its width only, what `li_radixtree_lookup_exact` finds
-- for a key is not changed when `li_radixtree_insert` succeeds for another key, that is, one with
-- another number of bits or with other bits.
pub insert-lookup_exact_other :
    (t t' : Node) (key : Bytes) (bits d : ℕ) (old : Option ℕ) (key' : Bytes) (bits' : ℕ)
    → IsNode t
    → insert t key bits (some d) ≡ some (t', old)
    → same_key (get_input key bits) bits (get_input key' bits') bits' ≡ false
    → lookup_exact t' key' bits' ≡ lookup_exact t key' bits'
unfolding insert lookup_exact
insert-lookup_exact_other t t' key bits d old key' bits' v e other =
    ap (λ x. find_exact (result_tree x) (get_input key' bits') bits') (sym e)
    ∙ insert_node_other t (get_input key bits) bits d (get_input key' bits') bits' v
        (get_input-IsInput key bits) (get_input-IsInput key' bits') other
