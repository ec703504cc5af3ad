-- ===== src/Radix/Split.antt =====
-- Where a key leaves the tree: the node that is split.
use lighttpd.Prelude.{
  le→leb, ℕ, zero, suc, ◌≤◌, ◌<◌, ◌≡◌, refl, sym, ap, subst, ◌∙◌, Bool, true, false, not, ◌||◌, ◌⊎◌,
  Bool-cases, ==_iff, inl, inr, Option, none, some, List, arith, length, leb, ltb, ◌==◌,
  if◌then◌else◌,
}
use lighttpd.Radix.Word.{
  Word, and_bits, rdx_mask, get_bit, same_word, same_word_refl, and_bits_twice, length-and_bits,
  and_bits_zero, same_word_next, ones_last,
}
use lighttpd.Radix.Tree.{
  Node, null, node, current, step, matches, branch, chain, common, split_node, split, find_exact,
}
use lighttpd.Radix.Insert.{
  IsInput, IsNode, length-current, branch-IsNode, chain-IsNode, find_exact-branch, find_exact-chain,
}

-- The words agree in the first w bits, and w is at most m; they differ in the next bit unless w is m.
pub record Agree (cur key : Word) (m w : ℕ) : Type 0 where
  pub most : w ≤ m
  pub same : same_word (and_bits cur (rdx_mask w)) (and_bits key (rdx_mask w)) ≡ true
  pub differ : (w ≡ m) ⊎ ((w < m) × (get_bit cur w ≡ not (get_bit key w)))

module _ (cur key : Word) (c : length cur ≡ 32) (k : length key ≡ 32) where
  zero_same : same_word (and_bits cur (rdx_mask 0)) (and_bits key (rdx_mask 0)) ≡ true
  zero_same =
      subst (λ a. same_word (and_bits cur (rdx_mask 0)) a ≡ true) (and_bits_zero 32 cur key c k)
        (same_word_refl (and_bits cur (rdx_mask 0)))

  pub common-Agree : (m : ℕ) → Agree cur key m (common cur key m)
  unfolding common
  common-Agree zero = record { most = omega arith; same = zero_same; differ = inl refl }
  common-Agree (suc m) =
      let t = same_word (and_bits cur (rdx_mask (suc m))) (and_bits key (rdx_mask (suc m))) in
      elim (Bool-cases t) [
        | inl e ↦ rw e (record { most = omega arith; same = e; differ = inl refl })
        | inr e ↦
            let a = common-Agree m in
            rw e (record {
              most = omega (arith, a.most);
              same = a.same;
              differ = elim a.differ [
                | inl w ↦ inr (
                  omega (arith, w),
                  subst (λ x. get_bit cur x ≡ not (get_bit key x)) (sym w)
                      (same_word_next 32 m cur key c k
                        (subst
                          (λ x.
                            same_word (and_bits cur (rdx_mask x)) (and_bits key (rdx_mask x))
                            ≡ true)
                          w a.same)
                        e),
                )
                | inr (lt, d) ↦ inr (omega (arith, lt), d)
              ];
            })
      ]

-- What an insertion leaves behind, and what it returns: the data that the key had before.
pub record HasInserted (t : Node) (input : List Word) (bits d : ℕ) (r : Option (Node × Option ℕ))
    : Type 0 where
  pub tree : Node
  pub result : r ≡ some (tree, find_exact t input bits)
  pub found : find_exact tree input bits ≡ some d
  pub valid : IsNode tree

pub step_inside :
    (input : List Word) (bits w : ℕ)
    → w < 32
    → step input bits w
      ≡ record { input = input; bits = bits; to_right = get_bit (current input) w }
step_inside input bits w h = elim (Bool-cases (get_bit (rdx_mask w) 31)) [
  | inl e ↦ absurd (omega (arith, ones_last 31 w e))
  | inr e ↦ rw e
]

or_false : (a b : Bool) → (a || b) ≡ true → (a ≡ false) → b ≡ true
or_false true b e f = cc
or_false false b e f = e

not-true : (a : Bool) → not a ≡ true → a ≡ false
not-true true e = sym e
not-true false e = refl

module _ (key : Word) (width : ℕ) (old : Node) (input : List Word) (bits d : ℕ)
    (k : length key ≡ 32) (wide : width ≤ 32) (m : and_bits key (rdx_mask width) ≡ key)
    (i : IsInput input bits) (o : IsNode old) where
  abbrev most : ℕ
  most = if ltb bits width then bits else width

  -- The key leaves the tree inside this node, at bit w.
  pub leaves :
      (w : ℕ)
      → (ltb bits width || not (matches input key width)) ≡ true
      → Agree (current input) key most w
      → (w < 32)
        × (w < width)
        × (most ≤ 32)
        × (w ≤ bits)
        × ((w ≡ bits) ⊎ (get_bit (current input) w ≡ not (get_bit key w)))
  leaves w miss a = elim (Bool-cases (ltb bits width)) [
    | inl short ↦ elim a.differ [
      | inl e ↦ (
        ground (arith, a.most, short),
        ground (arith, a.most, short),
        ground (arith, short),
        ground (arith, a.most, short),
        inl (ground (arith, short, e)),
      )
      | inr (lt, e) ↦ (
        ground (arith, a.most, short),
        ground (arith, a.most, short),
        ground (arith, short),
        ground (arith, a.most, short),
        inr e,
      )
    ]
    | inr long ↦ elim a.differ [
      | inl e ↦
          let w_is : w ≡ width = ground (arith, long, e) in
          let same : same_word (and_bits (current input) (rdx_mask width))
                (and_bits key (rdx_mask width))
              ≡ true =
            subst
              (λ x.
                same_word (and_bits (current input) (rdx_mask x)) (and_bits key (rdx_mask x))
                ≡ true)
              w_is a.same in
          let no : matches input key width ≡ false =
            not-true (matches input key width) (or_false (ltb bits width) _ miss long) in
          let yes : matches input key width ≡ true =
            subst (λ x. same_word (and_bits (current input) (rdx_mask width)) x ≡ true) m same in
          absurd (cc (no, yes))
      | inr (lt, e) ↦ (
        ground (arith, lt, long),
        ground (arith, lt, long),
        ground (arith, long),
        ground (arith, a.most, long),
        inr e,
      )
    ]
  ]

branch-not :
    (key : Word) (width : ℕ) (value : Option ℕ) (b : Bool) (child other : Node)
    → branch key width value b child other ≡ branch key width value (not b) other child
branch-not key width value true child other = refl
branch-not key width value false child other = refl

pub find_exact-here :
    (key : Word) (width : ℕ) (value : Option ℕ) (b : Bool) (child other : Node) (input : List Word)
    (bits : ℕ)
    → matches input key width ≡ true
    → width ≡ bits
    → find_exact (branch key width value b child other) input bits ≡ value
unfolding find_exact
find_exact-here key width value true child other input bits m e =
    let a : ltb bits width ≡ false = ground arith in
    let b : (width == bits) ≡ true = ground arith in rw (a, m, b)
find_exact-here key width value false child other input bits m e =
    let a : ltb bits width ≡ false = ground arith in
    let b : (width == bits) ≡ true = ground arith in rw (a, m, b)

module _ (key : Word) (w : ℕ) (old : Node) (input : List Word) (bits d : ℕ) (i : IsInput input bits)
    (o : IsNode old) (low : w < 32) (le : w ≤ bits) where
  abbrev prefix : Word
  prefix = and_bits (current input) (rdx_mask w)

  split_node-found :
      (w ≡ bits) ⊎ (get_bit (current input) w ≡ not (get_bit key w))
      → find_exact (split_node w key old input bits d) input bits ≡ some d
  unfolding split_node
  split_node-found t = elim (Bool-cases (w == bits)) [
    | inl e ↦ rw e (
        find_exact-here prefix w (some d) (get_bit key w) old null input bits
          (same_word_refl prefix) ((==_iff w bits).0 e))
    | inr ne ↦
        let lt : w < bits = ground arith in
        let go : get_bit (current input) w ≡ not (get_bit key w) = elim t [
          | inl e ↦ absurd (omega (arith, e, lt))
          | inr g ↦ g
        ] in
        let s = step_inside input bits w low in
        rw (ne, branch-not prefix w none (get_bit key w) old (chain input bits d))
          (find_exact-branch prefix w none (not (get_bit key w)) (chain input bits d) old input bits
              (same_word_refl prefix) lt (ap (λ x. x.to_right) s ∙ go)
            ∙ ap (λ x. find_exact (chain input bits d) x.input x.bits) s
            ∙ find_exact-chain input bits d i)
  ]

  split_node-IsNode : IsNode (split_node w key old input bits d)
  unfolding split_node
  split_node-IsNode =
      branch-IsNode prefix w _ (get_bit key w) old _
        (length-and_bits 32 w (current input) (length-current input bits i)) (omega arith)
        (and_bits_twice 32 w (current input)) o (rest (w == bits))
    where
      rest : (b : Bool) → IsNode (if b then null else chain input bits d)
      rest true = omega arith
      rest false = chain-IsNode input bits d i

-- A key that a node does not match is put beside that node.
pub split-HasInserted :
    (key : Word) (width : ℕ) (value : Option ℕ) (right left : Node) (input : List Word) (bits d : ℕ)
    → IsNode (node key width value right left)
    → IsInput input bits
    → (ltb bits width || not (matches input key width)) ≡ true
    → HasInserted
        (node key width value right left)
        input
        bits
        d
        (split key width (node key width value right left) input bits d)
unfolding split find_exact
split-HasInserted key width value right left input bits d (k, wide, m, r, l) i miss =
    let t = node key width value right left in
    let w = common (current input) key (if ltb bits width then bits else width) in
    let o : IsNode t = (k, wide, m, r, l) in
    let (low, inner, top, le, turn) =
      leaves key width t input bits d k wide m i o w miss
        (common-Agree (current input) key (length-current input bits i) k _) in
    let a : leb (if ltb bits width then bits else width) 32 ≡ true = le→leb _ _ top in
    let b : leb w 31 ≡ true = le→leb _ _ (omega (arith, low)) in
    record {
      tree = split_node w key t input bits d;
      result = rw (a, b, miss);
      found = split_node-found key w t input bits d i o low le turn;
      valid = split_node-IsNode key w t input bits d i o low le;
    }
