-- ===== src/Radix/Others/Split.antt =====
-- Splitting a node leaves the other keys alone.
use lighttpd.Prelude.{
  ℕ, ◌≤◌, ◌<◌, ◌≡◌, refl, sym, ap, subst, ◌∙◌, Bool, true, false, not, ◌||◌, Bool-cases, ==_iff,
  inl, inr, Option, none, some, List, [], ◌∷◌, arith, ltb, ◌==◌, if◌then◌else◌,
}
use lighttpd.Radix.Word.{
  Word, and_bits, rdx_mask, get_bit, same_word, same_word_refl, same_word→eq, and_bits_shorter,
  get_bit-and_bits,
}
use lighttpd.Radix.Tree.{Node, null, node, current, step, matches, chain, split_node, find_exact}
use lighttpd.Radix.Insert.{IsInput, find_exact-branch}
use lighttpd.Radix.Split.{find_exact-here, step_inside}
use lighttpd.Radix.Others.{
  same_key, same_key_last, meets, side, find_exact-miss, find_exact-off, find_null,
  find_exact-chain_other,
}

module _ (key : Word) (width : ℕ) (value : Option ℕ) (right left : Node) (w : ℕ)
    (input input' : List Word) (bits bits' d : ℕ) (low : w < 32) (shorter : w < width)
    (wide : width ≤ 32) (i : IsInput input bits) (j : IsInput input' bits')
    (same : same_word (and_bits (current input) (rdx_mask w)) (and_bits key (rdx_mask w)) ≡ true)
    (other : same_key input bits input' bits' ≡ false) where
  abbrev old : Node
  old = node key width value right left

  abbrev prefix : Word
  prefix = and_bits (current input) (rdx_mask w)

  old_short : bits' < width → find_exact old input' bits' ≡ none
  old_short h =
      let e : ltb bits' width ≡ true = ground arith in
      find_exact-miss key width value true right left input' bits' (rw e)

  old_differs : matches input' key width ≡ false → find_exact old input' bits' ≡ none
  old_differs e = find_exact-miss key width value true right left input' bits' (rw e (or_true _))
    where
      or_true : (a : Bool) → (a || true) ≡ true
      or_true true = refl
      or_true false = refl

  -- A key that matches the old node matches the new one above it.
  prefix-matches : matches input' key width ≡ true → matches input' prefix w ≡ true
  prefix-matches e =
      let a = same_word→eq (and_bits (current input') (rdx_mask width)) key e in
      let b = same_word→eq prefix (and_bits key (rdx_mask w)) same in
      let c = and_bits_shorter 32 w width (current input') (omega (arith, shorter)) in
      let f : and_bits (current input') (rdx_mask w) ≡ prefix =
        sym c ∙ ap (λ x. and_bits x (rdx_mask w)) a ∙ sym b in
      rw f (same_word_refl prefix)

  old_miss :
      (ltb bits' w || not (matches input' prefix w)) ≡ true → find_exact old input' bits' ≡ none
  old_miss miss = elim (Bool-cases (ltb bits' w)) [
    | inl f ↦ old_short (ground (arith, f, shorter))
    | inr f ↦ elim (Bool-cases (matches input' key width)) [
      | inl e ↦ absurd (contra (ltb bits' w) (matches input' prefix w) f (prefix-matches e) miss)
      | inr e ↦ old_differs e
    ]
  ]
    where
      contra : (a b : Bool) → a ≡ false → b ≡ true → (a || not b) ≡ true → ⊥
      contra true b f g h = cc
      contra false true f g h = cc
      contra false false f g h = cc

  -- A key that turns off at bit w is not below the old node.
  old_off : get_bit (current input') w ≡ not (get_bit key w) → find_exact old input' bits' ≡ none
  old_off e = elim (Bool-cases (matches input' key width)) [
    | inr f ↦ old_differs f
    | inl f ↦
        let a = same_word→eq (and_bits (current input') (rdx_mask width)) key f in
        let b : get_bit (current input') w ≡ get_bit key w =
          sym (get_bit-and_bits 32 width w (current input') shorter wide)
          ∙ ap (λ x. get_bit x w) a in
        absurd (not_same (get_bit key w) (sym b ∙ e))
  ]
    where
      not_same : (b : Bool) → b ≡ not b → ⊥
      not_same true h = cc
      not_same false h = cc

  -- Another key does not end where the inserted one does.
  not_here : (w == bits) ≡ true → w ≡ bits' → matches input' prefix w ≡ true → ⊥
  not_here e at m = go input i other prefix_eq
    where
      prefix_eq : and_bits (current input') (rdx_mask w) ≡ prefix
      prefix_eq = same_word→eq (and_bits (current input') (rdx_mask w)) prefix m

      at_bits : w ≡ bits
      at_bits = (==_iff w bits).0 e

      go :
          (input : List Word)
          → IsInput input bits
          → same_key input bits input' bits' ≡ false
          → and_bits (current input') (rdx_mask w) ≡ and_bits (current input) (rdx_mask w)
          → ⊥
      go [] i f g = omega (arith, i.one)
      go (c ∷ cs) i f g =
          let last : ltb 32 bits ≡ false = ground (arith, low, at_bits) in
          let eq : (bits == bits') ≡ true = (==_iff bits bits').1 (sym at_bits ∙ at) in
          let h : and_bits (current input') (rdx_mask bits) ≡ and_bits c (rdx_mask bits) =
            subst (λ x. and_bits (current input') (rdx_mask x) ≡ and_bits c (rdx_mask x)) at_bits
              g in
          let yes : same_key (c ∷ cs) bits input' bits' ≡ true =
            same_key_last c cs input' bits bits' last
            ∙ rw (eq, h) (same_word_refl (and_bits c (rdx_mask bits))) in
          cc (yes, f)

  pub split_node_other :
      find_exact (split_node w key old input bits d) input' bits' ≡ find_exact old input' bits'
  unfolding split_node
  split_node_other =
      let v = if w == bits then some d else none in
      let b = get_bit key w in
      let rest = if w == bits then null else chain input bits d in
      let inside = step_inside input' bits' w low in
      elim (meets prefix w input' bits') [
        | inl miss ↦ find_exact-miss prefix w v b old rest input' bits' miss ∙ sym (old_miss miss)
        | inr (m, inl at) ↦
            find_exact-here prefix w v b old rest input' bits' m at
            ∙ elim (Bool-cases (w == bits)) [
              | inl e ↦ absurd (not_here e at m)
              | inr e ↦ rw e (sym (old_short (omega (arith, at, shorter))))
            ]
        | inr (m, inr lt) ↦ elim (side (step input' bits' w).to_right b) [
          | inl on ↦
              find_exact-branch prefix w v b old rest input' bits' m lt on
              ∙ ap (λ s. find_exact old s.input s.bits) inside
          | inr off ↦
              find_exact-off prefix w v b old rest input' bits' m lt off
              ∙ ap (λ s. find_exact rest s.input s.bits) inside
              ∙ nothing (w == bits)
              ∙ sym (old_off (sym (ap (λ s. s.to_right) inside) ∙ off))
        ]
      ]
    where
      nothing : (e : Bool) → find_exact (if e then null else chain input bits d) input' bits' ≡ none
      nothing true = find_null input' bits'
      nothing false = find_exact-chain_other input bits d input' bits' i j other
