-- ===== src/Radix/Others.antt =====
-- `li_radixtree_insert` leaves the other keys alone.
pub mod Split
use lighttpd.Prelude.{
  ltb→lt, lt→ltb, ℕ, zero, suc, ◌+◌, ◌-◌, ◌≤◌, ◌<◌, ◌≡◌, refl, sym, ap, subst, ◌∙◌, Bool, true,
  false, not, ◌&&◌, ◌||◌, ◌⊎◌, Bool-cases, ==_iff, inl, inr, Option, none, some, Bytes, List, [],
  ◌∷◌, arith, ltb, ◌==◌, if◌then◌else◌,
}
use lighttpd.Radix.Word.{
  Word, and_bits, rdx_mask, get_bit, same_word, same_word_refl, same_word→eq, and_bits-ones,
}
use lighttpd.Radix.Tree.{
  Node, null, node, current, behind, step, matches, branch, chain, find_exact,
}
use lighttpd.Radix.Insert.{IsInput, find_exact-branch, next-IsInput, length-current}
use lighttpd.Radix.Split.{find_exact-here}

-- Two keys have the same number of bits, and agree in these.
unfoldable pub same_key : List Word → ℕ → List Word → ℕ → Bool
same_key [] bits input' bits' = bits == bits'
same_key (w ∷ ws) bits input' bits' =
    let rest = same_key ws (bits - 32) (behind input') (bits' - 32) in
    if ltb 32 bits
    then ltb 32 bits' && (same_word w (current input') && rest)
    else (bits == bits')
      && same_word (and_bits w (rdx_mask bits)) (and_bits (current input') (rdx_mask bits))

-- A key does not match a node, ends at it, or goes on below it.
abbrev pub Meets : Word → ℕ → List Word → ℕ → Type 0
Meets key width input bits =
    ((ltb bits width || not (matches input key width)) ≡ true)
    ⊎ ((matches input key width ≡ true) × ((width ≡ bits) ⊎ (width < bits)))

pub meets : (key : Word) (width : ℕ) (input : List Word) (bits : ℕ) → Meets key width input bits
meets key width input bits = elim (Bool-cases (matches input key width)) [
  | inr e ↦ inl (rw e (or_true (ltb bits width)))
  | inl e ↦ elim (Bool-cases (ltb bits width)) [
    | inl f ↦ inl (rw f)
    | inr f ↦ elim (Bool-cases (width == bits)) [
      | inl g ↦ inr (e, inl ((==_iff width bits).0 g))
      | inr g ↦ inr (e, inr (ground (arith, f, g)))
    ]
  ]
]
  where
    or_true : (a : Bool) → (a || true) ≡ true
    or_true true = refl
    or_true false = refl

pub side : (x b : Bool) → (x ≡ b) ⊎ (x ≡ not b)
side true true = inl refl
side true false = inr refl
side false true = inr refl
side false false = inl refl

pub find_exact-miss :
    (key : Word) (width : ℕ) (value : Option ℕ) (b : Bool) (child other : Node) (input : List Word)
    (bits : ℕ)
    → (ltb bits width || not (matches input key width)) ≡ true
    → find_exact (branch key width value b child other) input bits ≡ none
unfolding find_exact
find_exact-miss key width value true child other input bits miss = rw miss
find_exact-miss key width value false child other input bits miss = rw miss

pub find_exact-off :
    (key : Word) (width : ℕ) (value : Option ℕ) (b : Bool) (child other : Node) (input : List Word)
    (bits : ℕ)
    → matches input key width ≡ true
    → width < bits
    → (step input bits width).to_right ≡ not b
    → find_exact (branch key width value b child other) input bits
      ≡ find_exact other (step input bits width).input (step input bits width).bits
find_exact-off key width value true child other input bits m lt r =
    find_exact-branch key width value false other child input bits m lt r
find_exact-off key width value false child other input bits m lt r =
    find_exact-branch key width value true other child input bits m lt r

pub find_null : (input : List Word) (bits : ℕ) → find_exact null input bits ≡ none
unfolding find_exact
find_null input bits = refl

and_false : (a b c : Bool) → a ≡ true → b ≡ true → (a && (b && c)) ≡ false → c ≡ false
and_false true true c d e f = f
and_false true false c d e f = cc
and_false false b c d e f = cc

-- The two cases of the comparison, as equations.
pub same_key_more :
    (w : Word) (ws input' : List Word) (bits bits' : ℕ)
    → ltb 32 bits ≡ true
    → same_key (w ∷ ws) bits input' bits' ≡ (
        ltb 32 bits'
        && (same_word w (current input') && same_key ws (bits - 32) (behind input') (bits' - 32)))
unfolding same_key
same_key_more w ws input' bits bits' h = rw h

pub same_key_last :
    (w : Word) (ws input' : List Word) (bits bits' : ℕ)
    → ltb 32 bits ≡ false
    → same_key (w ∷ ws) bits input' bits' ≡ (
        (bits == bits')
        && same_word (and_bits w (rdx_mask bits)) (and_bits (current input') (rdx_mask bits)))
unfolding same_key
same_key_last w ws input' bits bits' h = rw h

-- A full word that matches is the same word.
pub whole_word :
    (w : Word) (input' : List Word) (bits' : ℕ)
    → IsInput input' bits'
    → matches input' w 32 ≡ true
    → same_word w (current input') ≡ true
whole_word w input' bits' i m =
    let e : current input' ≡ w =
      sym (and_bits-ones 32 (current input') (length-current input' bits' i))
      ∙ same_word→eq (and_bits (current input') (rdx_mask 32)) w m in
    rw e (same_word_refl w)

-- No other key ends in the chain of nodes for a key.
pub find_exact-chain_other :
    (input : List Word) (bits d : ℕ) (input' : List Word) (bits' : ℕ)
    → IsInput input bits
    → IsInput input' bits'
    → same_key input bits input' bits' ≡ false
    → find_exact (chain input bits d) input' bits' ≡ none
unfolding chain
find_exact-chain_other [] bits d input' bits' i j e = absurd (omega (arith, i.one))
find_exact-chain_other (w ∷ ws) bits d input' bits' i j e = elim (Bool-cases (ltb 32 bits)) [
  | inl more ↦
      let b = get_bit (current ws) 0 in
      let rest = chain ws (bits - 32) d in
      rw more (elim (meets w 32 input' bits') [
        | inl miss ↦ find_exact-miss w 32 none b rest null input' bits' miss
        | inr (m, inl at) ↦ find_exact-here w 32 none b rest null input' bits' m at
        | inr (m, inr lt) ↦ elim (side (step input' bits' 32).to_right b) [
          | inl on ↦
              find_exact-branch w 32 none b rest null input' bits' m lt on
              ∙ find_exact-chain_other ws (bits - 32) d (behind input') (bits' - 32)
                  (next-IsInput (w ∷ ws) bits i (ltb→lt 32 bits more))
                  (next-IsInput input' bits' j lt)
                  (and_false (ltb 32 bits') (same_word w (current input')) _ (lt→ltb 32 bits' lt)
                    (whole_word w input' bits' j m)
                    (sym (same_key_more w ws input' bits bits' more) ∙ e))
          | inr off ↦
              find_exact-off w 32 none b rest null input' bits' m lt off
              ∙ find_null (behind input') (bits' - 32)
        ]
      ])
  | inr last ↦
      let key = and_bits w (rdx_mask bits) in
      let s = step input' bits' bits in
      rw last (elim (meets key bits input' bits') [
        | inl miss ↦ find_exact-miss key bits (some d) true null null input' bits' miss
        | inr (m, inl at) ↦
            let f = same_word→eq (and_bits (current input') (rdx_mask bits)) key m in
            let g : (bits == bits') ≡ true = (==_iff bits bits').1 at in
            let yes : same_key (w ∷ ws) bits input' bits' ≡ true =
              same_key_last w ws input' bits bits' last ∙ rw (g, f) (same_word_refl key) in
            absurd (cc (yes, e))
        | inr (m, inr lt) ↦ elim (side s.to_right true) [
          | inl on ↦
              find_exact-branch key bits (some d) true null null input' bits' m lt on
              ∙ find_null s.input s.bits
          | inr off ↦
              find_exact-off key bits (some d) true null null input' bits' m lt off
              ∙ find_null s.input s.bits
        ]
      ])
]
