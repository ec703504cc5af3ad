-- ===== src/Radix/Insert.antt =====
-- `li_radixtree_insert` against `li_radixtree_lookup_exact`.
use lighttpd.Prelude.{
  ℕ, ◌-◌, ◌*◌, ◌≤◌, ◌<◌, ◌≡◌, refl, ap, ◌∙◌, Bool, true, false, Bool-cases, inl, inr, Option, none,
  some, List, [], ◌∷◌, arith, length, ltb, ◌==◌,
}
use lighttpd.Radix.Word.{
  Word, and_bits, rdx_mask, get_bit, same_word, same_word_refl, and_bits-ones, and_bits_twice,
  length-and_bits, ones_last,
}
use lighttpd.Radix.Tree.{
  Node, null, node, current, behind, step, matches, branch, chain, find_exact,
}

abbrev pub AreWords : List Word → Type 0
AreWords [] = 0 ≤ 0
AreWords (w ∷ ws) = (length w ≡ 32) × AreWords ws

-- Enough words for a key of that many bits.
pub record IsInput (input : List Word) (bits : ℕ) : Type 0 where
  pub words : AreWords input
  pub enough : bits ≤ 32 * length input
  pub one : 0 < length input

-- Every key has the bits of its width only.
abbrev pub IsNode : Node → Type 0
IsNode null = 0 ≤ 0
IsNode (node key width value right left) =
    (length key ≡ 32)
    × (width ≤ 32)
    × (and_bits key (rdx_mask width) ≡ key)
    × IsNode right
    × IsNode left

pub length-current :
    (input : List Word) (bits : ℕ) → IsInput input bits → length (current input) ≡ 32
length-current [] bits i = absurd (omega (arith, i.one))
length-current (w ∷ ws) bits i = i.words.0

behind-AreWords : (input : List Word) → AreWords input → AreWords (behind input)
behind-AreWords [] a = a
behind-AreWords (w ∷ ws) a = a.1

length-behind : (input : List Word) → length (behind input) ≡ length input - 1
length-behind [] = omega arith
length-behind (w ∷ ws) = omega arith

pub next-IsInput :
    (input : List Word) (bits : ℕ)
    → IsInput input bits
    → 32 < bits
    → IsInput (behind input) (bits - 32)
next-IsInput input bits i h = record {
  words = behind-AreWords input i.words;
  enough = omega (arith, length-behind input, i.enough);
  one = omega (arith, length-behind input, i.enough);
}

pub step-IsInput :
    (input : List Word) (bits width : ℕ)
    → IsInput input bits
    → width < bits
    → IsInput (step input bits width).input (step input bits width).bits
step-IsInput input bits width i h = elim (Bool-cases (get_bit (rdx_mask width) 31)) [
  | inl e ↦ rw e (next-IsInput input bits i (omega (arith, ones_last 31 width e)))
  | inr e ↦ rw e i
]

pub branch-IsNode :
    (key : Word) (width : ℕ) (value : Option ℕ) (b : Bool) (child other : Node)
    → length key ≡ 32
    → width ≤ 32
    → and_bits key (rdx_mask width) ≡ key
    → IsNode child
    → IsNode other
    → IsNode (branch key width value b child other)
branch-IsNode key width value true child other l w m c o = (l, w, m, c, o)
branch-IsNode key width value false child other l w m c o = (l, w, m, o, c)

pub chain-IsNode :
    (input : List Word) (bits d : ℕ) → IsInput input bits → IsNode (chain input bits d)
unfolding chain
chain-IsNode [] bits d i = absurd (omega (arith, i.one))
chain-IsNode (w ∷ ws) bits d i = elim (Bool-cases (ltb 32 bits)) [
  | inl more ↦ rw more (
      branch-IsNode w 32 none (get_bit (current ws) 0) (chain ws (bits - 32) d) null i.words.0
        (omega arith) (and_bits-ones 32 w i.words.0)
        (chain-IsNode ws (bits - 32) d (next-IsInput (w ∷ ws) bits i (ground (arith, more))))
        (omega arith))
  | inr last ↦ rw last (
    length-and_bits 32 bits w i.words.0,
    ground (arith, last),
    and_bits_twice 32 bits w,
    omega arith,
    omega arith,
  )
]

-- Below a node that matches a prefix of the key, the search goes on in one child.
pub find_exact-branch :
    (key : Word) (width : ℕ) (value : Option ℕ) (b : Bool) (child other : Node) (input : List Word)
    (bits : ℕ)
    → matches input key width ≡ true
    → width < bits
    → (step input bits width).to_right ≡ b
    → find_exact (branch key width value b child other) input bits
      ≡ find_exact child (step input bits width).input (step input bits width).bits
unfolding find_exact
find_exact-branch key width value true child other input bits m lt r =
    let a : ltb bits width ≡ false = ground arith in
    let b : (width == bits) ≡ false = ground arith in rw (a, m, b, r)
find_exact-branch key width value false child other input bits m lt r =
    let a : ltb bits width ≡ false = ground arith in
    let b : (width == bits) ≡ false = ground arith in rw (a, m, b, r)

pub find_exact-chain :
    (input : List Word) (bits d : ℕ)
    → IsInput input bits
    → find_exact (chain input bits d) input bits ≡ some d
unfolding chain find_exact
find_exact-chain [] bits d i = absurd (omega (arith, i.one))
find_exact-chain (w ∷ ws) bits d i = elim (Bool-cases (ltb 32 bits)) [
  | inl more ↦
      let m : matches (w ∷ ws) w 32 ≡ true =
        ap (λ a. same_word a w) (and_bits-ones 32 w i.words.0) ∙ same_word_refl w in
      rw more (
        find_exact-branch w 32 none (get_bit (current ws) 0) (chain ws (bits - 32) d) null (w ∷ ws)
          bits m (ground (arith, more)) refl
        ∙ find_exact-chain ws (bits - 32) d (next-IsInput (w ∷ ws) bits i (ground (arith, more))))
  | inr last ↦
      let a : ltb bits bits ≡ false = ground arith in
      let b : (bits == bits) ≡ true = ground arith in
      rw (last, a, same_word_refl (and_bits w (rdx_mask bits)), b)
]
