-- ===== src/Radix/Longest.antt =====
-- `li_radixtree_lookup` with `li_radixtree_lookup_exact`.
use lighttpd.Prelude.{
  ℕ, ◌≡◌, sym, ap, ◌∙◌, true, false, not, ◌||◌, Bool-cases, inl, inr, Option, none, some, Bytes,
  List, ltb, ◌==◌, if◌then◌else◌,
}
use lighttpd.Radix.Word.{Word, get_input}
use lighttpd.Radix.Tree.{
  Node, null, node, step, matches, or_else, find_exact, find_longest, lookup, lookup_exact, insert,
}
use lighttpd.Radix.Insert.{IsNode}
use lighttpd.Radix.Exact.{insert-lookup_exact}

module _ (key : Word) (width : ℕ) (value : Option ℕ) (right left : Node) (input : List Word)
    (bits : ℕ) where
  abbrev here : Node
  here = node key width value right left

  exact_miss :
      (ltb bits width || not (matches input key width)) ≡ true → find_exact here input bits ≡ none
  unfolding find_exact
  exact_miss miss = rw miss

  module _ (hit : (ltb bits width || not (matches input key width)) ≡ false) where
    exact_here : (width == bits) ≡ true → find_exact here input bits ≡ value
    unfolding find_exact
    exact_here e = rw (hit, e)

    exact_below :
        (width == bits) ≡ false
        → find_exact here input bits ≡ (
            let s = step input bits width in
            if s.to_right then find_exact right s.input s.bits else find_exact left s.input s.bits)
    unfolding find_exact
    exact_below e = rw (hit, e)

or_else-some : (v found : Option ℕ) (d : ℕ) → v ≡ some d → or_else v found ≡ some d
or_else-some none found d e = cc
or_else-some (some x) found d e = e

pub find_longest-find_exact :
    (t : Node) (input : List Word) (bits d : ℕ) (found : Option ℕ)
    → find_exact t input bits ≡ some d
    → find_longest t input bits found ≡ some d
unfolding find_exact find_longest
find_longest-find_exact null input bits d found e = cc
find_longest-find_exact (node key width value right left) input bits d found e =
    elim (Bool-cases (ltb bits width || not (matches input key width))) [
      | inl miss ↦ let n = exact_miss key width value right left input bits miss in cc (e, n)
      | inr hit ↦ elim (Bool-cases (width == bits)) [
        | inl w ↦
            let n = exact_here key width value right left input bits hit w in
            rw (hit, w) (or_else-some value found d (sym n ∙ e))
        | inr ne ↦
            let s = step input bits width in
            let n = sym (exact_below key width value right left input bits hit ne) ∙ e in
            elim (Bool-cases s.to_right) [
              | inl r ↦
                  let m : find_exact right s.input s.bits ≡ some d =
                    ap
                      (λ b.
                        if b
                        then find_exact right s.input s.bits
                        else find_exact left s.input s.bits)
                      (sym r)
                    ∙ n in
                  rw (hit, ne, r)
                    (find_longest-find_exact right s.input s.bits d (or_else value found) m)
              | inr r ↦
                  let m : find_exact left s.input s.bits ≡ some d =
                    ap
                      (λ b.
                        if b
                        then find_exact right s.input s.bits
                        else find_exact left s.input s.bits)
                      (sym r)
                    ∙ n in
                  rw (hit, ne, r)
                    (find_longest-find_exact left s.input s.bits d (or_else value found) m)
            ]
      ]
    ]

-- Into a tree of which every key has the bits of its width only, `li_radixtree_insert` puts data
-- under a key of any length without a failed assertion, and `li_radixtree_lookup` of that key finds
-- these data rather than those of a shorter prefix.
pub insert-lookup :
    (t : Node) (key : Bytes) (bits d : ℕ)
    → IsNode t
    → (t' : Node) × (insert t key bits (some d) ≡ some (t', lookup_exact t key bits))
      × (lookup t' key bits ≡ some d)
unfolding lookup lookup_exact
insert-lookup t key bits d v =
    let (t', e, f, w) = insert-lookup_exact t key bits d v in
    (t', e, find_longest-find_exact t' (get_input key bits) bits d none f)
