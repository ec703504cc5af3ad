-- ===== src/Radix/Tree.antt =====
-- The tree and its operations, on the words of a key. The data of a node is a pointer, none for NULL.
use lighttpd.Prelude.{
  ℕ, zero, suc, ◌-◌, Bool, true, false, not, ◌&&◌, ◌||◌, Option, none, some, List, [], ◌∷◌, ◌++◌,
  Bytes, leb, ltb, ◌==◌, if◌then◌else◌,
}
use lighttpd.Radix.Word.{Word, and_bits, rdx_mask, get_bit, same_word, get_input}

-- `liRadixNode *`: null, or key, width, data, right, left
pub data Node : Type 0 where
  null : Node
  node : Word → ℕ → Option ℕ → Node → Node → Node

-- `current`, and `input` one word further
abbrev pub current : List Word → Word
current [] = []
current (w ∷ ws) = w

abbrev pub behind : List Word → List Word
behind [] = []
behind (w ∷ ws) = ws

-- Where the search goes on below a node.
pub record Step : Type 0 where
  pub input : List Word
  pub bits : ℕ
  pub to_right : Bool

-- the last bit of the mask is set: "next layer"
abbrev pub step : List Word → ℕ → ℕ → Step
step input bits width =
    if get_bit (rdx_mask width) 31
    then record {
      input = behind input;
      bits = bits - 32;
      to_right = get_bit (current (behind input)) 0;
    }
    else record { input = input; bits = bits; to_right = get_bit (current input) width }

-- `(current & mask) == node->key`
abbrev pub matches : List Word → Word → ℕ → Bool
matches input key width = same_word (and_bits (current input) (rdx_mask width)) key

abbrev pub branch : Word → ℕ → Option ℕ → Bool → Node → Node → Node
branch key width value to_right child other =
    if to_right then node key width value child other else node key width value other child

-- The end of `li_radixtree_insert`: the nodes for what is left of the key.
unfoldable pub chain : List Word → ℕ → ℕ → Node
chain [] bits d = node (and_bits [] (rdx_mask bits)) bits (some d) null null
chain (w ∷ ws) bits d =
    let rest = chain ws (bits - 32) d in
    if ltb 32 bits
    then branch w 32 none (get_bit (current ws) 0) rest null
    else node (and_bits w (rdx_mask bits)) bits (some d) null null

-- The loop that takes bits off the mask; `mask <<= 1` gives the mask that is one bit shorter.
unfoldable pub common : Word → Word → ℕ → ℕ
common cur key zero = zero
common cur key (suc width) =
    let shorter = common cur key width in
    if same_word (and_bits cur (rdx_mask (suc width))) (and_bits key (rdx_mask (suc width)))
    then suc width
    else shorter

-- The new node above `old`, with the rest of the key on its other side.
unfoldable pub split_node : ℕ → Word → Node → List Word → ℕ → ℕ → Node
unfolding chain
split_node width key old input bits d =
    branch (and_bits (current input) (rdx_mask width)) width
      (if width == bits then some d else none) (get_bit key width) old
      (if width == bits then null else chain input bits d)

-- "split node"; none is a failed assertion.
unfoldable pub split : Word → ℕ → Node → List Word → ℕ → ℕ → Option (Node × Option ℕ)
unfolding split_node common
split key width old input bits d =
    let most = if ltb bits width then bits else width in
    let w = common (current input) key most in
    if leb most 32 && leb w 31 then some (split_node w key old input bits d, none) else none

abbrev pub set_child :
    Word → ℕ → Option ℕ → Bool → Node → Option (Node × Option ℕ) → Option (Node × Option ℕ)
set_child key width value to_right other none = none
set_child key width value to_right other (some (child, old)) =
    some (branch key width value to_right child other, old)

-- The loop of `li_radixtree_insert` from the node at `*nodeloc` on: the new node and the old data.
unfoldable pub insert_node : Node → List Word → ℕ → ℕ → Option (Node × Option ℕ)
unfolding split
insert_node null input bits d = some (chain input bits d, none)
insert_node (node key width value right left) input bits d =
    let s = step input bits width in
    let on_right = insert_node right s.input s.bits d in
    let on_left = insert_node left s.input s.bits d in
    if ltb bits width || not (matches input key width)
    then split key width (node key width value right left) input bits d
    else if width == bits
    then some (node key width (some d) right left, value)
    else if s.to_right
    then set_child key width value true left on_right
    else set_child key width value false right on_left

-- The loop of `li_radixtree_lookup_exact`.
unfoldable pub find_exact : Node → List Word → ℕ → Option ℕ
find_exact null input bits = none
find_exact (node key width value right left) input bits =
    let s = step input bits width in
    let on_right = find_exact right s.input s.bits in
    let on_left = find_exact left s.input s.bits in
    if ltb bits width || not (matches input key width)
    then none
    else if width == bits
    then value
    else if s.to_right
    then on_right
    else on_left

-- `if (node->data) data = node->data`
abbrev pub or_else : Option ℕ → Option ℕ → Option ℕ
or_else none found = found
or_else (some d) found = some d

-- The loop of `li_radixtree_lookup`.
unfoldable pub find_longest : Node → List Word → ℕ → Option ℕ → Option ℕ
find_longest null input bits found = found
find_longest (node key width value right left) input bits found =
    let s = step input bits width in
    let on_right = find_longest right s.input s.bits (or_else value found) in
    let on_left = find_longest left s.input s.bits (or_else value found) in
    if ltb bits width || not (matches input key width)
    then found
    else if width == bits
    then or_else value found
    else if s.to_right
    then on_right
    else on_left

-- `node_compact`
unfoldable pub compact : Node → Node
compact null = null
compact (node key width (some d) right left) = node key width (some d) right left
compact (node key width none null null) = null
compact (node key width none null left) =
    if width == 32 then node key width none null left else left
compact (node key width none right null) =
    if width == 32 then node key width none right null else right
compact (node key width none right left) = node key width none right left

-- After `radixtree_remove` on a child.
unfoldable pub removed : Word → ℕ → Option ℕ → Bool → Node → Node × Option ℕ → Node × Option ℕ
unfolding compact
removed key width value to_right other (child, none) =
    (branch key width value to_right child other, none)
removed key width value to_right other (child, some d) =
    (compact (branch key width value to_right child other), some d)

-- `radixtree_remove` steps to the next layer without reading the next word: the bit that it tests
-- is that of the word before.
abbrev pub remove_step : List Word → ℕ → ℕ → Step
remove_step input bits width =
    if get_bit (rdx_mask width) 31
    then record { input = behind input; bits = bits - 32; to_right = get_bit (current input) 0 }
    else record { input = input; bits = bits; to_right = get_bit (current input) width }

unfoldable pub remove_node : Node → List Word → ℕ → Node × Option ℕ
unfolding removed
remove_node null input bits = (null, none)
remove_node (node key width value right left) input bits =
    let s = remove_step input bits width in
    let on_right = remove_node right s.input s.bits in
    let on_left = remove_node left s.input s.bits in
    if ltb bits width || not (matches input key width)
    then (node key width value right left, none)
    else if width == bits
    then (compact (node key width none right left), value)
    else if s.to_right
    then removed key width value true left on_right
    else removed key width value false right on_left

-- The functions of the tree, whose state is `tree->zero`.
unfoldable pub insert : Node → Bytes → ℕ → Option ℕ → Option (Node × Option ℕ)
unfolding insert_node
insert tree key bits none = some (tree, none)
insert tree key bits (some d) = insert_node tree (get_input key bits) bits d

unfoldable pub remove : Node → Bytes → ℕ → Node × Option ℕ
unfolding remove_node
remove tree key bits = remove_node tree (get_input key bits) bits

unfoldable pub lookup : Node → Bytes → ℕ → Option ℕ
unfolding find_longest
lookup tree key bits = find_longest tree (get_input key bits) bits none

unfoldable pub lookup_exact : Node → Bytes → ℕ → Option ℕ
unfolding find_exact
lookup_exact tree key bits = find_exact tree (get_input key bits) bits

-- What `li_radixtree_foreach` calls its function on, in order.
unfoldable pub foreach : Node → List ℕ
foreach null = []
foreach (node key width none right left) = foreach right ++ foreach left
foreach (node key width (some d) right left) = d ∷ (foreach right ++ foreach left)
