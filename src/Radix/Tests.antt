-- ===== src/Radix/Tests.antt =====
-- The network 10.0.0.0/8 in a tree, with 10.128.0.0/9 below it, and the IPv6 network
-- 2001:db8:8000::/48, of which the prefix has more than one word.
use lighttpd.Prelude.{◌≡◌, refl, false, none, some, Bytes, [], ◌∷◌, arith}
use lighttpd.Radix.Word.{read_word, get_input}
use lighttpd.Radix.Tree.{Node, null, node, insert, remove, lookup, lookup_exact}
use lighttpd.Radix.Insert.{IsNode}
use lighttpd.Radix.Exact.{insert-lookup_exact}
use lighttpd.Radix.Others.{same_key}
use lighttpd.Radix.Update.{insert-lookup_exact_other}
use lighttpd.Radix.Longest.{insert-lookup}
use lighttpd.Radix.Remove.{remove-misses}

abbrev ten : Node
ten = node (read_word 4 (10 ∷ [])) 8 (some 7) null null

abbrev upper_half : Bytes
upper_half = 10 ∷ 128 ∷ []

ten-IsNode : IsNode ten
ten-IsNode = (refl, omega arith, refl, omega arith, omega arith)

abbrev first_word : Bytes
first_word = 32 ∷ 1 ∷ 13 ∷ 184 ∷ []

abbrev second_word : Bytes
second_word = 128 ∷ 0 ∷ []

abbrev network : Bytes
network = 32 ∷ 1 ∷ 13 ∷ 184 ∷ 128 ∷ 0 ∷ []

insert-lookup_exact_example :
    (t' : Node) × (insert ten upper_half 9 (some 8) ≡ some (t', lookup_exact ten upper_half 9))
    × (lookup_exact t' upper_half 9 ≡ some 8)
    × IsNode t'
insert-lookup_exact_example = insert-lookup_exact ten upper_half 9 8 ten-IsNode

insert-lookup_example :
    (t' : Node) × (insert ten upper_half 9 (some 8) ≡ some (t', lookup_exact ten upper_half 9))
    × (lookup t' upper_half 9 ≡ some 8)
insert-lookup_example = insert-lookup ten upper_half 9 8 ten-IsNode

network_words : get_input network 48 ≡ read_word 4 first_word ∷ read_word 4 second_word ∷ []
unfolding get_input
network_words = refl

remove-misses_example :
    (t : Node) × (insert null network 48 (some 5) ≡ some (t, none))
    × (lookup_exact t network 48 ≡ some 5)
    × (remove t network 48 ≡ (t, none))
remove-misses_example =
    remove-misses network 48 5 (read_word 4 first_word) (read_word 4 second_word) [] network_words
      (omega arith) refl

abbrev both : Node
both =
    node (read_word 4 (10 ∷ [])) 8 (some 7) (node (read_word 4 upper_half) 9 (some 8) null null)
      null

insert_upper : insert ten upper_half 9 (some 8) ≡ some (both, none)
unfolding insert get_input
insert_upper = refl

keys_differ : same_key (get_input upper_half 9) 9 (get_input (10 ∷ []) 8) 8 ≡ false
unfolding same_key get_input
keys_differ = refl

insert-lookup_exact_other_example : lookup_exact both (10 ∷ []) 8 ≡ lookup_exact ten (10 ∷ []) 8
insert-lookup_exact_other_example =
    insert-lookup_exact_other ten both upper_half 9 8 none (10 ∷ []) 8 ten-IsNode insert_upper
      keys_differ
