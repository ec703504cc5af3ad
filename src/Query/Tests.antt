-- ===== src/Query/Tests.antt =====
-- "x=b&a=c=d&e" and the keys in it.
use lighttpd.Prelude.{◌≡◌, refl, some, Bytes, [], ◌∷◌, ◌++◌, arith}
use lighttpd.Query.Find.{same, querystring_find}
use lighttpd.Query.Laws.{IsPlain, IsValue, AreOthers, pairs, querystring_find-pairs}

abbrev tail : Bytes
tail = 38 ∷ 101 ∷ []

-- "c=d"
abbrev equation : Bytes
equation = 99 ∷ 61 ∷ 100 ∷ []

a-IsPlain : IsPlain (97 ∷ [])
a-IsPlain = (refl, refl, omega arith)

x-IsPlain : IsPlain (120 ∷ [])
x-IsPlain = (refl, refl, omega arith)

b-IsPlain : IsPlain (98 ∷ [])
b-IsPlain = (refl, refl, omega arith)

equation-IsValue : IsValue equation
equation-IsValue = (refl, (refl, (refl, omega arith)))

others : AreOthers (97 ∷ []) ((120 ∷ [], 98 ∷ []) ∷ [])
unfolding same
others = (x-IsPlain, b-IsPlain, refl, refl, omega arith)

querystring_find-pairs_example :
    querystring_find
      (pairs ((120 ∷ [], 98 ∷ []) ∷ []) (97 ∷ [] ++ (61 ∷ equation ++ tail)))
      (97 ∷ [])
    ≡ some equation
querystring_find-pairs_example =
    querystring_find-pairs (97 ∷ []) equation tail ((120 ∷ [], 98 ∷ []) ∷ []) a-IsPlain
      equation-IsValue refl others
