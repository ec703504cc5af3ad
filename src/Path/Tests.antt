-- ===== src/Path/Tests.antt =====
-- The path " a/b/../../.././c//d/.." and others.
use lighttpd.Prelude.{◌≡◌, refl, Bytes, [], ◌∷◌, arith}
use lighttpd.Path.Simplify.{path_simplify}
use lighttpd.Path.Walk.Tokens.{AreBytes}
use lighttpd.Path.Walk.Ends.{IsSimple}
use lighttpd.Path.Walk.Simple.{path_simplify-IsSimple}

-- " a/../../.b//c/."
abbrev climbing : Bytes
climbing = 32 ∷ 97 ∷ 47 ∷ 46 ∷ 46 ∷ 47 ∷ 46 ∷ 46 ∷ 47 ∷ 46 ∷ 98 ∷ 47 ∷ 47 ∷ 99 ∷ 47 ∷ 46 ∷ []

-- "/.b/c/"
simple : path_simplify climbing ≡ 47 ∷ 46 ∷ 98 ∷ 47 ∷ 99 ∷ 47 ∷ []
unfolding path_simplify
simple = refl

-- "/a/b/.." leaves "/a/".
parent : path_simplify (47 ∷ 97 ∷ 47 ∷ 98 ∷ 47 ∷ 46 ∷ 46 ∷ []) ≡ 47 ∷ 97 ∷ 47 ∷ []
unfolding path_simplify
parent = refl

-- The empty path becomes a slash and a zero byte.
empty : path_simplify [] ≡ 47 ∷ 0 ∷ []
unfolding path_simplify
empty = refl

climbing-AreBytes : AreBytes climbing
climbing-AreBytes = (
  omega arith,
  (
    omega arith,
    (
      omega arith,
      (
        omega arith,
        (
          omega arith,
          (
            omega arith,
            (
              omega arith,
              (
                omega arith,
                (
                  omega arith,
                  (
                    omega arith,
                    (
                      omega arith,
                      (
                        omega arith,
                        (omega arith, (omega arith, (omega arith, (omega arith, omega arith)))),
                      ),
                    ),
                  ),
                ),
              ),
            ),
          ),
        ),
      ),
    ),
  ),
)

path_simplify-IsSimple_example : IsSimple (path_simplify climbing)
path_simplify-IsSimple_example = path_simplify-IsSimple climbing climbing-AreBytes
