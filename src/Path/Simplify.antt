-- ===== src/Path/Simplify.antt =====
-- li_path_simplify, which works in the memory of the string. `mem` is that memory with the zero
-- byte at the end; `out` and `slash` are places in it. Since `out` is never beyond `walk`, what is
-- read there is what the string held in the beginning.
use lighttpd.Prelude.{
  ℕ, zero, suc, ◌+◌, ◌-◌, ◌*◌, ◌%◌, Bool, true, false, ◌&&◌, ◌||◌, Option, none, some, Bytes, [],
  ◌∷◌, ◌++◌, get_elem?, set, take, ltb, ◌==◌, if◌then◌else◌,
}

pub record Walk : Type 0 where
  pub mem : Bytes
  pub out : ℕ
  pub slash : ℕ
  -- `pre`, of 16 bits
  pub pre : ℕ

abbrev pub is_slash : Option ℕ → Bool
is_slash none = false
is_slash (some c) = c == 47

-- `while (out > start && *out != '/') out--;`
unfoldable pub seek : Bytes → ℕ → ℕ
seek mem zero = 0
seek mem (suc n) = let rest = seek mem n in if is_slash (get_elem? mem (suc n)) then suc n else rest

-- `out = slash; if (out > start) { out--; ... }`
unfoldable pub drop_segment : Bytes → ℕ → ℕ
unfolding seek
drop_segment mem zero = 0
drop_segment mem (suc n) = seek mem n

-- `if (c == '\0') out++;`
abbrev pub step_over : Bool → ℕ → ℕ
step_over at_end out = if at_end then suc out else out

-- `out` after the tests on a token that ends
unfoldable pub end_token : Bool → Walk → ℕ
unfolding drop_segment
end_token at_end w =
    let toklen = w.out - w.slash in
    if (toklen == 3) && (w.pre == 11822)
    then step_over at_end (drop_segment w.mem w.slash)
    else (if (toklen == 1) || (w.pre == 12078) then step_over at_end w.slash else w.out)

abbrev pub close : Bool → Walk → Walk
close at_end w = let out = end_token at_end w in record w { out = out; slash = out }

-- `pre = (pre << 8) | pre1`, where a char above 127 is negative
abbrev pub push_pre : ℕ → ℕ → ℕ
push_pre pre c = if ltb c 128 then pre * 256 % 65536 + c else 65280 + c

-- `*out = pre1; out++;`
abbrev pub put : ℕ → Walk → Walk
put c w = record w { mem = set w.mem w.out c; out = suc w.out; pre = push_pre w.pre c }

-- The loop, with what is still to be read, `c` first
unfoldable pub walk : Bytes → Walk → Walk
unfolding end_token
walk [] w = close true w
walk (c ∷ cs) w =
    let more = walk cs (put c w) in
    let closed = walk cs (put c (close false w)) in
    if c == 0 then close true w else (if c == 47 then closed else more)

unfoldable pub skip_spaces : Bytes → Bytes
skip_spaces [] = []
skip_spaces (c ∷ cs) = let rest = skip_spaces cs in if c == 32 then rest else c ∷ cs

-- The first character is written, behind a slash if it is none.
abbrev pub begin : ℕ → Bytes → Walk
begin c mem =
    if c == 47 then record { mem = set mem 0 47; out = 1; slash = 0; pre = 47 } else record {
      mem = set (set mem 0 47) 1 c;
      out = 2;
      slash = 0;
      pre = if ltb c 128 then 12032 + c else 65280 + c;
    }

abbrev pub result : Walk → Bytes
result w = take w.out w.mem

unfoldable pub path_simplify : Bytes → Bytes
unfolding walk skip_spaces
path_simplify path = elim (skip_spaces path) [
  | [] ↦ 47 ∷ 0 ∷ []
  | c ∷ cs ↦ (if c == 0 then 47 ∷ 0 ∷ [] else result (walk cs (begin c (path ++ (0 ∷ [])))))
]
