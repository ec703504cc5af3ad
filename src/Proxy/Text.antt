-- ===== src/Proxy/Text.antt =====
-- A header of version 1 as a proxy writes it, and what is made of it.
use lighttpd.Prelude.{
  ℕ, zero, suc, ◌+◌, ◌-◌, ◌≡◌, refl, ap, ◌∙◌, Bool, true, false, not, ◌&&◌, Option, none, some, [],
  ◌∷◌, ◌++◌, Bytes, arith, length, length-append, append-nil, take-append_ge, take, drop, get_elem?,
  ltb, leb, ◌==◌, if◌then◌else◌,
}
use lighttpd.Prelude.Int.{ℤ}
use lighttpd.Proxy.Defs.{ProxyData, ParseResult, parse_error, octet, v1_sig}
use lighttpd.Proxy.Parse.{
  find_byte, c_string, split_space, agrees, tcp4, tcp6, v1_fields, parse_ip_port, set_addresses,
  v1_tcp, v1_line, v1_at, proxy_prot_parse_v1, proxy_protocol_parse,
}

-- Whether a line or a string ends nowhere in the bytes
abbrev pub is_text : Bytes → Bool
is_text [] = true
is_text (x ∷ xs) = not (x == 13) && not (x == 0) && is_text xs

-- Whether there is no space
abbrev pub is_word : Bytes → Bool
is_word [] = true
is_word (x ∷ xs) = not (x == 32) && is_word xs

find_byte-text :
    (xs ys : Bytes) → is_text xs ≡ true → find_byte 13 (xs ++ (13 ∷ ys)) ≡ some (length xs)
unfolding find_byte
find_byte-text [] ys h = refl
find_byte-text (x ∷ xs) ys h =
    let e : (x == 13) ≡ false = ground (arith, h) in
    let t : is_text xs ≡ true = ground (arith, h) in rw (e, find_byte-text xs ys t) refl

c_string-text : (xs : Bytes) → is_text xs ≡ true → c_string xs ≡ xs
unfolding c_string
c_string-text [] h = refl
c_string-text (x ∷ xs) h =
    let e : (x == 0) ≡ false = ground (arith, h) in
    let t : is_text xs ≡ true = ground (arith, h) in rw e (ap (◌∷◌ x) (c_string-text xs t))

split_space-word :
    (xs ys : Bytes) → is_word xs ≡ true → split_space (xs ++ (32 ∷ ys)) ≡ some (xs, ys)
unfolding split_space
split_space-word [] ys h = refl
split_space-word (x ∷ xs) ys h =
    let e : (x == 32) ≡ false = ground (arith, h) in
    let t : is_word xs ≡ true = ground (arith, h) in rw (e, split_space-word xs ys t) refl

is_text-append : (xs ys : Bytes) → is_text (xs ++ ys) ≡ (is_text xs && is_text ys)
is_text-append [] ys = refl
is_text-append (x ∷ xs) ys = ground (arith, is_text-append xs ys)

get_elem?-append :
    (xs : Bytes) (i : ℕ) (ys : Bytes) (j : ℕ)
    → i ≡ length xs + j
    → get_elem? (xs ++ ys) i ≡ get_elem? ys j
get_elem?-append [] i ys j e = ap (get_elem? ys) (omega (arith, e))
get_elem?-append (x ∷ xs) zero ys j e = absurd (omega (arith, e))
get_elem?-append (x ∷ xs) (suc i) ys j e = get_elem?-append xs i ys j (omega (arith, e))

-- Address and port of both sides
abbrev pub fields : Bytes → Bytes → Bytes → Bytes → Bytes
fields a b c e = a ++ (32 ∷ b ++ (32 ∷ c ++ (32 ∷ e)))

v1_fields-fields :
    (a b c e : Bytes)
    → is_word a ≡ true
    → is_word b ≡ true
    → is_word c ≡ true
    → v1_fields (fields a b c e) ≡ some (a, b, c, e)
v1_fields-fields a b c e p q r =
    rw (split_space-word a _ p, split_space-word b _ q, split_space-word c _ r) refl

abbrev pub protocol : Bool → Bytes
protocol true = tcp4
protocol false = tcp6

-- The line without its end
abbrev pub v1_text : Bool → Bytes → Bytes
v1_text is_ipv4 xs = v1_sig ++ (protocol is_ipv4 ++ xs)

agrees_nil : (xs : Bytes) → agrees xs [] ≡ true
unfolding agrees
agrees_nil [] = refl
agrees_nil (x ∷ xs) = refl

protocol-is_text :
    (is_ipv4 : Bool) (xs : Bytes) → is_text xs ≡ true → is_text (protocol is_ipv4 ++ xs) ≡ true
protocol-is_text true xs h = h
protocol-is_text false xs h = h

module _ (strtoull : Bytes → ℕ × ℕ) (parse_ipv4 parse_ipv6 : Bytes → Option Bytes) where
  abbrev pub parsed : Bool → ProxyData → Bytes → Bytes → Bytes → Bytes → ParseResult × ProxyData
  parsed is_ipv4 d a b c e =
      set_addresses strtoull parse_ipv4 parse_ipv6 d
        (parse_ip_port strtoull parse_ipv4 parse_ipv6 is_ipv4 a c)
        (parse_ip_port strtoull parse_ipv4 parse_ipv6 is_ipv4 b e)

  line-parsed :
      (is_ipv4 : Bool) (d : ProxyData) (a b c e : Bytes)
      → is_word a ≡ true
      → is_word b ≡ true
      → is_word c ≡ true
      → v1_line strtoull parse_ipv4 parse_ipv6 d (protocol is_ipv4 ++ fields a b c e)
        ≡ parsed is_ipv4 d a b c e
  unfolding agrees
  line-parsed true d a b c e p q r =
      let l : leb 5 (length (tcp4 ++ fields a b c e)) ≡ true = ground arith in
      rw l (ap (v1_tcp strtoull parse_ipv4 parse_ipv6 true d) (v1_fields-fields a b c e p q r))
  line-parsed false d a b c e p q r =
      let l : leb 5 (length (tcp6 ++ fields a b c e)) ≡ true = ground arith in
      rw l (ap (v1_tcp strtoull parse_ipv4 parse_ipv6 false d) (v1_fields-fields a b c e p q r))

  -- The line ends at the first carriage return.
  at-parsed :
      (is_ipv4 : Bool) (d : ProxyData) (xs rest : Bytes)
      → is_text xs ≡ true
      → proxy_prot_parse_v1 strtoull parse_ipv4 parse_ipv6 d
          (v1_text is_ipv4 xs ++ (13 ∷ 10 ∷ rest))
        ≡ v1_line strtoull parse_ipv4 parse_ipv6
            (record d { skip_bytes = length (v1_text is_ipv4 xs) + 2 })
            (protocol is_ipv4 ++ xs)
  unfolding proxy_prot_parse_v1
  at-parsed is_ipv4 d xs rest h =
      let line = v1_text is_ipv4 xs in
      let header = line ++ (13 ∷ 10 ∷ rest) in
      let t : is_text line ≡ true = protocol-is_text is_ipv4 xs h in
      let l : length header ≡ length line + (2 + length rest) =
        (let f = length-append line (13 ∷ 10 ∷ rest) in omega (arith, f)) in
      let cut : take (length header - 1) header ≡ line ++ (13 ∷ take (length rest) (10 ∷ rest)) =
        take-append_ge line (length header - 1) (suc (length rest)) (13 ∷ 10 ∷ rest)
          (omega (arith, l)) in
      let found : find_byte 13 (take (length header - 1) header) ≡ some (length line) =
        ap (find_byte 13) cut ∙ find_byte-text line _ t in
      let lf : octet header (length line + 1) ≡ 10 =
        ap (λ o. elim o as (λ x. ℕ) [ none ↦ 0 | some c ↦ c ])
          (get_elem?-append line (length line + 1) (13 ∷ 10 ∷ rest) 1 refl) in
      let whole : take (length line) header ≡ line =
        take-append_ge line (length line) 0 (13 ∷ 10 ∷ rest) (omega arith) ∙ append-nil line in
      ap (v1_at strtoull parse_ipv4 parse_ipv6 d header) found
      ∙ ap
          (λ c.
            if not (c == 10)
            then (parse_error, d)
            else v1_line strtoull parse_ipv4 parse_ipv6 (record d { skip_bytes = length line + 2 })
                (c_string (drop 6 (take (length line) header))))
          lf
      ∙ ap
          (λ y.
            v1_line strtoull parse_ipv4 parse_ipv6 (record d { skip_bytes = length line + 2 })
              (c_string (drop 6 y)))
          whole
      ∙ ap (v1_line strtoull parse_ipv4 parse_ipv6 (record d { skip_bytes = length line + 2 }))
          (c_string-text (protocol is_ipv4 ++ xs) (protocol-is_text is_ipv4 xs h))

  -- Such a line is taken apart into its four fields.
  pub parse-parsed :
      (max : ℤ) (is_ipv4 : Bool) (d : ProxyData) (a b c e rest : Bytes)
      → is_word a ≡ true
      → is_word b ≡ true
      → is_word c ≡ true
      → is_text (fields a b c e) ≡ true
      → proxy_protocol_parse strtoull parse_ipv4 parse_ipv6 max d
          (v1_text is_ipv4 (fields a b c e) ++ (13 ∷ 10 ∷ rest))
        ≡ parsed is_ipv4
            (record d { skip_bytes = length (v1_text is_ipv4 (fields a b c e)) + 2 })
            a
            b
            c
            e
  unfolding proxy_protocol_parse agrees
  parse-parsed max is_ipv4 d a b c e rest p q r t =
      let header = v1_text is_ipv4 (fields a b c e) ++ (13 ∷ 10 ∷ rest) in
      let z : (length header == 0) ≡ false = ground arith in
      let s : ltb (length header) 6 ≡ false = ground arith in
      rw (z, s, agrees_nil ((protocol is_ipv4 ++ fields a b c e) ++ (13 ∷ 10 ∷ rest)))
        (at-parsed is_ipv4 d (fields a b c e) rest t
          ∙ line-parsed is_ipv4
              (record d { skip_bytes = length (v1_text is_ipv4 (fields a b c e)) + 2 }) a b c e p q
              r)
