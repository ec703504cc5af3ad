-- ===== src/Proxy/RoundTrip.antt =====
-- A header of version 2 as a proxy writes it, and what is made of it.
use lighttpd.Prelude.{
  ℕ, ◌+◌, ◌-◌, ◌*◌, ◌/◌, ◌%◌, ◌≤◌, ◌≡◌, refl, sym, ap, ap₂, ◌∙◌, false, Option, some, [], ◌∷◌, ◌++◌,
  Bytes, arith, length, length-append, append_assoc, append-nil, take-append_ge, drop-append_ge,
  take, drop, ltb, ◌==◌, if◌then◌else◌,
}
use lighttpd.Prelude.Int.{ℤ, pos}
use lighttpd.Proxy.Defs.{
  ipv4_addr, ipv6_addr, unix_addr, ProxyData, parse_error, parse_done, v2_sig, v2_addresses,
  required_len, v2_rest, proxy_prot_parse_v2,
}
use lighttpd.Proxy.Parse.{agrees, proxy_protocol_parse}

-- The first 16 bytes, with the command PROXY and a payload of n bytes, and what follows
abbrev pub v2_start : ℕ → ℕ → ℕ → Bytes → Bytes
v2_start family transport n body =
    v2_sig ++ (33 ∷ (family * 16 + transport) ∷ (n / 256) ∷ (n % 256) ∷ body)

start_length :
    (family transport n : ℕ) (body : Bytes)
    → length (v2_start family transport n body) ≡ 16 + length body
start_length family transport n body = omega arith

-- A header whose addresses are all there
parse-v2_start :
    (max : ℤ) (family transport n required : ℕ) (body : Bytes) (d : ProxyData)
    → required_len family ≡ some required
    → transport ≤ 2
    → required ≤ n
    → required ≤ length body
    → proxy_prot_parse_v2 max d (v2_start family transport n body)
      ≡ v2_rest max required
          (n + 16)
          (record (v2_addresses family (v2_start family transport n body) d) {
            version = 2;
            transport = transport;
          })
unfolding proxy_prot_parse_v2
parse-v2_start max family transport n required body d r t l b =
    let f : (family * 16 + transport) / 16 ≡ family = omega (arith, t) in
    let g : (family * 16 + transport) % 16 ≡ transport = omega (arith, t) in
    let p : n / 256 * 256 + n % 256 ≡ n = omega arith in
    let u : ltb 2 transport ≡ false = ground (arith, t) in
    let v : ltb n required ≡ false = ground (arith, l) in
    let w : ltb (length (v2_start family transport n body) - 16) required ≡ false =
      ground (arith, b, start_length family transport n body) in
    rw (f, g, u, r, p, v, w)
      (ap₂
        (λ a c.
          v2_rest max required (n + 16)
            (record (v2_addresses a (v2_start family transport n body) d) {
              version = 2;
              transport = c;
            }))
        f g)

-- The addresses that a proxy sends
pub data Sender : Type 0 where
  sent_ipv4 : Bytes → Bytes → Bytes → Bytes → Sender
  sent_ipv6 : Bytes → Bytes → Bytes → Bytes → Sender
  sent_unix : Bytes → Bytes → Sender

-- Source and destination have the lengths of their family.
abbrev pub IsSender : Sender → Type 0
IsSender (sent_ipv4 src dst sport dport) =
    (length src ≡ 4) × (length dst ≡ 4) × (length sport ≡ 2) × (length dport ≡ 2)
IsSender (sent_ipv6 src dst sport dport) =
    (length src ≡ 16) × (length dst ≡ 16) × (length sport ≡ 2) × (length dport ≡ 2)
IsSender (sent_unix src dst) = (length src ≡ 108) × (length dst ≡ 108)

abbrev pub family_of : Sender → ℕ
family_of (sent_ipv4 src dst sport dport) = 1
family_of (sent_ipv6 src dst sport dport) = 2
family_of (sent_unix src dst) = 3

abbrev pub size_of : Sender → ℕ
size_of (sent_ipv4 src dst sport dport) = 12
size_of (sent_ipv6 src dst sport dport) = 36
size_of (sent_unix src dst) = 216

-- The bytes of the addresses, before `rest`
abbrev pub wire : Sender → Bytes → Bytes
wire (sent_ipv4 src dst sport dport) rest = src ++ (dst ++ (sport ++ (dport ++ rest)))
wire (sent_ipv6 src dst sport dport) rest = src ++ (dst ++ (sport ++ (dport ++ rest)))
wire (sent_unix src dst) rest = src ++ (dst ++ rest)

abbrev pub with_addresses : Sender → ProxyData → ProxyData
with_addresses (sent_ipv4 src dst sport dport) d = record d {
  remote = ipv4_addr src sport;
  local = ipv4_addr dst dport;
}
with_addresses (sent_ipv6 src dst sport dport) d = record d {
  remote = ipv6_addr src sport;
  local = ipv6_addr dst dport;
}
with_addresses (sent_unix src dst) d = record d { remote = unix_addr src; local = unix_addr dst }

-- The part x of some bytes
part_eq :
    (pre x post : Bytes) (i n : ℕ)
    → i ≡ length pre
    → n ≡ length x
    → take n (drop i (pre ++ (x ++ post))) ≡ x
part_eq pre x post i n e f =
    ap (take n) (drop-append_ge pre i 0 (x ++ post) (omega (arith, e)))
    ∙ take-append_ge x n 0 post (omega (arith, f))
    ∙ append-nil x

-- The third part of some bytes, and the fourth
third_eq :
    (a b x post : Bytes) (i n : ℕ)
    → i ≡ length a + length b
    → n ≡ length x
    → take n (drop i (a ++ (b ++ (x ++ post)))) ≡ x
third_eq a b x post i n e f =
    ap (λ y. take n (drop i y)) (sym (append_assoc a b (x ++ post)))
    ∙ part_eq (a ++ b) x post i n (let g = length-append a b in omega (arith, e, g)) f

fourth_eq :
    (a b c x post : Bytes) (i n : ℕ)
    → i ≡ length a + (length b + length c)
    → n ≡ length x
    → take n (drop i (a ++ (b ++ (c ++ (x ++ post))))) ≡ x
fourth_eq a b c x post i n e f =
    ap (λ y. take n (drop i (a ++ y))) (sym (append_assoc b c (x ++ post)))
    ∙ third_eq a (b ++ c) x post i n (let g = length-append b c in omega (arith, e, g)) f

addresses-wire :
    (s : Sender) (transport n : ℕ) (rest : Bytes) (d : ProxyData)
    → IsSender s
    → v2_addresses (family_of s) (v2_start (family_of s) transport n (wire s rest)) d
      ≡ with_addresses s d
addresses-wire (sent_ipv4 src dst sport dport) t n rest d (a, b, c, e) =
    ap₂ (λ x y. record d { remote = x; local = y })
      (ap₂ ipv4_addr (part_eq [] src _ 0 4 refl (sym a))
        (third_eq src dst sport _ 8 2 (omega (arith, a, b)) (sym c)))
      (ap₂ ipv4_addr (part_eq src dst _ 4 4 (sym a) (sym b))
        (fourth_eq src dst sport dport rest 10 2 (omega (arith, a, b, c)) (sym e)))
addresses-wire (sent_ipv6 src dst sport dport) t n rest d (a, b, c, e) =
    ap₂ (λ x y. record d { remote = x; local = y })
      (ap₂ ipv6_addr (part_eq [] src _ 0 16 refl (sym a))
        (third_eq src dst sport _ 32 2 (omega (arith, a, b)) (sym c)))
      (ap₂ ipv6_addr (part_eq src dst _ 16 16 (sym a) (sym b))
        (fourth_eq src dst sport dport rest 34 2 (omega (arith, a, b, c)) (sym e)))
addresses-wire (sent_unix src dst) t n rest d (a, b) =
    ap₂ (λ x y. record d { remote = x; local = y })
      (ap unix_addr (part_eq [] src _ 0 108 refl (sym a)))
      (ap unix_addr (part_eq src dst rest 108 108 (sym a) (sym b)))

length-wire :
    (s : Sender) (rest : Bytes) → IsSender s → length (wire s rest) ≡ size_of s + length rest
length-wire (sent_ipv4 src dst sport dport) rest (a, b, c, e) =
    let f = length-append src (dst ++ (sport ++ (dport ++ rest))) in
    let g = length-append dst (sport ++ (dport ++ rest)) in
    let h = length-append sport (dport ++ rest) in
    let i = length-append dport rest in omega (arith, a, b, c, e, f, g, h, i)
length-wire (sent_ipv6 src dst sport dport) rest (a, b, c, e) =
    let f = length-append src (dst ++ (sport ++ (dport ++ rest))) in
    let g = length-append dst (sport ++ (dport ++ rest)) in
    let h = length-append sport (dport ++ rest) in
    let i = length-append dport rest in omega (arith, a, b, c, e, f, g, h, i)
length-wire (sent_unix src dst) rest (a, b) =
    let f = length-append src (dst ++ rest) in
    let g = length-append dst rest in omega (arith, a, b, f, g)

required-size_of : (s : Sender) → required_len (family_of s) ≡ some (size_of s)
required-size_of (sent_ipv4 src dst sport dport) = refl
required-size_of (sent_ipv6 src dst sport dport) = refl
required-size_of (sent_unix src dst) = refl

size_of-positive : (s : Sender) → (size_of s == 0) ≡ false
size_of-positive (sent_ipv4 src dst sport dport) = refl
size_of-positive (sent_ipv6 src dst sport dport) = refl
size_of-positive (sent_unix src dst) = refl

-- The whole of what a proxy sends, with what follows
abbrev pub v2_header : Sender → ℕ → Bytes → Bytes → Bytes
v2_header s transport tlvs rest =
    v2_start (family_of s) transport (size_of s + length tlvs) (wire s (tlvs ++ rest))

-- What is kept of it
abbrev pub received : Sender → ℕ → Bytes → ProxyData → ProxyData
received s transport tlvs d = record (with_addresses s d) {
  version = 2;
  transport = transport;
  skip_bytes = size_of s + 16;
  remaining_tlv_bytes = length tlvs;
}

rest-received :
    (max : ℕ) (s : Sender) (transport : ℕ) (tlvs : Bytes) (d : ProxyData)
    → v2_rest
        (pos max)
        (size_of s)
        (size_of s + length tlvs + 16)
        (record (with_addresses s d) { version = 2; transport = transport })
      ≡ (if ltb max (length tlvs)
          then (parse_error, received s transport tlvs d)
          else (parse_done, received s transport tlvs d))
rest-received max s transport tlvs d =
    let e : (size_of s + length tlvs + 16) - (size_of s + 16) ≡ length tlvs = omega arith in
    rw (size_of-positive s) (
      ap
        (λ k.
          (let d' = record (with_addresses s d) {
            version = 2;
            transport = transport;
            skip_bytes = size_of s + 16;
            remaining_tlv_bytes = k;
          } in
            if ltb max k then (parse_error, d') else (parse_done, d')))
        e)

parse-start :
    (strtoull : Bytes → ℕ × ℕ) (parse_ipv4 parse_ipv6 : Bytes → Option Bytes) (max : ℤ)
    (d : ProxyData) (family transport n : ℕ) (body : Bytes)
    → proxy_protocol_parse strtoull parse_ipv4 parse_ipv6 max d (v2_start family transport n body)
      ≡ proxy_prot_parse_v2 max d (v2_start family transport n body)
unfolding proxy_protocol_parse agrees
parse-start strtoull parse_ipv4 parse_ipv6 max d family transport n body =
    let l = start_length family transport n body in
    let e : (length (v2_start family transport n body) == 0) ≡ false = ground (arith, l) in
    let f : ltb (length (v2_start family transport n body)) 16 ≡ false = ground (arith, l) in
    rw (e, f) refl

-- For IPv4, IPv6 and Unix addresses with the lengths of their family: of a header of version 2 with
-- the command PROXY, whatever its transport (at most 2), its TLVs and what follows, the parser takes
-- exactly the addresses and ports that were sent, the 16 bytes and the addresses are to be skipped
-- and the TLVs remain. It is an error if they are longer than the limit, a number that is
-- not negative, and done otherwise.
pub proxy_protocol_parse-received :
    (strtoull : Bytes → ℕ × ℕ) (parse_ipv4 parse_ipv6 : Bytes → Option Bytes) (max : ℕ)
    (d : ProxyData) (s : Sender) (transport : ℕ) (tlvs rest : Bytes)
    → IsSender s
    → transport ≤ 2
    → proxy_protocol_parse strtoull parse_ipv4 parse_ipv6
        (pos max)
        d
        (v2_header s transport tlvs rest)
      ≡ (if ltb max (length tlvs)
          then (parse_error, received s transport tlvs d)
          else (parse_done, received s transport tlvs d))
proxy_protocol_parse-received strtoull parse_ipv4 parse_ipv6 max d s transport tlvs rest i t =
    let n = size_of s + length tlvs in
    parse-start strtoull parse_ipv4 parse_ipv6 (pos max) d (family_of s) transport n
      (wire s (tlvs ++ rest))
    ∙ parse-v2_start (pos max) (family_of s) transport n (size_of s) (wire s (tlvs ++ rest)) d
        (required-size_of s) t (omega arith)
        (let f = length-wire s (tlvs ++ rest) i in omega (arith, f))
    ∙ ap
        (λ x.
          v2_rest (pos max) (size_of s) (n + 16) (record x { version = 2; transport = transport }))
        (addresses-wire s transport n (tlvs ++ rest) d i)
    ∙ rest-received max s transport tlvs d
