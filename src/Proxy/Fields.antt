-- ===== src/Proxy/Fields.antt =====
-- proxy_prot_parse_v1: the addresses and the ports of a line, and the error.
use lighttpd.Prelude.{
  ℕ, ◌+◌, ◌/◌, ◌%◌, ◌≡◌, refl, sym, ap, ap₂, subst, ◌⊎◌, inl, inr, Bool, true, false, Option, none,
  some, [], ◌∷◌, ◌++◌, Bytes, length, if◌then◌else◌,
}
use lighttpd.Prelude.Int.{ℤ}
use lighttpd.Proxy.Defs.{
  ProxyData, ParseResult, parse_error, parse_done, SocketAddress, ipv4_addr, ipv6_addr,
}
use lighttpd.Proxy.Parse.{str_to_port, parse_ip_port, set_addresses, proxy_protocol_parse}
use lighttpd.Proxy.Text.{is_word, is_text, fields, v1_text, parsed, parse-parsed}

abbrev pub socket_address : Bool → Bytes → Bytes → SocketAddress
socket_address true ip port_bytes = ipv4_addr ip port_bytes
socket_address false ip port_bytes = ipv6_addr ip port_bytes

module _ (strtoull : Bytes → ℕ × ℕ) (parse_ipv4 parse_ipv6 : Bytes → Option Bytes) where
  -- The fields of a line as they are parsed
  abbrev pub address : Bool → Bytes → Option Bytes
  address is_ipv4 ip = if is_ipv4 then parse_ipv4 ip else parse_ipv6 ip

  abbrev pub port : Bytes → Option ℕ
  port = str_to_port strtoull parse_ipv4 parse_ipv6

  -- One side of a connection: its address and its port are parsed.
  pub record IsSide (is_ipv4 : Bool) (ip port_text : Bytes) (a : SocketAddress) : Type 0 where
    pub ip_bytes : Bytes
    pub number : ℕ
    pub ip_is : address is_ipv4 ip ≡ some ip_bytes
    pub port_is : port port_text ≡ some number
    pub is_address : a ≡ socket_address is_ipv4 ip_bytes (number / 256 ∷ number % 256 ∷ [])

  -- The address or the port is not parsed.
  abbrev pub IsBad : Bool → Bytes → Bytes → Type 0
  IsBad is_ipv4 ip port_text = (address is_ipv4 ip ≡ none) ⊎ (port port_text ≡ none)

  -- Remote address and port are `a` and `c`, local address and port are `b` and `e`.
  pub record HasBoth (is_ipv4 : Bool) (d : ProxyData) (len : ℕ) (a b c e : Bytes)
      (r : ParseResult × ProxyData) : Type 0 where
    pub remote : SocketAddress
    pub local : SocketAddress
    pub remote_IsSide : IsSide is_ipv4 a c remote
    pub local_IsSide : IsSide is_ipv4 b e local
    pub result : r ≡ (
      parse_done,
      record d { version = 1; remote = remote; local = local; skip_bytes = len + 2 },
    )

  abbrev pub HasParsed :
      Bool → ProxyData → ℕ → Bytes → Bytes → Bytes → Bytes → ParseResult × ProxyData → Type 0
  HasParsed is_ipv4 d len a b c e r =
      HasBoth is_ipv4 d len a b c e r
      ⊎ ((IsBad is_ipv4 a c ⊎ IsBad is_ipv4 b e) × (r.0 ≡ parse_error))

  abbrev ip_port : Bool → Bytes → Bytes → Option SocketAddress
  ip_port = parse_ip_port strtoull parse_ipv4 parse_ipv6

  side :
      (is_ipv4 : Bool) (ip port_text : Bytes)
      → ((a : SocketAddress) × IsSide is_ipv4 ip port_text a
          × (ip_port is_ipv4 ip port_text ≡ some a))
        ⊎ (IsBad is_ipv4 ip port_text × (ip_port is_ipv4 ip port_text ≡ none))
  side is_ipv4 ip port_text = go is_ipv4 (port port_text) (address is_ipv4 ip) refl refl
    where
      go :
          (v4 : Bool) (p : Option ℕ) (o : Option Bytes)
          → port port_text ≡ p
          → address v4 ip ≡ o
          → ((a : SocketAddress) × IsSide v4 ip port_text a × (ip_port v4 ip port_text ≡ some a))
            ⊎ (IsBad v4 ip port_text × (ip_port v4 ip port_text ≡ none))
      go v4 none o ep eo = inr (inr ep, rw ep refl)
      go true (some n) none ep eo = inr (inl eo, rw (ep, eo) refl)
      go false (some n) none ep eo = inr (inl eo, rw (ep, eo) refl)
      go true (some n) (some bs) ep eo = inl (
        ipv4_addr bs (n / 256 ∷ n % 256 ∷ []),
        record { ip_bytes = bs; number = n; ip_is = eo; port_is = ep; is_address = refl },
        rw (ep, eo) refl,
      )
      go false (some n) (some bs) ep eo = inl (
        ipv6_addr bs (n / 256 ∷ n % 256 ∷ []),
        record { ip_bytes = bs; number = n; ip_is = eo; port_is = ep; is_address = refl },
        rw (ep, eo) refl,
      )

  abbrev set_pair :
      ProxyData → Option SocketAddress → Option SocketAddress → ParseResult × ProxyData
  set_pair = set_addresses strtoull parse_ipv4 parse_ipv6

  parsed-HasParsed :
      (is_ipv4 : Bool) (d : ProxyData) (len : ℕ) (a b c e : Bytes)
      → HasParsed is_ipv4 d len a b c e (
          parsed strtoull parse_ipv4 parse_ipv6 is_ipv4 (record d { skip_bytes = len + 2 }) a b c e)
  parsed-HasParsed is_ipv4 d len a b c e =
      let d' : ProxyData = record d { skip_bytes = len + 2 } in
      elim (side is_ipv4 a c) [
        | inr (bad, n) ↦ inr (inl bad, ap (λ x. (set_pair d' x (ip_port is_ipv4 b e)).0) n)
        | inl (remote, r, m) ↦ elim (side is_ipv4 b e) [
          | inr (bad, n) ↦ inr (inr bad, ap₂ (λ x y. (set_pair d' x y).0) m n)
          | inl (local, l, n) ↦ inl (record {
            remote = remote;
            local = local;
            remote_IsSide = r;
            local_IsSide = l;
            result = ap₂ (set_pair d') m n;
          })
        ]
      ]

  -- Of a line of version 1 with the protocol TCP4 or TCP6 and four fields, none of which holds a
  -- carriage return or a zero byte and of which the first three hold no space, and whatever follows
  -- the line: if the first and the second field are parsed as addresses and the third and the
  -- fourth as ports, the header is done with version 1, the first with the third is the remote
  -- address, the second with the fourth the local one, the high byte of a port first, and the whole
  -- line with its end is to be skipped; otherwise one of them is not parsed, and it is an error.
  pub proxy_protocol_parse-HasParsed :
      (max : ℤ) (is_ipv4 : Bool) (d : ProxyData) (a b c e rest : Bytes)
      → is_word a ≡ true
      → is_word b ≡ true
      → is_word c ≡ true
      → is_text (fields a b c e) ≡ true
      → HasParsed is_ipv4 d (length (v1_text is_ipv4 (fields a b c e))) a b c e (
          proxy_protocol_parse strtoull parse_ipv4 parse_ipv6 max d
            (v1_text is_ipv4 (fields a b c e) ++ (13 ∷ 10 ∷ rest)))
  proxy_protocol_parse-HasParsed max is_ipv4 d a b c e rest p q r t =
      let len = length (v1_text is_ipv4 (fields a b c e)) in
      subst (HasParsed is_ipv4 d len a b c e)
        (sym (parse-parsed strtoull parse_ipv4 parse_ipv6 max is_ipv4 d a b c e rest p q r t))
        (parsed-HasParsed is_ipv4 d len a b c e)
