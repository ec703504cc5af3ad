-- ===== src/Proxy/Parse.antt =====
-- main/proxy_protocol.c: the text form, version 1, and the choice between the two. The parsers of
-- addresses are generated, and `strtoull s` is g_ascii_strtoull(s, &end, 10): the number and how many
-- bytes `end` is behind s. A string is its bytes before the zero byte.
use lighttpd.Prelude.{
  ◌>>=◌, ℕ, suc, ◌+◌, ◌-◌, ◌/◌, ◌%◌, Bool, true, false, not, ◌&&◌, Option, none, some, [], ◌∷◌,
  Bytes, length, take, drop, ltb, leb, ◌==◌, if◌then◌else◌,
}
use lighttpd.Prelude.Int.{ℤ}
use lighttpd.Proxy.Defs.{
  SocketAddress, ipv4_addr, ipv6_addr, ProxyData, ParseResult, need_more_data, parse_error,
  parse_done, octet, v1_sig, v2_sig, proxy_prot_parse_v2,
}

-- `memchr`, the position of a byte
unfoldable pub find_byte : ℕ → Bytes → Option ℕ
find_byte c [] = none
find_byte c (x ∷ xs) =
    if x == c then some 0 else elim (find_byte c xs) [ none ↦ none | some i ↦ some (suc i) ]

-- The string that begins here
unfoldable pub c_string : Bytes → Bytes
c_string [] = []
c_string (x ∷ xs) = let rest = c_string xs in if x == 0 then [] else x ∷ rest

-- `strchr(s, ' ')`: the string before the space, and what follows
unfoldable pub split_space : Bytes → Option (Bytes × Bytes)
split_space [] = none
split_space (x ∷ xs) =
    if x == 32
    then some ([], xs)
    else elim (split_space xs) [ none ↦ none | some (a, b) ↦ some (x ∷ a, b) ]

-- Whether the bytes agree as far as both go, as in `memcmp` over the shorter length
unfoldable pub agrees : Bytes → Bytes → Bool
agrees [] ys = true
agrees (x ∷ xs) [] = true
agrees (x ∷ xs) (y ∷ ys) = x == y && agrees xs ys

-- `g_str_has_prefix`
abbrev pub has_prefix : Bytes → Bytes → Bool
has_prefix s prefix = leb (length prefix) (length s) && agrees prefix s

-- "TCP4 ", "TCP6 " and "UNKNOWN "
abbrev pub tcp4 : Bytes
tcp4 = 84 ∷ 67 ∷ 80 ∷ 52 ∷ 32 ∷ []

abbrev pub tcp6 : Bytes
tcp6 = 84 ∷ 67 ∷ 80 ∷ 54 ∷ 32 ∷ []

abbrev pub unknown : Bytes
unknown = 85 ∷ 78 ∷ 75 ∷ 78 ∷ 79 ∷ 87 ∷ 78 ∷ 32 ∷ []

-- The addresses and ports: remote address, local address, remote port, local port
abbrev pub v1_fields : Bytes → Option (Bytes × Bytes × Bytes × Bytes)
v1_fields s = do
  (remote_ip, s1) ← split_space s
  (local_ip, s2) ← split_space s1
  (remote_port, local_port) ← split_space s2
  some (remote_ip, local_ip, remote_port, local_port)

module _ (strtoull : Bytes → ℕ × ℕ) (parse_ipv4 parse_ipv6 : Bytes → Option Bytes) where
  -- `str_to_port`
  abbrev pub str_to_port : Bytes → Option ℕ
  str_to_port s =
      let (port, end) = strtoull s in
      if octet s 0 == 48 && not (octet s 1 == 0)
      then none
      else if octet s 0 == 45
      then none
      else if port == 0 && end == 0
      then none
      else if not (octet s end == 0)
      then none
      else if ltb 65535 port
      then none
      else some port

  -- `htons(port)`
  abbrev pub port_bytes : ℕ → Bytes
  port_bytes port = port / 256 ∷ port % 256 ∷ []

  -- `parse_ipv4_port` and `parse_ipv6_port`
  abbrev pub parse_ip_port : Bool → Bytes → Bytes → Option SocketAddress
  parse_ip_port is_ipv4 ip port_text = do
    port ← str_to_port port_text
    addr ← (if is_ipv4 then parse_ipv4 ip else parse_ipv6 ip)
    some (if is_ipv4 then ipv4_addr addr (port_bytes port) else ipv6_addr addr (port_bytes port))

  abbrev pub set_local : ProxyData → Option SocketAddress → ParseResult × ProxyData
  set_local d none = (parse_error, d)
  set_local d (some a) = (parse_done, record d { local = a; version = 1 })

  abbrev pub set_addresses :
      ProxyData → Option SocketAddress → Option SocketAddress → ParseResult × ProxyData
  set_addresses d none b = (parse_error, d)
  set_addresses d (some a) b = set_local (record d { remote = a }) b

  -- The part behind "TCP4 " or "TCP6 "
  abbrev pub v1_tcp :
      Bool → ProxyData → Option (Bytes × Bytes × Bytes × Bytes) → ParseResult × ProxyData
  v1_tcp is_ipv4 d none = (parse_error, d)
  v1_tcp is_ipv4 d (some (remote_ip, local_ip, remote_port, local_port)) =
      set_addresses d (parse_ip_port is_ipv4 remote_ip remote_port)
        (parse_ip_port is_ipv4 local_ip local_port)

  -- The line behind "PROXY "
  abbrev pub v1_line : ProxyData → Bytes → ParseResult × ProxyData
  v1_line d s =
      if has_prefix s tcp4
      then v1_tcp true d (v1_fields (drop 5 s))
      else if has_prefix s tcp6
      then v1_tcp false d (v1_fields (drop 5 s))
      else if has_prefix s unknown
      then (parse_done, record d { version = 1 })
      else (parse_error, d)

  -- `proxy_prot_parse_v1` where the carriage return has been looked for
  abbrev pub v1_at : ProxyData → Bytes → Option ℕ → ParseResult × ProxyData
  v1_at d header none = (parse_error, d)
  v1_at d header (some cr) =
      if not (octet header (cr + 1) == 10)
      then (parse_error, d)
      else v1_line (record d { skip_bytes = cr + 2 }) (c_string (drop 6 (take cr header)))

  -- `proxy_prot_parse_v1`
  unfoldable pub proxy_prot_parse_v1 : ProxyData → Bytes → ParseResult × ProxyData
  unfolding find_byte c_string split_space agrees
  proxy_prot_parse_v1 d header = v1_at d header (find_byte 13 (take (length header - 1) header))

  -- `li_proxy_protocol_parse`
  unfoldable pub proxy_protocol_parse : ℤ → ProxyData → Bytes → ParseResult × ProxyData
  unfolding proxy_prot_parse_v1 agrees
  proxy_protocol_parse max d header =
      if length header == 0
      then (need_more_data, d)
      else if agrees header v2_sig
      then (if ltb (length header) 16
          then (need_more_data, d)
          else proxy_prot_parse_v2 max d header)
      else if agrees header v1_sig
      then (if ltb (length header) 6 then (need_more_data, d) else proxy_prot_parse_v1 d header)
      else (parse_done, d)
