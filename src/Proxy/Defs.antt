-- ===== src/Proxy/Defs.antt =====
-- main/proxy_protocol.c: the data of a PROXY header and its binary form, version 2. A byte is below
-- 256; the debug messages are left out.
use lighttpd.Prelude.{
  ℕ, ◌+◌, ◌-◌, ◌*◌, ◌/◌, ◌%◌, not, Option, none, some, [], ◌∷◌, Bytes, length, take, drop,
  get_elem?, ltb, ◌==◌, if◌then◌else◌,
}
use lighttpd.Prelude.Int.{ℤ, pos, negsuc}

-- `liSocketAddress`, with the bytes of the address and of the port in network order
pub data SocketAddress : Type 0 where
  unset : SocketAddress
  ipv4_addr : Bytes → Bytes → SocketAddress
  ipv6_addr : Bytes → Bytes → SocketAddress
  unix_addr : Bytes → SocketAddress

-- `liProxyProtocolData`, without the TLVs that are extracted later
pub record ProxyData : Type 0 where
  pub version : ℕ
  pub transport : ℕ
  pub remote : SocketAddress
  pub local : SocketAddress
  pub skip_bytes : ℕ
  pub remaining_tlv_bytes : ℕ

-- `li_proxy_protocol_data_init`
abbrev pub proxy_data_init : ProxyData
proxy_data_init = record {
  version = 0;
  transport = 0;
  remote = unset;
  local = unset;
  skip_bytes = 0;
  remaining_tlv_bytes = 0;
}

-- `liProxyProtocolParseResult`
pub data ParseResult : Type 0 where
  need_more_data : ParseResult
  parse_error : ParseResult
  parse_done : ParseResult

-- `header[i]`
abbrev pub octet : Bytes → ℕ → ℕ
octet header i = elim (get_elem? header i) [ none ↦ 0 | some c ↦ c ]

-- The n bytes at `header + i`
abbrev pub raw_bytes : Bytes → ℕ → ℕ → Bytes
raw_bytes header i n = take n (drop i header)

-- "\x0D\x0A\x0D\x0A\x00\x0D\x0AQUIT\x0A"
abbrev pub v2_sig : Bytes
v2_sig = 13 ∷ 10 ∷ 13 ∷ 10 ∷ 0 ∷ 13 ∷ 10 ∷ 81 ∷ 85 ∷ 73 ∷ 84 ∷ 10 ∷ []

-- "PROXY "
abbrev pub v1_sig : Bytes
v1_sig = 80 ∷ 82 ∷ 79 ∷ 88 ∷ 89 ∷ 32 ∷ []

-- The addresses, as `proxy_prot_parse_v2` finds them behind the first 16 bytes
abbrev pub v2_addresses : ℕ → Bytes → ProxyData → ProxyData
v2_addresses family header d =
    if family == 1
    then record d {
      remote = ipv4_addr (raw_bytes header 16 4) (raw_bytes header 24 2);
      local = ipv4_addr (raw_bytes header 20 4) (raw_bytes header 26 2);
    }
    else if family == 2
    then record d {
      remote = ipv6_addr (raw_bytes header 16 16) (raw_bytes header 48 2);
      local = ipv6_addr (raw_bytes header 32 16) (raw_bytes header 50 2);
    }
    else if family == 3
    then record d {
      remote = unix_addr (raw_bytes header 16 108);
      local = unix_addr (raw_bytes header 124 108);
    }
    else d

-- `required_address_len`; none for a family that is not known
abbrev pub required_len : ℕ → Option ℕ
required_len family =
    if family == 0
    then some 0
    else if family == 1
    then some 12
    else if family == 2
    then some 36
    else if family == 3
    then some 216
    else none

-- What is skipped, and the TLVs that are kept; max is `max_tlv_length`.
abbrev pub v2_rest : ℤ → ℕ → ℕ → ProxyData → ParseResult × ProxyData
v2_rest (negsuc n) required total d = (parse_done, record d { skip_bytes = total })
v2_rest (pos max) required total d =
    if required == 0
    then (parse_done, record d { skip_bytes = total })
    else let tlvs = total - (required + 16) in
      let d' = record d { skip_bytes = required + 16; remaining_tlv_bytes = tlvs } in
      if ltb max tlvs then (parse_error, d') else (parse_done, d')

-- `proxy_prot_parse_v2` from the required length on
abbrev pub v2_payload : ℤ → Option ℕ → Bytes → ProxyData → ParseResult × ProxyData
v2_payload max none header d = (parse_error, d)
v2_payload max (some required) header d =
    let payload = octet header 14 * 256 + octet header 15 in
    let d' = record (v2_addresses (octet header 13 / 16) header d) {
      version = octet header 12 / 16;
      transport = octet header 13 % 16;
    } in
    if ltb payload required
    then (parse_error, d)
    else if ltb (length header - 16) required
    then (need_more_data, d)
    else v2_rest max required (payload + 16) d'

-- `proxy_prot_parse_v2`; a header has at least 16 bytes here.
unfoldable pub proxy_prot_parse_v2 : ℤ → ProxyData → Bytes → ParseResult × ProxyData
proxy_prot_parse_v2 max d header =
    let payload = octet header 14 * 256 + octet header 15 in
    if not (octet header 12 / 16 == 2)
    then (parse_error, d)
    else if octet header 12 % 16 == 0
    then (parse_done, record d { skip_bytes = payload + 16 })
    else if not (octet header 12 % 16 == 1)
    then (parse_error, d)
    else if ltb 2 (octet header 13 % 16)
    then (parse_error, d)
    else v2_payload max (required_len (octet header 13 / 16)) header d
