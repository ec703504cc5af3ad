-- ===== src/Proxy/Tests.antt =====
-- Both forms of a header, with decimal numbers for ports and an address of two bytes for "h1".
use lighttpd.Prelude.{
  ℕ, suc, ◌+◌, ◌-◌, ◌*◌, ◌≡◌, refl, true, ◌&&◌, Option, none, some, [], ◌∷◌, ◌++◌, Bytes, arith,
  length, ltb, leb, if◌then◌else◌,
}
use lighttpd.Prelude.Int.{pos}
use lighttpd.Proxy.Defs.{parse_error, parse_done, proxy_data_init, v2_sig, proxy_prot_parse_v2}
use lighttpd.Proxy.Parse.{
  find_byte, c_string, split_space, agrees, proxy_prot_parse_v1, proxy_protocol_parse,
}
use lighttpd.Proxy.RoundTrip.{Sender, sent_ipv4, v2_header, received, proxy_protocol_parse-received}
use lighttpd.Proxy.Text.{v1_text, fields}
use lighttpd.Proxy.Fields.{HasParsed, proxy_protocol_parse-HasParsed}

abbrev decimal : ℕ → ℕ → Bytes → ℕ × ℕ
decimal n len [] = (n, len)
decimal n len (x ∷ xs) =
    let rest = decimal (10 * n + (x - 48)) (suc len) xs in
    if leb 48 x && leb x 57 then rest else (n, len)

abbrev two_bytes : Bytes → Option Bytes
two_bytes (x ∷ y ∷ []) = some (x ∷ y ∷ [])
two_bytes xs = none

abbrev sender : Sender
sender = sent_ipv4 (192 ∷ 0 ∷ 2 ∷ 1 ∷ []) (192 ∷ 0 ∷ 2 ∷ 2 ∷ []) (200 ∷ 1 ∷ []) (0 ∷ 80 ∷ [])

-- Three bytes of TLVs, of which ten are allowed, and the request
proxy_protocol_parse-received_example :
    proxy_protocol_parse
      (decimal 0 0)
      two_bytes
      two_bytes
      (pos 10)
      proxy_data_init
      (v2_header sender 1 (4 ∷ 0 ∷ 0 ∷ []) (71 ∷ 69 ∷ 84 ∷ []))
    ≡ (if ltb 10 3
        then (parse_error, received sender 1 (4 ∷ 0 ∷ 0 ∷ []) proxy_data_init)
        else (parse_done, received sender 1 (4 ∷ 0 ∷ 0 ∷ []) proxy_data_init))
proxy_protocol_parse-received_example =
    proxy_protocol_parse-received (decimal 0 0) two_bytes two_bytes 10 proxy_data_init sender 1
      (4 ∷ 0 ∷ 0 ∷ []) (71 ∷ 69 ∷ 84 ∷ []) (refl, refl, refl, refl) (omega arith)

-- "h1", "h2", "80" and "443"
abbrev line_example : Bytes
line_example = fields (104 ∷ 49 ∷ []) (104 ∷ 50 ∷ []) (56 ∷ 48 ∷ []) (52 ∷ 52 ∷ 51 ∷ [])

proxy_protocol_parse-HasParsed_example :
    HasParsed
      (decimal 0 0)
      two_bytes
      two_bytes
      true
      proxy_data_init
      (length (v1_text true line_example))
      (104 ∷ 49 ∷ [])
      (104 ∷ 50 ∷ [])
      (56 ∷ 48 ∷ [])
      (52 ∷ 52 ∷ 51 ∷ [])
      (proxy_protocol_parse
        (decimal 0 0)
        two_bytes
        two_bytes
        (pos 10)
        proxy_data_init
        (v1_text true line_example ++ (13 ∷ 10 ∷ 71 ∷ 69 ∷ 84 ∷ [])))
proxy_protocol_parse-HasParsed_example =
    proxy_protocol_parse-HasParsed (decimal 0 0) two_bytes two_bytes (pos 10) true proxy_data_init
      (104 ∷ 49 ∷ []) (104 ∷ 50 ∷ []) (56 ∷ 48 ∷ []) (52 ∷ 52 ∷ 51 ∷ []) (71 ∷ 69 ∷ 84 ∷ []) refl
      refl refl refl

-- The command LOCAL is done, and the version stays 0.
local_version :
    proxy_prot_parse_v2 (pos 10) proxy_data_init (v2_sig ++ (32 ∷ 0 ∷ 0 ∷ 5 ∷ []))
    ≡ (parse_done, record proxy_data_init { skip_bytes = 21 })
unfolding proxy_prot_parse_v2
local_version = refl

-- "PROXY UNKNOWN" without a space behind it is an error.
unknown_alone :
    (proxy_prot_parse_v1
      (decimal 0 0)
      two_bytes
      two_bytes
      proxy_data_init
      (80 ∷ 82 ∷ 79 ∷ 88 ∷ 89 ∷ 32 ∷ 85 ∷ 78 ∷ 75 ∷ 78 ∷ 79 ∷ 87 ∷ 78 ∷ 13 ∷ 10 ∷ [])).0
    ≡ parse_error
unfolding proxy_prot_parse_v1 find_byte c_string split_space agrees
unknown_alone = refl
