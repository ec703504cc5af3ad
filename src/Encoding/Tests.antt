-- ===== src/Encoding/Tests.antt =====
-- The path "/a b%" and others.
use lighttpd.Prelude.{ℕ, zero, suc, ◌≡◌, refl, ap, false, some, Bytes, [], ◌∷◌, arith, length}
use lighttpd.Encoding.Encode.{html, uri, encode_bytes, encode_map}
use lighttpd.Encoding.Append.{GString, HasText, string_encode_append, string_encode_append-text}
use lighttpd.Encoding.Decode.{hex2int, join, sanitize, unescape, decode_bytes, url_decode}
use lighttpd.Encoding.Laws.{
  IsCString, IsShown, AreClean, url_decode-encode_bytes, url_decode-AreClean,
}

abbrev spaced : Bytes
spaced = 47 ∷ 97 ∷ 32 ∷ 98 ∷ 10 ∷ []

-- "/a%20b%0a"
abbrev spaced_uri : Bytes
spaced_uri = 47 ∷ 97 ∷ 37 ∷ 50 ∷ 48 ∷ 98 ∷ 37 ∷ 48 ∷ 97 ∷ []

encode_spaced : encode_bytes uri spaced ≡ spaced_uri
unfolding encode_bytes encode_map
encode_spaced = refl

-- `&#x26;`
encode_ampersand : encode_bytes html (38 ∷ []) ≡ 38 ∷ 35 ∷ 120 ∷ 50 ∷ 54 ∷ 59 ∷ []
unfolding encode_bytes encode_map
encode_ampersand = refl

-- "%zzb" loses the escape, "%4" stays.
decode_invalid : url_decode (97 ∷ 37 ∷ 122 ∷ 122 ∷ 98 ∷ []) ≡ 97 ∷ 98 ∷ []
unfolding url_decode decode_bytes hex2int unescape sanitize
decode_invalid = refl

decode_rest : url_decode (37 ∷ 52 ∷ 49 ∷ 98 ∷ 37 ∷ 52 ∷ []) ≡ 65 ∷ 98 ∷ 49 ∷ 98 ∷ 37 ∷ 52 ∷ []
unfolding url_decode decode_bytes hex2int unescape sanitize join
decode_rest = refl

zeros : ℕ → Bytes
zeros zero = []
zeros (suc n) = 0 ∷ zeros n

length-zeros : (n : ℕ) → length (zeros n) ≡ n
unfolding zeros
length-zeros zero = refl
length-zeros (suc n) = ap suc (length-zeros n)

abbrev prefix : GString
prefix = record { len = 2; mem = 47 ∷ 47 ∷ 0 ∷ [] }

string_encode_append-text_example :
    (s : GString) × (string_encode_append zeros spaced (some prefix) uri ≡ some s)
    × HasText (some prefix) (encode_bytes uri spaced) s
string_encode_append-text_example =
    string_encode_append-text zeros length-zeros spaced (some prefix) uri (omega arith)

spaced-IsCString : IsCString spaced
spaced-IsCString = (
  omega arith,
  omega arith,
  (
    omega arith,
    omega arith,
    (omega arith, omega arith, (omega arith, omega arith, (omega arith, omega arith, omega arith))),
  ),
)

url_decode-encode_bytes_example : IsShown spaced (url_decode (encode_bytes uri spaced))
url_decode-encode_bytes_example = url_decode-encode_bytes spaced spaced-IsCString

incomplete_escape : decode_bytes (37 ∷ 52 ∷ []) ≡ ([], false)
unfolding decode_bytes
incomplete_escape = refl

url_decode-AreClean_example : AreClean (url_decode spaced_uri)
unfolding decode_bytes hex2int unescape
url_decode-AreClean_example = url_decode-AreClean spaced_uri refl
