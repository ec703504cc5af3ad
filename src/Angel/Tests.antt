-- ===== src/Angel/Tests.antt =====
-- A number, a string and a character behind three bytes, and before two.
use lighttpd.Prelude.{◌≡◌, refl, true, some, List, [], ◌∷◌, ◌++◌, Bytes, arith, length}
use lighttpd.Angel.Defs.{
  to_bytes, bytes_at, from_bytes, AngelBuffer, invalid_string_length, done, failed,
}
use lighttpd.Angel.Read.{data_read_str}
use lighttpd.Angel.Errors.{IsStr, data_read_str-IsStr}
use lighttpd.Angel.RoundTrip.{
  Value, int32, char, str, write_values, read_values, read_values-write_values,
}

abbrev message : List Value
message = int32 70000 ∷ str (102 ∷ 111 ∷ 111 ∷ []) ∷ char 10 ∷ []

read_values-write_values_example :
    (out : Bytes) × (write_values (1 ∷ 2 ∷ 3 ∷ []) message ≡ done true out)
    × (read_values message (record { content = out ++ (4 ∷ 5 ∷ []); pos = 3 })
        ≡ some (done message (record { content = out ++ (4 ∷ 5 ∷ []); pos = length out })))
unfolding write_values read_values to_bytes
read_values-write_values_example =
    read_values-write_values message (1 ∷ 2 ∷ 3 ∷ []) (4 ∷ 5 ∷ [])
      (omega arith, (omega arith, (omega arith, omega arith))) (omega arith)

abbrev buffer : Bytes → AngelBuffer
buffer bs = record { content = bs; pos = 1 }

abbrev short : AngelBuffer
short = buffer (7 ∷ 2 ∷ 0 ∷ 0 ∷ 0 ∷ 102 ∷ [])

data_read_str-IsStr_example : IsStr short (data_read_str short)
data_read_str-IsStr_example = data_read_str-IsStr short (omega arith, omega arith)

-- The length 2, and both bytes
read_str_two :
    data_read_str (buffer (7 ∷ 2 ∷ 0 ∷ 0 ∷ 0 ∷ 102 ∷ 111 ∷ 111 ∷ []))
    ≡ some (
        done
          (102 ∷ 111 ∷ [])
          (record { content = 7 ∷ 2 ∷ 0 ∷ 0 ∷ 0 ∷ 102 ∷ 111 ∷ 111 ∷ []; pos = 7 }))
unfolding data_read_str bytes_at from_bytes
read_str_two = refl

-- The length -1
read_str_negative :
    data_read_str (buffer (7 ∷ 255 ∷ 255 ∷ 255 ∷ 255 ∷ []))
    ≡ some (failed invalid_string_length (buffer (7 ∷ 255 ∷ 255 ∷ 255 ∷ 255 ∷ [])))
unfolding data_read_str bytes_at from_bytes
read_str_negative = refl
