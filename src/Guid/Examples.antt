-- ===== src/Guid/Examples.antt =====
-- The theorems on GUIDs at concrete ones.
use umaa_cpp.Base.{◌≡◌, refl, some, not, [], ◌∷◌, ltb, ◌==◌, length, arith}
use umaa_cpp.Guid.{Guid, IsGuid, eq, ne, lt, gt, le, ge, get_two_digit_hex_string}
use umaa_cpp.Guid.Order.{number, order_is_numeric}
use umaa_cpp.Guid.Hex.{parse, hex_round_trip}

abbrev low : Guid
low = 0 ∷ 17 ∷ 34 ∷ 51 ∷ 68 ∷ 85 ∷ 102 ∷ 119 ∷ 136 ∷ 153 ∷ 170 ∷ 187 ∷ 204 ∷ 221 ∷ 238 ∷ 255 ∷ []

abbrev high : Guid
high = 0 ∷ 18 ∷ 34 ∷ 51 ∷ 68 ∷ 85 ∷ 102 ∷ 119 ∷ 136 ∷ 153 ∷ 170 ∷ 187 ∷ 204 ∷ 221 ∷ 238 ∷ 0 ∷ []

low-IsGuid : IsGuid low
low-IsGuid = (refl, ground arith)

high-IsGuid : IsGuid high
high-IsGuid = (refl, ground arith)

order_is_numeric_example :
    (lt low high ≡ ltb (number low) (number high))
    × (gt low high ≡ ltb (number high) (number low))
    × (le low high ≡ not (ltb (number high) (number low)))
    × (ge low high ≡ not (ltb (number low) (number high)))
    × (eq low high ≡ (number low == number high))
    × (ne low high ≡ not (number low == number high))
order_is_numeric_example = order_is_numeric low high low-IsGuid high-IsGuid

hex_round_trip_example :
    (parse (get_two_digit_hex_string low) ≡ some low) × (length (get_two_digit_hex_string low) ≡ 47)
hex_round_trip_example = hex_round_trip low low-IsGuid
