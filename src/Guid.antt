-- ===== src/Guid.antt =====
-- NumericGuid.h: GUIDs as arrays of 16 bytes. A character is its code. The operators of
-- `std::array` compare byte by byte.
pub mod Order
pub mod Hex
mod Examples
use umaa_cpp.Base.{
  ℕ, zero, suc, ◌+◌, ◌*◌, ◌/◌, ◌%◌, ◌^◌, ◌<◌, Bool, true, false, not, ◌&&◌, List, [], ◌∷◌, ◌++◌,
  ltb, ◌==◌, if◌then◌else◌, length, replicate, ◌≡◌, All,
}

abbrev pub guid_size : ℕ
guid_size = 16

abbrev pub Guid : Type 0
Guid = List ℕ

-- 16 bytes.
abbrev pub IsGuid : Guid → Type 0
IsGuid g = (length g ≡ guid_size) × All (λ b. b < 256) g

unfoldable pub nil_guid : Guid
nil_guid = replicate guid_size 0

-- `==` of the arrays, and `<`, which is that of std::lexicographical_compare.
abbrev pub same_bytes : Guid → Guid → Bool
same_bytes [] [] = true
same_bytes [] (b ∷ bs) = false
same_bytes (a ∷ as') [] = false
same_bytes (a ∷ as') (b ∷ bs) = a == b && same_bytes as' bs

abbrev pub bytes_before : Guid → Guid → Bool
bytes_before as' [] = false
bytes_before [] (b ∷ bs) = true
bytes_before (a ∷ as') (b ∷ bs) =
    if ltb a b then true else (if ltb b a then false else bytes_before as' bs)

unfoldable pub eq : Guid → Guid → Bool
eq a b = same_bytes a b

unfoldable pub ne : Guid → Guid → Bool
ne a b = not (same_bytes a b)

unfoldable pub lt : Guid → Guid → Bool
lt a b = bytes_before a b

unfoldable pub gt : Guid → Guid → Bool
gt a b = bytes_before b a

unfoldable pub le : Guid → Guid → Bool
le a b = not (bytes_before b a)

unfoldable pub ge : Guid → Guid → Bool
ge a b = not (bytes_before a b)

-- The digit of a number below 16 in "0123456789ABCDEF".
abbrev pub hex : ℕ → ℕ
hex n = if ltb n 10 then 48 + n else 55 + n

abbrev pub space : ℕ
space = 32

abbrev pub pop_back : List ℕ → List ℕ
pop_back [] = []
pop_back (c ∷ []) = []
pop_back (c ∷ d ∷ cs) = c ∷ pop_back (d ∷ cs)

-- The loop of getTwoDigitHexString, after it has written `text`; `value >> 4` and `value & 0x0f`.
unfoldable pub hex_loop : Guid → List ℕ → List ℕ
hex_loop [] text = text
hex_loop (value ∷ values) text =
    hex_loop values (text ++ hex (value / 16) ∷ hex (value % 16) ∷ space ∷ [])

unfoldable pub get_two_digit_hex_string : Guid → List ℕ
get_two_digit_hex_string g = pop_back (hex_loop g [])
