-- ===== src/Guid/Hex.antt =====
-- The text of getTwoDigitHexString can be read back.
use umaa_cpp.Base.{
  ℕ, ◌+◌, ◌-◌, ◌*◌, ◌/◌, ◌%◌, ◌<◌, ◌≡◌, refl, sym, ◌∙◌, ap, List, [], ◌∷◌, ◌++◌, Option, none, some,
  ◌&&◌, ◌==◌, leb, if◌then◌else◌, length, All, arith,
}
use mathlib.Core.List.{append-nil, append_assoc}
use umaa_cpp.Guid.{Guid, IsGuid, hex, space, pop_back, hex_loop, get_two_digit_hex_string}

-- A reader of such texts, by character codes: the digits 0 to 9 and A to F, two for each byte, and
-- between bytes the space, 32. Any other text is refused.
abbrev digit : ℕ → Option ℕ
digit c =
    if leb 48 c && leb c 57
    then some (c - 48)
    else (if leb 65 c && leb c 70 then some (c - 55) else none)

abbrev byte : Option ℕ → Option ℕ → Option ℕ
byte (some high) (some low) = some (high * 16 + low)
byte _ _ = none

abbrev put_first : Option ℕ → Option (List ℕ) → Option (List ℕ)
put_first (some b) (some bs) = some (b ∷ bs)
put_first _ _ = none

abbrev pub parse : List ℕ → Option (List ℕ)
parse [] = some []
parse (a ∷ []) = none
parse (a ∷ b ∷ []) = put_first (byte (digit a) (digit b)) (some [])
parse (a ∷ b ∷ c ∷ []) = none
parse (a ∷ b ∷ c ∷ d ∷ rest) =
    let bytes = parse (d ∷ rest) in
    if c == 32 then put_first (byte (digit a) (digit b)) bytes else none

-- The digits of the bytes, without the last space.
abbrev spell : Guid → List ℕ
spell [] = []
spell (v ∷ []) = hex (v / 16) ∷ hex (v % 16) ∷ []
spell (v ∷ w ∷ vs) = hex (v / 16) ∷ hex (v % 16) ∷ space ∷ spell (w ∷ vs)

abbrev spaced : Guid → List ℕ
spaced [] = []
spaced (v ∷ vs) = hex (v / 16) ∷ hex (v % 16) ∷ space ∷ spaced vs

loop_lem : (vs : Guid) (text : List ℕ) → hex_loop vs text ≡ text ++ spaced vs
unfolding hex_loop
loop_lem [] text = sym (append-nil text)
loop_lem (v ∷ vs) text =
    loop_lem vs (text ++ hex (v / 16) ∷ hex (v % 16) ∷ space ∷ [])
    ∙ append_assoc text (hex (v / 16) ∷ hex (v % 16) ∷ space ∷ []) (spaced vs)

pop_lem : (vs : Guid) → pop_back (spaced vs) ≡ spell vs
pop_lem [] = refl
pop_lem (v ∷ []) = refl
pop_lem (v ∷ w ∷ vs) = ap (λ xs. hex (v / 16) ∷ hex (v % 16) ∷ space ∷ xs) (pop_lem (w ∷ vs))

digit-hex : (n : ℕ) → n < 16 → digit (hex n) ≡ some n
digit-hex n h = ground arith

byte_lem : (v : ℕ) → v < 256 → byte (digit (hex (v / 16))) (digit (hex (v % 16))) ≡ some v
byte_lem v h =
    rw (digit-hex (v / 16) (omega (arith, h)), digit-hex (v % 16) (omega arith))
      (ap some (omega arith))

parse-spell : (vs : Guid) → All (λ b. b < 256) vs → parse (spell vs) ≡ some vs
parse-spell [] a = refl
parse-spell (v ∷ []) a = ap (λ b. put_first b (some [])) (byte_lem v a.0)
parse-spell (v ∷ w ∷ []) a =
    ap (λ b. put_first b (parse (spell (w ∷ [])))) (byte_lem v a.0)
    ∙ ap (put_first (some v)) (parse-spell (w ∷ []) a.1)
parse-spell (v ∷ w ∷ x ∷ vs) a =
    ap (λ b. put_first b (parse (spell (w ∷ x ∷ vs)))) (byte_lem v a.0)
    ∙ ap (put_first (some v)) (parse-spell (w ∷ x ∷ vs) a.1)

length-spell : (v : ℕ) (vs : Guid) → length (spell (v ∷ vs)) ≡ 3 * length vs + 2
length-spell v [] = refl
length-spell v (w ∷ vs) = omega (arith, length-spell w vs)

-- The text of a GUID has 47 characters, and a reader that takes two digits 0 to 9 or A to F for each
-- byte and one space between two bytes, and refuses any other text, reads the GUID back from it.
pub hex_round_trip :
    (g : Guid)
    → IsGuid g
    → (parse (get_two_digit_hex_string g) ≡ some g) × (length (get_two_digit_hex_string g) ≡ 47)
unfolding get_two_digit_hex_string
hex_round_trip [] (n, a) = absurd (omega (arith, n))
hex_round_trip (v ∷ vs) (n, a) =
    let text : pop_back (hex_loop (v ∷ vs) []) ≡ spell (v ∷ vs) =
      ap pop_back (loop_lem (v ∷ vs) []) ∙ pop_lem (v ∷ vs) in
    (ap parse text ∙ parse-spell (v ∷ vs) a, ap length text ∙ length-spell v vs ∙ omega (arith, n))
