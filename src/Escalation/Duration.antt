-- ===== src/Escalation/Duration.antt =====
-- src/dispatch/duration-parser.ts. The number is exact; the source's is, below 2 ^ 53.
use Prim.Native.Char.{Char, code}
use aof.Prelude.{
  ℕ, ◌+◌, ◌-◌, ◌*◌, String, Bool, ◌&&◌, Option, none, some, List, [], ◌∷◌, if◌then◌else◌, eqb, leb,
  ◌≡◌, refl,
}
use aof.Json.{chars}

abbrev is_digit : Char → Bool
is_digit c = leb b'0' (code c) && leb (code c) b'9'

abbrev unit_ms : ℕ → Char → Option ℕ
unit_ms value c =
    if eqb (code c) b'm'
    then some (value * 60 * 1000)
    else if eqb (code c) b'h'
    then some (value * 60 * 60 * 1000)
    else if eqb (code c) b'd'
    then some (value * 24 * 60 * 60 * 1000)
    else none

-- /^(\d+)([mhd])$/ behind its first digit, with the value of the digits so far.
unfoldable pub read_duration : ℕ → List Char → Option ℕ
read_duration value [] = none
read_duration value (c ∷ []) = if eqb value 0 then none else unit_ms value c
read_duration value (c ∷ d ∷ cs) =
    let rest = read_duration (value * 10 + (code c - b'0')) (d ∷ cs) in
    if is_digit c then rest else none

unfoldable pub parse_duration : String → Option ℕ
unfolding chars read_duration
parse_duration s = elim (chars s) [
  | [] ↦ none
  | c ∷ cs ↦ if is_digit c then read_duration (code c - b'0') cs else none
]

durations :
    (parse_duration "90m" ≡ some 5400000)
    × (parse_duration "2d" ≡ some 172800000)
    × (parse_duration "0h" ≡ none)
    × (parse_duration "h" ≡ none)
    × (parse_duration "1h30m" ≡ none)
unfolding parse_duration
durations = (refl, refl, refl, refl, refl)
