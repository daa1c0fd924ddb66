-- ===== src/Json.antt =====
-- Values of a task's frontmatter (YAML or JSON data) and the part of the language's behaviour that
-- src/dispatch/dag-condition-evaluator.ts uses on them: `===`, member access, `split`.
-- Every finite double is a whole multiple of 2^-1074: a number is that multiple, so equality and
-- order are exact. NaN and the infinities do not occur in parsed frontmatter.
use Prim.Native.Char.{Char, code}
use Prim.Native.Nat.{◌^◌}
use aof.Prelude.{
  ℕ, ◌+◌, ◌*◌, ◌-◌, String, Bool, true, false, ◌&&◌, List, [], ◌∷◌, Option, none, some, leb, eqb,
  if◌then◌else◌, ◌==◌, ◌≡◌, refl,
}
use aof.Prelude.Int
use aof.Prelude.Int.{ℤ, pos, negsuc}

-- The number 1.
unfoldable pub unit : ℕ
unit = 2 ^ 1074

mutual
  pub data Fields : Type 0 where
    end : Fields
    field : String → Value → Fields → Fields

  pub data Items : Type 0 where
    nil : Items
    cons : Value → Items → Items

  pub data Value : Type 0 where
    null : Value
    bool : Bool → Value
    num : ℤ → Value
    text : String → Value
    arr : Items → Value
    obj : Fields → Value

-- The object with no member.
abbrev pub empty_object : Value
empty_object = obj end

-- `===` between a value of the definition and one of the context. Arrays and objects are compared
-- by reference, and the two sides never share one.
unfoldable pub strict_eq : Value → Value → Bool
strict_eq null null = true
strict_eq (bool true) (bool true) = true
strict_eq (bool false) (bool false) = true
strict_eq (num a) (num b) = Int.eq a b
strict_eq (text s) (text t) = s == t
strict_eq _ _ = false

-- The same, where `undefined` is `none`.
unfoldable pub strict_eq_or_undefined : Option Value → Option Value → Bool
unfolding strict_eq
strict_eq_or_undefined none none = true
strict_eq_or_undefined (some a) (some b) = strict_eq a b
strict_eq_or_undefined _ _ = false

unfoldable pub includes_value : Value → Items → Bool
unfolding strict_eq
includes_value v nil = false
includes_value v (cons x xs) = if strict_eq x v then true else includes_value v xs

-- The characters of a text.
unfoldable pub chars : String → List Char
chars String.[] = []
chars (String.◌∷◌ c s) = c ∷ chars s

-- `path.split(".")`: the pieces between dots, empty ones included. `piece` is read backwards.
reverse_onto : List Char → String → String
reverse_onto [] s = s
reverse_onto (c ∷ cs) s = reverse_onto cs (String.◌∷◌ c s)

split_from : List Char → String → List String
unfolding reverse_onto
split_from piece String.[] = reverse_onto piece String.[] ∷ []
split_from piece (String.◌∷◌ c s) =
    let here = reverse_onto piece String.[] ∷ split_from [] s in
    let on = split_from (c ∷ piece) s in if eqb (code c) b'.' then here else on

unfoldable pub split_dots : String → List String
unfolding split_from
split_dots = split_from []

-- An array's index, if the key is a decimal numeral in canonical form.
digits_value : ℕ → List Char → Option ℕ
digits_value acc [] = some acc
digits_value acc (c ∷ cs) =
    let rest = digits_value (acc * 10 + (code c - b'0')) cs in
    if leb b'0' (code c) && leb (code c) b'9' then rest else none

array_index : List Char → Option ℕ
unfolding digits_value
array_index [] = none
array_index (c ∷ []) = digits_value 0 (c ∷ [])
array_index (c ∷ d ∷ cs) = if eqb (code c) b'0' then none else digits_value 0 (c ∷ d ∷ cs)

item_at : ℕ → Items → Option Value
item_at i nil = none
item_at i (cons x xs) = if eqb i 0 then some x else item_at (i - 1) xs

count_items : Items → ℕ
count_items nil = 0
count_items (cons x xs) = 1 + count_items xs

field_of : String → Fields → Option Value
field_of k end = none
field_of k (field j v fs) = if j == k then some v else field_of k fs

-- `current[part]` on an object or array; only own properties, and the length of an array.
array_member : String → Items → Option Value
unfolding array_index item_at count_items chars unit
array_member k xs =
    if k == "length"
    then some (num (pos (count_items xs * unit)))
    else elim (array_index (chars k)) [ none ↦ none | some i ↦ item_at i xs ]

-- Once `current` is no object, every further part gives `undefined`.
unfoldable pub walk : List String → Option Value → Option Value
unfolding field_of array_member
walk [] current = current
walk (part ∷ parts) (some (obj fs)) = walk parts (field_of part fs)
walk (part ∷ parts) (some (arr xs)) = walk parts (array_member part xs)
walk (part ∷ parts) _ = none

-- src/dispatch/dag-condition-evaluator.ts, `getField`.
unfoldable pub get_field : Value → String → Option Value
unfolding walk split_dots
get_field root path = walk (split_dots path) (some root)

get_field_nested :
    get_field
      (obj (field "hops" (obj (field "a" (arr (cons null (cons (bool true) nil))) end)) end))
      "hops.a.1"
    ≡ some (bool true)
unfolding get_field
get_field_nested = refl

get_field_missing : get_field (obj (field "hops" (text "x") end)) "hops.a" ≡ none
unfolding get_field
get_field_missing = refl
