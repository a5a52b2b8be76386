-- ===== src/Text/Conv.antt =====
-- What the program calls of Go's `strconv`, and of `strings.ToLower`.
use Prim.Native.Char.{code}
use smallworld_be.Prelude.{
  ℕ, zero, ◌+◌, ◌-◌, ◌*◌, ◌^◌, Bool, true, false, ◌&&◌, ◌||◌, Option, none, some, String, ◌==◌,
  if◌then◌else◌, ltb, leb, eqb,
}
use smallworld_be.Prelude.Int.{ℤ, pos, negsuc}

-- The lower case of a code point, as far as ASCII letters come out of it: besides A to Z only
-- U+0130 and U+212A have such a lower case.
unfoldable pub lower : ℕ → ℕ
lower c =
    if leb b'A' c && leb c b'Z'
    then c + 32
    else if eqb c 0x130
    then b'i'
    else if eqb c 0x212A
    then b'k'
    else c

-- strings.ToLower(s) == word, for an ASCII word.
unfoldable pub lower_is : String → String → Bool
unfolding lower
lower_is String.[] String.[] = true
lower_is String.[] (String.◌∷◌ d t) = false
lower_is (String.◌∷◌ c s) String.[] = false
lower_is (String.◌∷◌ c s) (String.◌∷◌ d t) = eqb (lower (code c)) (code d) && lower_is s t

-- The number of a text of digits, with those read before as `n`.
unfoldable pub digits : String → ℕ → Option ℕ
digits String.[] n = some n
digits (String.◌∷◌ c s) n =
    let rest = digits s (n * 10 + (code c - b'0')) in
    if leb b'0' (code c) && leb (code c) b'9' then rest else none

abbrev some_if : Bool → ℤ → Option ℤ
some_if true x = some x
some_if false x = none

abbrev positive : Option ℕ → Option ℤ
positive none = none
positive (some n) = some_if (ltb n (2 ^ 63)) (pos n)

-- -n, for a number n of 2 ^ 63 at most
abbrev negative : Option ℕ → Option ℤ
negative none = none
negative (some zero) = some (pos 0)
negative (some n) = some_if (leb n (2 ^ 63)) (negsuc (n - 1))

-- At least one digit.
abbrev some_digits : String → Option ℕ
some_digits String.[] = none
some_digits (String.◌∷◌ c s) = digits (String.◌∷◌ c s) 0

-- strconv.Atoi, or none where it gives an error: a sign or none, digits, and an int of 64 bits.
unfoldable pub atoi : String → Option ℤ
unfolding digits
atoi String.[] = none
atoi (String.◌∷◌ c s) =
    if eqb (code c) b'-'
    then negative (some_digits s)
    else if eqb (code c) b'+'
    then positive (some_digits s)
    else positive (digits (String.◌∷◌ c s) 0)

-- strconv.ParseBool
unfoldable pub parse_bool : String → Option Bool
parse_bool s =
    if s == "1" || s == "t" || s == "T" || s == "true" || s == "TRUE" || s == "True"
    then some true
    else if s == "0" || s == "f" || s == "F" || s == "false" || s == "FALSE" || s == "False"
    then some false
    else none
