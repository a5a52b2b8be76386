-- ===== src/Text.antt =====
-- The functions of Go's `strings` that the program calls on headers, paths, variables and statements.
pub mod Laws
pub mod Decimal
pub mod Conv
pub mod Digits
pub mod Fields
use Prim.Native.Char.{code}
use Prim.Native.String.{[], ◌∷◌}
use smallworld_be.Prelude.{
  ℕ, String, ◌==◌, Bool, true, false, ◌&&◌, ◌||◌, Option, none, some, eqb, leb, if◌then◌else◌, not,
}

-- What follows a prefix.
unfoldable pub strip : String → String → Option String
strip s [] = some s
strip [] (d ∷ t) = none
strip (c ∷ s) (d ∷ t) = let rest = strip s t in if eqb (code c) (code d) then rest else none

abbrev or_whole : String → Option String → String
or_whole s none = s
or_whole s (some rest) = rest

unfoldable pub trim_prefix : String → String → String
unfolding strip
trim_prefix s t = or_whole s (strip s t)

unfoldable pub has_suffix : String → String → Bool
has_suffix [] t = t == ""
has_suffix (c ∷ s) t = (c ∷ s) == t || has_suffix s t

unfoldable pub trim_suffix : String → String → String
trim_suffix [] t = []
trim_suffix (c ∷ s) t = let rest = trim_suffix s t in if (c ∷ s) == t then [] else c ∷ rest

-- strings.Contains(s, "/")
unfoldable pub has_slash : String → Bool
has_slash [] = false
has_slash (c ∷ s) = eqb (code c) b'/' || has_slash s

-- unicode.IsSpace
unfoldable pub is_space : ℕ → Bool
is_space c =
    (leb 9 c && leb c 13)
    || eqb c b' '
    || eqb c 0x85
    || eqb c 0xA0
    || eqb c 0x1680
    || (leb 0x2000 c && leb c 0x200A)
    || eqb c 0x2028
    || eqb c 0x2029
    || eqb c 0x202F
    || eqb c 0x205F
    || eqb c 0x3000

unfoldable pub trim_left : String → String
unfolding is_space
trim_left [] = []
trim_left (c ∷ s) = let rest = trim_left s in if is_space (code c) then rest else c ∷ s

unfoldable pub trim_right : String → String
unfolding is_space
trim_right [] = []
trim_right (c ∷ s) =
    let rest = trim_right s in if rest == "" && is_space (code c) then [] else c ∷ rest

-- strings.TrimSpace
unfoldable pub trim_space : String → String
unfolding trim_left trim_right
trim_space s = trim_right (trim_left s)

abbrev starts : String → String → Bool
starts s t = elim (strip s t) [ none ↦ false | some rest ↦ true ]

-- Whether path.Clean would change what follows the first slash of a path, a slash at its end apart:
-- an empty segment, or one that is "." or "..".
unfoldable pub has_dirt : String → Bool
unfolding strip
has_dirt [] = false
has_dirt (c ∷ s) =
    starts (c ∷ s) "//"
    || starts (c ∷ s) "/./"
    || starts (c ∷ s) "/../"
    || (c ∷ s) == "/."
    || (c ∷ s) == "/.."
    || has_dirt s

unfoldable pub is_clean : String → Bool
unfolding strip has_dirt
is_clean path = starts path "/" && not (has_dirt path)
