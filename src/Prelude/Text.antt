-- ===== src/Prelude/Text.antt =====
-- Go's strings as lists of bytes, and the functions of package strings that the program calls.
-- Letter case and white space are those of ASCII.
use Prim.Native.Nat.{ℕ, ◌+◌, ◌-◌}
use Prim.Native.Char.{code}
use Prim.Native.String.{String}
use mathlib.Core.Path.{◌≡◌, refl}
use mathlib.Core.Bool.{Bool, true, false, ◌&&◌, ◌||◌}
use mathlib.Core.List.{List, [], ◌∷◌, ◌++◌, map, reverse}
use skifity.Prelude.Tests.{
  ltb, leb, nat_beq, if◌then◌else◌, Comparable, list_beq, list_beq_iff, nat_eq,
}
use skifity.Prelude.Lists.{length, drop}

abbrev pub Text : Type 0
Text = List ℕ

abbrev pub codes : String → Text
codes String.[] = []
codes (String.◌∷◌ c s) = code c ∷ codes s

instance abbrev pub text_eq : Comparable Text
text_eq = record { same = list_beq; same_iff = list_beq_iff }

abbrev pub is_empty : Text → Bool
is_empty [] = true
is_empty (_ ∷ _) = false

unfoldable pub has_prefix : Text → Text → Bool
has_prefix s [] = true
has_prefix [] (p ∷ ps) = false
has_prefix (c ∷ s) (p ∷ ps) = nat_beq c p && has_prefix s ps

unfoldable pub has_suffix : Text → Text → Bool
unfolding has_prefix
has_suffix s p = has_prefix (reverse s) (reverse p)

unfoldable pub trim_prefix : Text → Text → Text
unfolding has_prefix
trim_prefix s p = if has_prefix s p then drop (length p) s else s

unfoldable pub trim_suffix : Text → Text → Text
unfolding has_prefix
trim_suffix s p =
    if has_prefix (reverse s) (reverse p) then reverse (drop (length p) (reverse s)) else s

unfoldable pub contains : Text → Text → Bool
unfolding has_prefix
contains [] sub = is_empty sub
contains (c ∷ s) sub = has_prefix (c ∷ s) sub || contains s sub

unfoldable pub contains_byte : Text → ℕ → Bool
contains_byte [] b = false
contains_byte (c ∷ s) b = nat_beq c b || contains_byte s b

abbrev pub is_space : ℕ → Bool
is_space c = nat_beq c 32 || (leb 9 c && leb c 13)

unfoldable pub trim_left : (ℕ → Bool) → Text → Text
trim_left drops [] = []
trim_left drops (c ∷ s) = let rest = trim_left drops s in if drops c then rest else c ∷ s

unfoldable pub trim_right : (ℕ → Bool) → Text → Text
unfolding trim_left
trim_right drops s = reverse (trim_left drops (reverse s))

unfoldable pub trim_space : Text → Text
unfolding trim_right
trim_space s = trim_right is_space (trim_left is_space s)

abbrev pub lower : ℕ → ℕ
lower c = if leb b'A' c && leb c b'Z' then c + 32 else c

abbrev pub upper : ℕ → ℕ
upper c = if leb b'a' c && leb c b'z' then c - 32 else c

abbrev pub to_lower : Text → Text
to_lower = map lower

abbrev pub to_upper : Text → Text
to_upper = map upper

-- `strings.Split` by one byte, with the part being read.
unfoldable pub split_from : ℕ → Text → Text → List Text
split_from sep part [] = reverse part ∷ []
split_from sep part (c ∷ s) = elim (nat_beq c sep) [
  | true ↦ reverse part ∷ split_from sep [] s
  | false ↦ split_from sep (c ∷ part) s
]

unfoldable pub split : Text → ℕ → List Text
unfolding split_from
split s sep = split_from sep [] s

-- `strings.Cut`: what is before and after the first separator, and whether there is one.
unfoldable pub cut : Text → ℕ → Text × Text × Bool
cut [] sep = ([], [], false)
cut (c ∷ s) sep =
    let (before, after, found) = cut s sep in
    if nat_beq c sep then ([], s, true) else (c ∷ before, after, found)

-- `strings.FieldsFunc`: the runs of bytes that are no separators.
unfoldable pub fields_from : (ℕ → Bool) → Text → Text → List Text
fields_from sep part [] = if is_empty part then [] else reverse part ∷ []
fields_from sep part (c ∷ s) = elim (sep c) [
  | true ↦ if is_empty part then fields_from sep [] s else reverse part ∷ fields_from sep [] s
  | false ↦ fields_from sep (c ∷ part) s
]

unfoldable pub fields_func : Text → (ℕ → Bool) → List Text
unfolding fields_from
fields_func s sep = fields_from sep [] s

unfoldable pub fields : Text → List Text
unfolding fields_from
fields s = fields_from is_space [] s

abbrev pub first_non_empty : List Text → Text
first_non_empty [] = []
first_non_empty (v ∷ vs) = if is_empty v then first_non_empty vs else v

unfoldable pub join : List Text → Text → Text
join [] sep = []
join (p ∷ []) sep = p
join (p ∷ q ∷ ps) sep = p ++ (sep ++ join (q ∷ ps) sep)

-- `<` on strings.
unfoldable pub text_ltb : Text → Text → Bool
text_ltb s [] = false
text_ltb [] (d ∷ t) = true
text_ltb (c ∷ s) (d ∷ t) = ltb c d || (nat_beq c d && text_ltb s t)

split_example : split (codes "a,,b") b',' ≡ codes "a" ∷ [] ∷ codes "b" ∷ []
unfolding split
split_example = refl

fields_example : fields (codes " 0  3 * ") ≡ codes "0" ∷ codes "3" ∷ codes "*" ∷ []
unfolding fields
fields_example = refl

trim_space_example : trim_space (codes "  a b ") ≡ codes "a b"
unfolding trim_space
trim_space_example = refl
