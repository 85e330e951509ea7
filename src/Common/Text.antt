-- ===== src/Common/Text.antt =====
-- What the program uses of Go's `strings` and `unicode` on texts, over code points.
use Prim.Native.Nat.{ℕ, ◌+◌}
use Prim.Native.Char.{code}
use Prim.Native.String.{String}
use mathlib.Core.Path.{◌≡◌, refl}
use mathlib.Core.Bool.{Bool, true, false, ◌&&◌, ◌||◌}
use mathlib.Core.List.{List, [], ◌∷◌}
use mathlib.Core.Option.{Option, none, some}
use dappnode_nexus_gateway.Common.Tests.{leb, ◌==◌, nat_eq, string_eq, if◌then◌else◌}

abbrev pub codes : String → List ℕ
codes String.[] = []
codes (String.◌∷◌ c s) = code c ∷ codes s

-- `unicode.IsSpace`.
unfoldable pub is_space : ℕ → Bool
is_space c =
    (leb 9 c && leb c 13)
    || c == 32
    || c == 0x85
    || c == 0xA0
    || c == 0x1680
    || (leb 0x2000 c && leb c 0x200A)
    || c == 0x2028
    || c == 0x2029
    || c == 0x202F
    || c == 0x205F
    || c == 0x3000

all_space : List ℕ → Bool
unfolding is_space
all_space [] = true
all_space (c ∷ cs) = is_space c && all_space cs

-- `strings.TrimSpace(s) == ""`.
unfoldable pub is_blank : String → Bool
unfolding all_space
is_blank s = all_space (codes s)

blanks : is_blank " \t" ≡ true
unfolding is_blank
blanks = refl

not_blank : is_blank " a " ≡ false
unfolding is_blank
not_blank = refl

-- `strings.EqualFold` against a text of ASCII letters other than k and s, which no other code point
-- folds to.
unfoldable pub fold_case : ℕ → ℕ
fold_case c = if leb b'A' c && leb c b'Z' then c + 32 else c

unfoldable pub same_folded : List ℕ → List ℕ → Bool
unfolding fold_case
same_folded [] [] = true
same_folded [] (d ∷ ds) = false
same_folded (c ∷ cs) [] = false
same_folded (c ∷ cs) (d ∷ ds) = fold_case c == fold_case d && same_folded cs ds

unfoldable pub equal_fold : String → String → Bool
unfolding same_folded
equal_fold s t = same_folded (codes s) (codes t)

folded : equal_fold "DoubleWord" "doubleword" ≡ true
unfolding equal_fold
folded = refl

-- `strings.CutPrefix(s, prefix)`.
unfoldable pub cut_prefix : String → String → Option String
cut_prefix s String.[] = some s
cut_prefix String.[] (String.◌∷◌ d p) = none
cut_prefix (String.◌∷◌ c s) (String.◌∷◌ d p) =
    let rest = cut_prefix s p in if code c == code d then rest else none

trim_left : String → String
trim_left String.[] = String.[]
trim_left (String.◌∷◌ c s) =
    let rest = trim_left s in if is_space (code c) then rest else String.◌∷◌ c s

trim_right : String → String
trim_right String.[] = String.[]
trim_right (String.◌∷◌ c s) =
    let rest = trim_right s in
    if is_space (code c) && rest == "" then String.[] else String.◌∷◌ c rest

-- `strings.TrimSpace`.
unfoldable pub trim_space : String → String
unfolding trim_left trim_right is_space
trim_space s = trim_left (trim_right s)

trimmed : trim_space " \t[DONE] " ≡ "[DONE]"
unfolding trim_space
trimmed = refl
