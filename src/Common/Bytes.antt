-- ===== src/Common/Bytes.antt =====
-- Go strings as lists of bytes, in UTF-8: equality, `fmt.Sprintf("%d")`, strings.TrimSpace and
-- strings.Trim, and maps with such keys as lists of their entries.
use Prim.Native.Nat.{ℕ, zero, suc, ◌+◌, ◌/◌, ◌%◌}
use mathlib.Core.Path.{◌≡◌, refl}
use mathlib.Core.Logic.{◌↔◌}
use mathlib.Core.Bool.{Bool, true, false, ◌&&◌, ◌||◌}
use mathlib.Core.Option.{Option, none, some}
use mathlib.Core.List.{List, [], ◌∷◌, ◌++◌, reverse}
use native.Mathlib.Omega.{arith}
use Prim.Native.String.{String}
use dappnode_nexus_gateway.Common.Text.{codes}
use dappnode_nexus_gateway.Common.Tests.{
  if◌then◌else◌, ltb, leb, ◌==◌, Eq, nat_eq, nat_beq, nat_beq_iff,
}

abbrev pub Bytes : Type 0
Bytes = List ℕ

abbrev pub bytes_beq : Bytes → Bytes → Bool
bytes_beq [] [] = true
bytes_beq [] (d ∷ ds) = false
bytes_beq (c ∷ cs) [] = false
bytes_beq (c ∷ cs) (d ∷ ds) = (c == d) && bytes_beq cs ds

pub bytes_beq_iff : (a b : Bytes) → (bytes_beq a b ≡ true) ↔ (a ≡ b)
bytes_beq_iff [] [] = (λ h. refl, λ h. refl)
bytes_beq_iff [] (d ∷ ds) = (λ h. absurd cc, λ h. absurd cc)
bytes_beq_iff (c ∷ cs) [] = (λ h. absurd cc, λ h. absurd cc)
bytes_beq_iff (c ∷ cs) (d ∷ ds) = (forth (bytes_beq_iff cs ds).0, back (bytes_beq_iff cs ds).1)
  where
    forth :
        (bytes_beq cs ds ≡ true → cs ≡ ds)
        → (nat_beq c d && bytes_beq cs ds) ≡ true
        → c ∷ cs ≡ d ∷ ds
    forth ih h =
        let e : c ≡ d = (nat_beq_iff c d).0 (ground (arith, h)) in
        let f : cs ≡ ds = ih (ground (arith, h)) in cc

    back :
        (cs ≡ ds → bytes_beq cs ds ≡ true)
        → c ∷ cs ≡ d ∷ ds
        → (nat_beq c d && bytes_beq cs ds) ≡ true
    back ih h =
        let e : nat_beq c d ≡ true = (nat_beq_iff c d).1 cc in
        let f : bytes_beq cs ds ≡ true = ih cc in ground (arith, e, f)

instance abbrev pub bytes_eq : Eq Bytes
bytes_eq = record { is_same = bytes_beq; is_same_iff = bytes_beq_iff }

-- `m[key]`, its write, and `delete(m, key)`.
module _ {ℓ κ} {Key : Type ℓ} ⦃eq : Eq Key⦄ {A : Type κ} where
  unfoldable pub find : Key → List (Key × A) → Option A
  find k [] = none
  find k ((j, v) ∷ entries) = if j == k then some v else find k entries

  unfoldable pub put : Key → A → List (Key × A) → List (Key × A)
  put k v [] = (k, v) ∷ []
  put k v ((j, w) ∷ entries) =
      let rest = put k v entries in if j == k then (k, v) ∷ entries else (j, w) ∷ rest

  unfoldable pub erase : Key → List (Key × A) → List (Key × A)
  erase k [] = []
  erase k ((j, w) ∷ entries) = let rest = erase k entries in if j == k then rest else (j, w) ∷ rest

-- The decimal digits of a number, as `%d` writes them; more fuel than the number has digits.
unfoldable pub digits_from : ℕ → ℕ → Bytes
digits_from zero n = []
digits_from (suc fuel) n =
    let rest = digits_from fuel (n / 10) in
    if ltb n 10 then (48 + n) ∷ [] else rest ++ (48 + n % 10) ∷ []

unfoldable pub digits : ℕ → Bytes
unfolding digits_from
digits n = digits_from (suc n) n

-- strings.TrimSpace: the number of bytes of the white space in UTF-8 at the front of a string, and
-- at the back of a reversed one; 0 where there is none.
unfoldable pub space_at : ℕ → ℕ → ℕ → ℕ
space_at a b c =
    if (leb 9 a && leb a 13) || a == 32
    then 1
    else if a == 194 && (b == 133 || b == 160)
    then 2
    else if (a == 225 && b == 154 && c == 128)
        || (a == 226 && b == 128 && ((leb 128 c && leb c 138) || c == 168 || c == 169 || c == 175))
        || (a == 226 && b == 129 && c == 159)
        || (a == 227 && b == 128 && c == 128)
    then 3
    else 0

-- 0 stands for a byte past the end.
unfoldable pub space_before : Bytes → ℕ
space_before [] = 0
space_before (a ∷ []) = space_at a 0 0
space_before (a ∷ b ∷ []) = space_at a b 0
space_before (a ∷ b ∷ c ∷ s) = space_at a b c

unfoldable pub space_back : ℕ → ℕ → ℕ → ℕ
space_back a b c =
    if space_at a 0 0 == 1
    then 1
    else if space_at b a 0 == 2
    then 2
    else if space_at c b a == 3
    then 3
    else 0

unfoldable pub space_behind : Bytes → ℕ
space_behind [] = 0
space_behind (a ∷ []) = space_back a 0 0
space_behind (a ∷ b ∷ []) = space_back a b 0
space_behind (a ∷ b ∷ c ∷ s) = space_back a b c

-- What follows the white space in front; `skip` bytes of it are to be left out.
unfoldable pub drop_space : (Bytes → ℕ) → ℕ → Bytes → Bytes
drop_space width skip [] = []
drop_space width (suc skip) (c ∷ s) = drop_space width skip s
drop_space width zero (c ∷ s) = elim (width (c ∷ s)) [
  | zero ↦ c ∷ s
  | suc skip ↦ drop_space width skip s
]

unfoldable pub trim_space_bytes : Bytes → Bytes
trim_space_bytes s = reverse (drop_space space_behind 0 (reverse (drop_space space_before 0 s)))

-- strings.Trim with a set of bytes.
unfoldable pub drop_while : (ℕ → Bool) → Bytes → Bytes
drop_while p [] = []
drop_while p (c ∷ s) = let rest = drop_while p s in if p c then rest else c ∷ s

unfoldable pub trim : (ℕ → Bool) → Bytes → Bytes
unfolding drop_while
trim p s = reverse (drop_while p (reverse (drop_while p s)))

unfoldable pub drop_first : ℕ → Bytes → Bytes
drop_first c [] = []
drop_first c (d ∷ s) = if d == c then s else d ∷ s

-- The order of strings.
unfoldable pub byte_less : Bytes → Bytes → Bool
byte_less [] [] = false
byte_less [] (d ∷ ds) = true
byte_less (c ∷ cs) [] = false
byte_less (c ∷ cs) (d ∷ ds) = let rest = byte_less cs ds in if c == d then rest else ltb c d

-- The bytes of a character, and of a text.
unfoldable pub utf8_of : ℕ → Bytes
utf8_of c =
    if ltb c 128
    then c ∷ []
    else if ltb c 2048
    then (192 + c / 64) ∷ (128 + c % 64) ∷ []
    else if ltb c 65536
    then (224 + c / 4096) ∷ (128 + c / 64 % 64) ∷ (128 + c % 64) ∷ []
    else (240 + c / 262144) ∷ (128 + c / 4096 % 64) ∷ (128 + c / 64 % 64) ∷ (128 + c % 64) ∷ []

unfoldable pub utf8_of_codes : List ℕ → Bytes
unfolding utf8_of
utf8_of_codes [] = []
utf8_of_codes (c ∷ cs) = utf8_of c ++ utf8_of_codes cs

abbrev pub utf8 : String → Bytes
utf8 s = utf8_of_codes (codes s)
