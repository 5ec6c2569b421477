-- ===== src/Common/Text.antt =====
-- Texts as lists of code points, and the functions of the standard library that the program calls on
-- them: strings.Contains and strings.Split for one character, strconv.ParseUint and ParseInt to base 10.
use Prim.Native.Char.{code}
use go_probe.Common.{
  ℕ, ◌+◌, ◌-◌, ◌*◌, ◌^◌, String, Option, none, some, Bool, false, ◌&&◌, ◌||◌, List, [], ◌∷◌, leb,
  ltb, ◌==◌, if◌then◌else◌, ◌>>=◌,
}

abbrev pub Text : Type 0
Text = List ℕ

abbrev pub codes : String → Text
codes String.[] = []
codes (String.◌∷◌ c s) = code c ∷ codes s

-- strings.Contains(s, string(c))
unfoldable pub contains : ℕ → Text → Bool
contains c [] = false
contains c (d ∷ s) = (c == d) || contains c s

-- strings.Split(s, string(c)), as its first piece and the others.
unfoldable pub split : ℕ → Text → Text × List Text
split c [] = ([], [])
split c (d ∷ s) =
    let (first, others) = split c s in if c == d then ([], first ∷ others) else (d ∷ first, others)

abbrev pub is_digit : ℕ → Bool
is_digit c = leb b'0' c && leb c b'9'

digits : ℕ → Text → Option ℕ
digits n [] = some n
digits n (c ∷ s) = let rest = digits (n * 10 + (c - b'0')) s in if is_digit c then rest else none

-- strconv.ParseUint(s, 10, bits): digits only, and a value that fits.
unfoldable pub parse_uint : ℕ → Text → Option ℕ
unfolding digits
parse_uint bits [] = none
parse_uint bits (c ∷ s) = do n ← digits 0 (c ∷ s); if ltb n (2 ^ bits) then some n else none

-- An integer; `negsuc n` is -(n + 1).
pub data ℤ : Type 0 where
  pos : ℕ → ℤ
  negsuc : ℕ → ℤ

abbrev negate : ℕ → ℤ
negate n = if n == 0 then pos 0 else negsuc (n - 1)

-- strconv.ParseInt(s, 10, bits): an optional sign, digits, and a value that fits.
unfoldable pub parse_int : ℕ → Text → Option ℤ
unfolding parse_uint
parse_int bits [] = none
parse_int bits (c ∷ s) =
    if c == b'-'
    then (do n ← parse_uint (bits + 1) s; if leb n (2 ^ (bits - 1)) then some (negate n) else none)
    else do n ← parse_uint (bits - 1) (if c == b'+' then s else c ∷ s); some (pos n)
