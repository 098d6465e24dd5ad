-- ===== src/Text.antt =====
-- Texts of Python's `str`: concatenation, and numbers in decimal.
use phantom_share.Prelude.{
  ==-self, ℕ, zero, suc, ◌+◌, ◌-◌, ◌/◌, ◌%◌, ltb, leb, ◌==◌, ◌≡◌, refl, String, Bool, true, false,
  List, [], ◌∷◌, ◌&&◌, ◌||◌, str_eq, if◌then◌else◌,
}
use Prim.Native.Char.{code}
pub use Prim.Native.String.{◌++◌}

abbrev digit : ℕ → String
digit d =
    if d == 0
    then "0"
    else if d == 1
    then "1"
    else if d == 2
    then "2"
    else if d == 3
    then "3"
    else if d == 4
    then "4"
    else if d == 5
    then "5"
    else if d == 6
    then "6"
    else if d == 7
    then "7"
    else if d == 8
    then "8"
    else "9"

-- `str(n)`. A number has fewer digits than its value plus one, the fuel.
decimal_from : ℕ → ℕ → String
decimal_from zero n = ""
decimal_from (suc fuel) n =
    let rest = decimal_from fuel (n / 10) ++ digit (n % 10) in if ltb n 10 then digit n else rest

unfoldable pub decimal : ℕ → String
unfolding decimal_from
decimal n = decimal_from (n + 1) n

decimal_407 : decimal 407 ≡ "407"
unfolding decimal
decimal_407 = refl

-- `s.strip()` is `lstrip (rstrip s)`, on the ASCII white space.
abbrev is_space : ℕ → Bool
is_space c = c == 32 || leb 9 c && leb c 13 || leb 28 c && leb c 31

unfoldable pub lstrip : String → String
lstrip String.[] = ""
lstrip (String.◌∷◌ c s) = let rest = lstrip s in if is_space (code c) then rest else String.◌∷◌ c s

unfoldable pub rstrip : String → String
rstrip String.[] = ""
rstrip (String.◌∷◌ c s) =
    let rest = rstrip s in if is_space (code c) && str_eq rest "" then "" else String.◌∷◌ c rest

unfoldable pub strip : String → String
unfolding lstrip rstrip
strip s = lstrip (rstrip s)

-- `s.upper()`, on the ASCII letters, as code points.
unfoldable pub upper : String → List ℕ
upper String.[] = []
upper (String.◌∷◌ c s) =
    let n = code c in (if leb b'a' n && leb n b'z' then n - 32 else n) ∷ upper s

unfoldable pub same_codes : List ℕ → List ℕ → Bool
same_codes [] [] = true
same_codes (a ∷ s) (b ∷ t) = a == b && same_codes s t
same_codes _ _ = false

-- Equality of CITEXT columns, on the ASCII letters.
unfoldable pub ci_eq : String → String → Bool
unfolding upper same_codes
ci_eq s t = same_codes (upper s) (upper t)

same_codes_self : (s : List ℕ) → same_codes s s ≡ true
unfolding same_codes
same_codes_self [] = refl
same_codes_self (a ∷ s) = rw (==-self a) (same_codes_self s)

pub ci_eq_self : (s : String) → ci_eq s s ≡ true
unfolding ci_eq
ci_eq_self s = same_codes_self (upper s)
