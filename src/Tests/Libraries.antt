-- ===== src/Tests/Libraries.antt =====
-- Stand-ins for the libraries: a cipher that leaves its text, and texts that count in unary.
use Prim.Native.Char.{Char, char, code, IsLt, IsScalar}
use Prim.Native.Nat.{compare, Ordering}
use phantom_share.Prelude.{
  ℕ, zero, suc, ◌+◌, ◌==◌, ◌≡◌, refl, ap, ◌∙◌, String, Bool, Option, none, some, [], ◌∷◌,
  if◌then◌else◌, arith,
}
use phantom_share.Crypto.{Bytes, Primitives}
use phantom_share.ClientIp.{IpText, Address, v4, v6, Network}
use phantom_share.Tokens.{Signing}
use phantom_share.Secrets.Guards.{Services}

abbrev Both : Ordering → Ordering → Type 0
Both Ordering.lt q = IsLt q
Both Ordering.eq _ = ⊥
Both Ordering.gt _ = ⊥

abbrev Scalar : Ordering → Ordering → Ordering → Type 0
Scalar Ordering.lt _ _ = Unit
Scalar Ordering.eq p q = Both p q
Scalar Ordering.gt p q = Both p q

abbrev both : (p q : Ordering) → Option (Both p q)
both Ordering.lt Ordering.lt = some tt
both Ordering.lt Ordering.eq = none
both Ordering.lt Ordering.gt = none
both Ordering.eq q = none
both Ordering.gt q = none

abbrev scalar : (o p q : Ordering) → Option (Scalar o p q)
scalar Ordering.lt p q = some tt
scalar Ordering.eq p q = both p q
scalar Ordering.gt p q = both p q

both_lem : (p q : Ordering) (x : Both p q) → both p q ≡ some x
both_lem Ordering.lt Ordering.lt tt = refl
both_lem Ordering.lt Ordering.eq x = elim x [ ]
both_lem Ordering.lt Ordering.gt x = elim x [ ]
both_lem Ordering.eq q x = elim x [ ]
both_lem Ordering.gt q x = elim x [ ]

scalar_lem : (o p q : Ordering) (x : Scalar o p q) → scalar o p q ≡ some x
scalar_lem Ordering.lt p q tt = refl
scalar_lem Ordering.eq p q x = both_lem p q x
scalar_lem Ordering.gt p q x = both_lem p q x

abbrev with_char : (n : ℕ) → Option (IsScalar n) → Option Char
with_char n none = none
with_char n (some p) = some (char n p)

abbrev of_code : ℕ → Option Char
of_code n = with_char n (scalar (compare n 55296) (compare 57343 n) (compare n 1114112))

of_code-code : (c : Char) → of_code (code c) ≡ some c
of_code-code (char n p) = ap (with_char n) (scalar_lem _ _ _ p)

-- UTF-8 as one number for each character.
unfoldable pub codes : String → Bytes
codes String.[] = []
codes (String.◌∷◌ c s) = code c ∷ codes s

abbrev push : Option Char → Option String → Option String
push none s = none
push (some c) none = none
push (some c) (some s) = some (String.◌∷◌ c s)

unfoldable pub of_codes : Bytes → Option String
of_codes [] = some ""
of_codes (n ∷ ns) = push (of_code n) (of_codes ns)

pub of_codes-codes : (s : String) → of_codes (codes s) ≡ some s
unfolding codes of_codes
of_codes-codes String.[] = refl
of_codes-codes (String.◌∷◌ c s) = rw (of_code-code c) (rw (of_codes-codes s))

-- Numbers in unary, and lists of them.
unfoldable pub unary : ℕ → String → String
unary zero s = s
unary (suc n) s = String.◌∷◌ "a" (unary n s)

abbrev is_a : Char → Bool
is_a c = code c == 97

unfoldable pub to_text : Bytes → String
unfolding unary
to_text [] = ""
to_text (n ∷ ns) = unary n (String.◌∷◌ "b" (to_text ns))

unfoldable pub read : ℕ → String → Bytes
read n String.[] = []
read n (String.◌∷◌ c s) =
    let rest = read (if is_a c then suc n else 0) s in if is_a c then rest else n ∷ rest

read-unary : (n m : ℕ) (s : String) → read n (unary m s) ≡ read (n + m) s
unfolding read unary
read-unary n zero s = ap (λ k. read k s) (omega arith)
read-unary n (suc m) s = read-unary (suc n) m s ∙ ap (λ k. read k s) (omega arith)

pub read-to_text : (ns : Bytes) → read 0 (to_text ns) ≡ ns
unfolding to_text read
read-to_text [] = refl
read-to_text (n ∷ ns) =
    read-unary 0 n _
    ∙ ap (λ (k : ℕ). k ∷ read 0 (to_text ns)) (omega arith)
    ∙ ap (λ (xs : Bytes). n ∷ xs) (read-to_text ns)

abbrev pub prims : Primitives
prims = record {
  kek = [];
  seal = λ k n m. m;
  unseal = λ k n m. some m;
  unseal-seal = λ k n m. refl;
  b64encode = to_text;
  b64decode = λ s. some (read 0 s);
  b64decode_strict = λ s. some (read 0 s);
  b64decode-b64encode = λ m. ap some (read-to_text m);
  encode = codes;
  decode = of_codes;
  decode-encode = of_codes-codes;
  sha256_hash = λ s. s;
}

unfoldable pub size : String → ℕ
size String.[] = 0
size (String.◌∷◌ c s) = suc (size s)

pub size-unary : (n : ℕ) → size (unary n "") ≡ n
unfolding size unary
size-unary zero = refl
size-unary (suc n) = ap suc (size-unary n)

abbrev pub signing : Signing
signing = record {
  hmac_hex = λ s. "00";
  uuid_str = λ id. unary id "";
  uuid_of = λ s. some (size s);
  uuid_of-uuid_str = λ id. ap some (size-unary id);
}

-- "a…" is an IPv4 address in unary, and anything else one of IPv6.
unfoldable pub address_of : String → Option Address
unfolding size
address_of String.[] = none
address_of (String.◌∷◌ c s) = some (if is_a c then v4 (size s) else v6 (size s))

abbrev pub text_of : Address → String
text_of (v4 n) = String.◌∷◌ "a" (unary n "")
text_of (v6 n) = String.◌∷◌ "b" (unary n "")

pub address_of-text_of : (a : Address) → address_of (text_of a) ≡ some a
unfolding address_of
address_of-text_of (v4 n) = ap (λ (k : ℕ). some (v4 k)) (size-unary n)
address_of-text_of (v6 n) = ap (λ (k : ℕ). some (v6 k)) (size-unary n)

abbrev pub host : Option Address → Option Network
host none = none
host (some a) = some (record { base = a; prefix = 32 })

abbrev pub ip : IpText
ip = record {
  ip_address = address_of;
  ip_network = λ s. host (address_of s);
  to_str = text_of;
  ip_address-to_str = address_of-text_of;
}

-- Nothing is in the country database but the address 1.
abbrev pub countries : Address → Option String
countries (v4 n) = if n == 1 then some "DE" else none
countries (v6 n) = none

abbrev pub services : Services
services = record { prims = prims; signing = signing; ip = ip; country_for_ip = countries }
