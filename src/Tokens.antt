-- ===== src/Tokens.antt =====
-- The signed share links of app/core/security.py.
pub mod Soundness
use Prim.Native.Char.{Char, code}
use phantom_share.Prelude.{
  ℕ, suc, ◌+◌, ◌-◌, ◌*◌, ◌/◌, ◌≡◌, refl, String, Bool, true, false, not, ◌&&◌, ◌||◌, Option, none,
  some, List, [], ◌∷◌, ◌==◌, leb, ltb, str_eq, length, if◌then◌else◌,
}
use phantom_share.Result.{Exn, http, type_error, Result, ok, err, ◌>>=◌, ◌>>◌, raise_if, or_raise}
use phantom_share.Text.{◌++◌, decimal, strip}

-- An instant is a number of microseconds.
abbrev pub second : ℕ
second = 1_000_000

-- HMAC-SHA256 under SIGNED_URL_SECRET in hexadecimal, and the texts of UUIDs.
pub record Signing : Type 0 where
  pub hmac_hex : String → String
  pub uuid_str : ℕ → String
  pub uuid_of : String → Option ℕ
  pub uuid_of-uuid_str : (id : ℕ) → uuid_of (uuid_str id) ≡ some id

-- `negsuc n` is -(n + 1).
pub data ℤ : Type 0 where
  pos : ℕ → ℤ
  negsuc : ℕ → ℤ

unfoldable pub str_ℤ : ℤ → String
str_ℤ (pos n) = decimal n
str_ℤ (negsuc n) = "-" ++ decimal (n + 1)

-- The digits of `int(text)`: single underscores may stand between them.
unfoldable pub scan : ℕ → Bool → String → Option ℕ
scan n after_digit String.[] = if after_digit then some n else none
scan n after_digit (String.◌∷◌ c s) =
    let digit = leb 48 (code c) && leb (code c) 57 in
    let rest = scan (if digit then n * 10 + (code c - 48) else n) digit s in
    if digit || code c == b'_' && after_digit then rest else none

abbrev pub negated : Option ℕ → Option ℤ
negated none = none
negated (some n) = some (if n == 0 then pos 0 else negsuc (n - 1))

abbrev pub positive : Option ℕ → Option ℤ
positive none = none
positive (some n) = some (pos n)

unfoldable pub signed : String → Option ℤ
unfolding scan
signed String.[] = none
signed (String.◌∷◌ c s) =
    if code c == b'-'
    then negated (scan 0 false s)
    else if code c == b'+'
    then positive (scan 0 false s)
    else positive (scan 0 false (String.◌∷◌ c s))

-- `int(text)` on ASCII texts; `none` is the ValueError.
unfoldable pub int_of : String → Option ℤ
unfolding signed strip
int_of text = signed (strip text)

-- `text.rsplit(".", 3)`: all pieces, and the first ones joined again until four are left.
abbrev pub push : Char → List String → List String
push c [] = String.◌∷◌ c "" ∷ []
push c (p ∷ ps) = String.◌∷◌ c p ∷ ps

unfoldable pub split_dots : String → List String
split_dots String.[] = "" ∷ []
split_dots (String.◌∷◌ c s) =
    let rest = split_dots s in if code c == b'.' then "" ∷ rest else push c rest

unfoldable pub glue : String → List String → List String
glue p [] = p ∷ []
glue p (q ∷ rest) =
    let joined = glue (p ++ ("." ++ q)) rest in if ltb (length rest) 3 then p ∷ q ∷ rest else joined

abbrev pub glue_all : List String → List String
glue_all [] = []
glue_all (p ∷ ps) = glue p ps

unfoldable pub rsplit : String → List String
unfolding split_dots glue
rsplit text = glue_all (split_dots text)

-- The parts of a share token, with the payload that is signed.
pub record Parts : Type 0 where
  pub secret_id : String
  pub ts_str : String
  pub policy_version : ℤ
  pub sig : String
  pub payload : String

abbrev pub invalid : Exn
invalid = http 403 "Invalid share token"

unfoldable pub read_parts : List String → Result Parts
unfolding str_ℤ int_of
read_parts (secret_id ∷ ts_str ∷ policy_str ∷ sig ∷ []) = do
  policy_version ← or_raise (int_of policy_str) invalid
  ok (record {
    secret_id = secret_id;
    ts_str = ts_str;
    policy_version = policy_version;
    sig = sig;
    payload = secret_id ++ ("." ++ (ts_str ++ ("." ++ str_ℤ policy_version)));
  })
read_parts (secret_id ∷ ts_str ∷ sig ∷ []) = ok (record {
  secret_id = secret_id;
  ts_str = ts_str;
  policy_version = pos 1;
  sig = sig;
  payload = secret_id ++ ("." ++ ts_str);
})
read_parts _ = err invalid

-- `time.time() > ts`
abbrev pub is_past : ℕ → ℤ → Bool
is_past now (pos ts) = ltb (ts * second) now
is_past now (negsuc _) = true

unfoldable pub is_ascii : String → Bool
is_ascii String.[] = true
is_ascii (String.◌∷◌ c s) = ltb (code c) 128 && is_ascii s

abbrev pub same_policy : ℤ → Option ℕ → Bool
same_policy _ none = true
same_policy (pos v) (some expected) = v == expected
same_policy (negsuc _) (some expected) = false

module _ (signing : Signing) where
  unfoldable pub create_signed_token : ℕ → ℕ → ℕ → Option ℕ → ℕ → String
  create_signed_token secret_id expires_in_hours policy_version expires_at now =
      let ts : ℕ = elim expires_at [
        | none ↦ now / second + expires_in_hours * 3600
        | some t ↦ t / second
      ] in
      let payload =
        signing.uuid_str secret_id ++ ("." ++ (decimal ts ++ ("." ++ decimal policy_version))) in
      payload ++ ("." ++ signing.hmac_hex payload)

  -- `hmac.compare_digest` raises a TypeError on a text that is not ASCII.
  unfoldable pub verify_signed_token : String → Option ℕ → ℕ → Result String
  verify_signed_token token expected_policy_version now = do
    parts ← read_parts (rsplit token)
    ts ← or_raise (int_of parts.ts_str) invalid
    raise_if (is_past now ts) (http 403 "Share token has expired")
    raise_if (not (is_ascii parts.sig)) type_error
    raise_if (not (str_eq parts.sig (signing.hmac_hex parts.payload)))
        (http 403 "Invalid share token signature")
    raise_if (not (same_policy parts.policy_version expected_policy_version))
        (http 403 "Share token policy is no longer current")
    ok parts.secret_id
