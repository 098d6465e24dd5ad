-- ===== src/ClientIp.antt =====
-- app/core/client_ip.py: the client's address behind trusted proxies.
pub mod Spoofing
use Prim.Native.Nat.{◌^◌}
use Prim.Native.Char.{Char, code}
use mathlib.Core.List.{reverse}
use phantom_share.Prelude.{
  ℕ, ◌-◌, ◌/◌, ◌%◌, ◌≡◌, String, Bool, true, false, not, ◌&&◌, ◌||◌, Option, none, some, List, [],
  ◌∷◌, ◌==◌, leb, str_eq, if◌then◌else◌,
}
use phantom_share.Sql.{exists}
use phantom_share.Text.{lstrip, rstrip}

-- An address of the module `ipaddress`, by its version and its value.
pub data Address : Type 0 where
  v4 v6 : ℕ → Address

-- A network: an address and the length of the prefix.
pub record Network : Type 0 where
  pub base : Address
  pub prefix : ℕ

-- The parsers and the printer of `ipaddress`; `none` is the ValueError.
pub record IpText : Type 0 where
  pub ip_address : String → Option Address
  pub ip_network : String → Option Network
  pub to_str : Address → String
  pub ip_address-to_str : (a : Address) → ip_address (to_str a) ≡ some a

-- The leading bits of two values of `width` bits agree.
abbrev pub same_bits : ℕ → ℕ → ℕ → ℕ → Bool
same_bits width prefix x y = x / 2 ^ (width - prefix) == y / 2 ^ (width - prefix)

abbrev pub in_block : ℕ → Address → Address → Bool
in_block prefix (v4 x) (v4 y) = same_bits 32 prefix x y
in_block prefix (v6 x) (v6 y) = same_bits 128 prefix x y
in_block prefix (v4 x) (v6 y) = false
in_block prefix (v6 x) (v4 y) = false

-- `address in network`: the same version and the same leading bits.
unfoldable pub is_in : Address → Network → Bool
is_in a n = in_block n.prefix a n.base

unfoldable pub is_in_any : List Network → Address → Bool
is_in_any networks a = exists (is_in a) networks

-- An IPv4 address that is mapped into IPv6 is read as what it stands for.
unfoldable pub unmapped : Address → Address
unmapped (v4 x) = v4 x
unmapped (v6 x) = if x / 2 ^ 32 == 0xffff then v4 (x % 2 ^ 32) else v6 x

-- `value.split("%", 1)[0]`
unfoldable pub before_percent : String → String
before_percent String.[] = ""
before_percent (String.◌∷◌ c s) =
    let rest = String.◌∷◌ c (before_percent s) in if code c == b'%' then "" else rest

-- `value.split(",")`
abbrev pub push : Char → List String → List String
push c [] = String.◌∷◌ c "" ∷ []
push c (p ∷ ps) = String.◌∷◌ c p ∷ ps

unfoldable pub split_commas : String → List String
split_commas String.[] = "" ∷ []
split_commas (String.◌∷◌ c s) =
    let rest = split_commas s in if code c == b',' then "" ∷ rest else push c rest

-- The loop over `reversed(chain)`, and `chain[0]` where every address is trusted.
unfoldable pub first_untrusted : List Network → List Address → Address → Address
first_untrusted trusted [] last = last
first_untrusted trusted (a ∷ rest) last =
    let next = first_untrusted trusted rest a in if is_in_any trusted a then next else a

-- The chain from the peer backwards; `none` is a header with an entry that is no address.
unfoldable pub walk : List Network → Address → Option (List Address) → Address
walk trusted peer none = peer
walk trusted peer (some chain) = first_untrusted trusted (peer ∷ reverse chain) peer

infixl 5 ◌>>=◌
abbrev pub ◌>>=◌ {ℓ κ} : {A : Type ℓ} {B : Type κ} → Option A → (A → Option B) → Option B
none >>= f = none
some a >>= f = f a

module _ (ip : IpText) where
  -- The address that `normalize_ip` prints.
  unfoldable pub normalize : String → Option Address
  unfolding unmapped
  normalize value = do a ← ip.ip_address (before_percent (lstrip (rstrip value))); some (unmapped a)

  unfoldable pub normalize_all : List String → Option (List Address)
  normalize_all [] = some []
  normalize_all (v ∷ vs) = do a ← normalize v; rest ← normalize_all vs; some (a ∷ rest)

  unfoldable pub networks_of : List String → Option (List Network)
  networks_of [] = some []
  networks_of (v ∷ vs) = do n ← ip.ip_network v; rest ← networks_of vs; some (n ∷ rest)

  abbrev pub behind : List Network → Address → Option String → Address
  behind trusted peer none = peer
  behind trusted peer (some values) =
      if str_eq values "" || not (is_in_any trusted peer)
      then peer
      else walk trusted peer (normalize_all (split_commas values))

  -- `resolve_client_ip` behind its parsing; `none` is the text "unknown".
  unfoldable pub resolve_client_ip : List String → Option String → Option String → Option Address
  resolve_client_ip trusted_proxy_cidrs peer forwarded_for = do
    peer_text ← peer
    normalized_peer ← normalize peer_text
    trusted ← networks_of trusted_proxy_cidrs
    some (behind trusted normalized_peer forwarded_for)

  unfoldable pub client_ip : List String → Option String → Option String → String
  client_ip cidrs peer forwarded_for = elim (resolve_client_ip cidrs peer forwarded_for) [
    | none ↦ "unknown"
    | some a ↦ ip.to_str a
  ]
