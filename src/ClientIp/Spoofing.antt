-- ===== src/ClientIp/Spoofing.antt =====
-- What a client can and cannot make of its address by the header X-Forwarded-For.
use Prim.Native.Char.{Char}
use mathlib.Core.List.{reverse-append}
use phantom_share.Prelude.{
  ◌≡◌, ◌≢◌, refl, ap, String, true, false, Option, none, some, List, [], ◌∷◌, ◌++◌, str_eq, eq_iff,
  arith,
}
use text.Mathlib.TextLemmas.{nil-append, cons-append, cons-ne-nil, append-ne-nil_of_right_ne-nil}
use phantom_share.Text.{◌++◌ as join}
use phantom_share.ClientIp.{
  Address, Network, IpText, is_in_any, normalize, normalize_all, networks_of, split_commas, push,
  first_untrusted, walk, ◌>>=◌, resolve_client_ip,
}

module _ (ip : IpText) where
  -- Where the peer and the trusted networks can be read and the peer is in none of them, the client's
  -- address is that of the peer, whatever the header says.
  resolve_untrusted_peer :
      (cidrs : List String) (peer : String) (forwarded_for : Option String) (p : Address)
      (trusted : List Network)
      → normalize ip peer ≡ some p
      → networks_of ip cidrs ≡ some trusted
      → is_in_any trusted p ≡ false
      → resolve_client_ip ip cidrs (some peer) forwarded_for ≡ some p
  unfolding resolve_client_ip
  resolve_untrusted_peer cidrs peer forwarded_for p trusted hp ht h = ground arith

  -- One more entry at the end of the header.
  normalize_all-append :
      (vs : List String) (v : String) {a : Address}
      → normalize ip v ≡ some a
      → normalize_all ip (vs ++ v ∷ []) ≡ (normalize_all ip vs >>= λ rest. some (rest ++ a ∷ []))
  unfolding normalize_all
  normalize_all-append [] v {a} h = ground arith
  normalize_all-append (u ∷ vs) v {a} h = ground (arith, normalize_all-append vs v {a = a} h)

push-append : (c : Char) (xs ys : List String) → xs ≢ [] → push c (xs ++ ys) ≡ push c xs ++ ys
push-append c [] ys h = absurd (h refl)
push-append c (x ∷ xs) ys h = refl

split_commas-ne-nil : (h : String) → split_commas h ≢ []
unfolding split_commas
split_commas-ne-nil String.[] e = cc
split_commas-ne-nil (String.◌∷◌ c s) e = ground (arith, split_commas-ne-nil s)

-- Splitting a header that has one more entry.
split_commas-append :
    (h r : String) → split_commas (join h (String.◌∷◌ "," r)) ≡ split_commas h ++ split_commas r
unfolding split_commas
split_commas-append String.[] r = rw (nil-append (String.◌∷◌ "," r))
split_commas-append (String.◌∷◌ c s) r = rw (cons-append c s (String.◌∷◌ "," r)) (
    ground (
      arith,
      split_commas-append s r,
      push-append c (split_commas s) (split_commas r) (split_commas-ne-nil s),
    ))

walk-append :
    (trusted : List Network) (p x : Address) (chain : List Address)
    → is_in_any trusted p ≡ true
    → is_in_any trusted x ≡ false
    → walk trusted p (some (chain ++ x ∷ [])) ≡ x
unfolding walk first_untrusted
walk-append trusted p x chain hp hx = rw (reverse-append chain (x ∷ [])) (rw (hp, hx))

header-ne-nil : (h : String) (c : Char) (r : String) → str_eq (join h (String.◌∷◌ c r)) "" ≡ false
header-ne-nil h c r = ground (
  arith,
  eq_iff (join h (String.◌∷◌ c r)) "",
  append-ne-nil_of_right_ne-nil h {t = String.◌∷◌ c r} (cons-ne-nil c r),
)

-- The last entry of a header, unless an entry before it is no address.
abbrev pub last_or : Address → Option (List Address) → Address → Address
last_or p none x = p
last_or p (some _) x = x

module _ (ip : IpText) where
  -- Behind a trusted proxy, an entry that a trusted proxy appended and that is no trusted address is the
  -- address of the client whatever the client put into the header before it; only where some entry
  -- before it is no address at all is the address that of the proxy.
  pub resolve_appended :
      (cidrs : List String) (peer h r : String) (p x : Address) (trusted : List Network)
      → normalize ip peer ≡ some p
      → networks_of ip cidrs ≡ some trusted
      → is_in_any trusted p ≡ true
      → split_commas r ≡ r ∷ []
      → normalize ip r ≡ some x
      → is_in_any trusted x ≡ false
      → resolve_client_ip ip cidrs (some peer) (some (join h (String.◌∷◌ "," r)))
        ≡ some (last_or p (normalize_all ip (split_commas h)) x)
  unfolding resolve_client_ip walk
  resolve_appended cidrs peer h r p x trusted hp ht inside one hx outside =
      rw (hp, ht, header-ne-nil h "," r, inside)
        (rw (split_commas-append h r) (
          rw one (
            rw (normalize_all-append ip (split_commas h) r hx)
              (ap some (walked (normalize_all ip (split_commas h)))))))
    where
      walked :
          (o : Option (List Address))
          → walk trusted p (o >>= λ rest. some (rest ++ x ∷ [])) ≡ last_or p o x
      walked none = refl
      walked (some chain) = walk-append trusted p x chain inside outside
