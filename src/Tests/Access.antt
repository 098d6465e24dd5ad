-- ===== src/Tests/Access.antt =====
-- Share tokens, client addresses, location policies, roles and the ciphers.
use phantom_share.Prelude.{ℕ, ◌*◌, ◌≤◌, ◌≡◌, refl, String, true, false, none, some, [], ◌∷◌}
use phantom_share.Text.{◌++◌}
use phantom_share.Permissions.{CurrentUser}
use phantom_share.ClientIp.{
  Address, v4, v6, Network, normalize, normalize_all, networks_of, is_in_any, split_commas,
  resolve_client_ip,
}
use phantom_share.ClientIp.Spoofing.{last_or, resolve_appended}
use phantom_share.Tokens.{ℤ, pos, int_of, second, verify_signed_token}
use phantom_share.Tokens.Soundness.{IsSigned, verify_signed_token-IsSigned}
use phantom_share.Location.{Verdict, evaluate}
use phantom_share.Location.Laws.{Admits, evaluate-Admits}
use phantom_share.Tests.Libraries.{prims, signing, ip, countries}
use phantom_share.Tests.Tables.{token}

verify_signed_token-IsSigned_example :
    (ts_str : String) × (ts : ℕ) × (int_of ts_str ≡ some (pos ts))
    × (1000000 ≤ ts * second)
    × IsSigned signing token "aa" ts_str (pos 1)
unfolding verify_signed_token phantom_share.Tokens.read_parts phantom_share.Tokens.rsplit
    phantom_share.Tokens.is_ascii
verify_signed_token-IsSigned_example =
    verify_signed_token-IsSigned signing token 1 1000000 {id = "aa"} refl

resolve_appended_example :
    resolve_client_ip ip ("aaa" ∷ []) (some "aaa") (some ("a" ++ (String.◌∷◌ "," "aaaa")))
    ≡ some (last_or (v4 2) (normalize_all ip (split_commas "a")) (v4 3))
unfolding normalize phantom_share.Tests.Libraries.address_of phantom_share.ClientIp.before_percent
    phantom_share.Text.lstrip phantom_share.Text.rstrip networks_of is_in_any
    phantom_share.Sql.exists phantom_share.ClientIp.is_in split_commas
resolve_appended_example =
    resolve_appended ip ("aaa" ∷ []) "aaa" "a" "aaaa" (v4 2) (v4 3)
      (record { base = v4 2; prefix = 32 } ∷ []) refl refl refl refl refl refl

evaluate-Admits_example :
    (a : Address) × (normalize ip "aa" ≡ some a) × Admits ip countries a [] ("DE" ∷ []) true
unfolding evaluate normalize phantom_share.Tests.Libraries.address_of
    phantom_share.ClientIp.before_percent phantom_share.Text.lstrip phantom_share.Text.rstrip
    phantom_share.Sql.exists
evaluate-Admits_example =
    evaluate-Admits ip countries "aa" [] ("DE" ∷ []) true
      {v = record { allowed = true; country = some "DE"; reason = none }} refl refl refl

abbrev refused : Verdict
refused = record { allowed = false; country = none; reason = some "GEOIP_LOOKUP_FAILED" }

abbrev boss : CurrentUser
boss = record { id = 9; email = "b@x"; role = "admin"; is_active = true; is_verified = true }
