-- ===== src/Tokens/Soundness.antt =====
-- What a share token that passes has shown.
use mathlib.Core.Path.{subst}
use phantom_share.Text.{◌++◌}
use phantom_share.Prelude.{
  ◌⊎◌, inl, inr, List, [], ◌∷◌, ==→≡, sym, ℕ, ◌*◌, ◌≤◌, ◌≡◌, refl, ap, ◌∙◌, String, Bool, true,
  false, not, Option, some, arith, str_eq, eq_iff,
}
use phantom_share.Result.{ok, >>=-eq-ok, or_raise-bind-eq-ok, raise_if-bind-eq-ok, ok-injective}
use phantom_share.Tokens.{
  invalid, Signing, Parts, ℤ, pos, negsuc, is_past, second, rsplit, read_parts, str_ℤ, int_of,
  is_ascii, same_policy, verify_signed_token,
}

-- A token was read into parts, its time is not over, its signature is the one of its payload, and its
-- policy version is the expected one.
pub record Vouches (signing : Signing) (token : String) (expected : Option ℕ) (now : ℕ)
    (id : String) : Type 0 where
  pub parts : Parts
  pub read : read_parts (rsplit token) ≡ ok parts
  pub names : parts.secret_id ≡ id
  pub ts : ℕ
  pub timed : int_of parts.ts_str ≡ some (pos ts)
  pub live : now ≤ ts * second
  pub signed : parts.sig ≡ signing.hmac_hex parts.payload
  pub current : same_policy parts.policy_version expected ≡ true

not_past : (now : ℕ) (ts : ℤ) → is_past now ts ≡ false → (n : ℕ) × (ts ≡ pos n) × (now ≤ n * second)
not_past now (pos n) h = (n, refl, ground arith)
not_past now (negsuc n) h = cc

not-eq-false : (b : Bool) → not b ≡ false → b ≡ true
not-eq-false true h = refl
not-eq-false false h = cc

module _ (signing : Signing) (token : String) (expected : Option ℕ) (now : ℕ) where
  -- A token that is accepted splits into parts that name the id which is returned; its time is not
  -- over, its signature is the one of its payload, and its policy version is the expected one.
  pub verify_signed_token-Vouches :
      {id : String}
      → verify_signed_token signing token expected now ≡ ok id
      → Vouches signing token expected now id
  unfolding verify_signed_token
  verify_signed_token-Vouches {id} h =
      let (parts, read, u) = >>=-eq-ok (read_parts (rsplit token)) _ {b = id} h in
      let (ts, timed, u2) = or_raise-bind-eq-ok (int_of parts.ts_str) _ _ {b = id} u in
      let (live, u3) = raise_if-bind-eq-ok (is_past now ts) _ _ {a = id} u2 in
      let (_, u4) = raise_if-bind-eq-ok (not (is_ascii parts.sig)) _ _ {a = id} u3 in
      let (good, u5) =
        raise_if-bind-eq-ok (not (str_eq parts.sig (signing.hmac_hex parts.payload))) _ _ {a = id}
          u4 in
      let (current, u6) =
        raise_if-bind-eq-ok (not (same_policy parts.policy_version expected)) _ _ {a = id} u5 in
      let (n, e, below) = not_past now ts live in
      record {
        parts = parts;
        read = read;
        names = ok-injective u6;
        ts = n;
        timed = timed ∙ ap some e;
        live = below;
        signed = (eq_iff _ _).0 (not-eq-false _ good);
        current = not-eq-false _ current;
      }

-- A token of four pieces, or of three from before there were policy versions, which count as the
-- first: the pieces name the id, the time and the version, and the signature is the one of these.
abbrev pub IsSigned : Signing → String → String → String → ℤ → Type 0
IsSigned signing token id ts_str version =
    ((policy_str : String) × (sig : String) × (rsplit token ≡ id ∷ ts_str ∷ policy_str ∷ sig ∷ [])
      × (int_of policy_str ≡ some version)
      × (sig ≡ signing.hmac_hex (id ++ ("." ++ (ts_str ++ ("." ++ str_ℤ version))))))
    ⊎ ((sig : String) × (rsplit token ≡ id ∷ ts_str ∷ sig ∷ [])
        × (version ≡ pos 1)
        × (sig ≡ signing.hmac_hex (id ++ ("." ++ ts_str))))

IsSigned-parts :
    (signing : Signing) (token : String) {q p : Parts}
    → q ≡ p
    → p.sig ≡ signing.hmac_hex p.payload
    → (q.sig ≡ signing.hmac_hex q.payload
        → IsSigned signing token q.secret_id q.ts_str q.policy_version)
    → IsSigned signing token p.secret_id p.ts_str p.policy_version
IsSigned-parts signing token {q} {p} e good f =
    subst (λ r. IsSigned signing token r.secret_id r.ts_str r.policy_version) e
      (f (subst (λ r. r.sig ≡ signing.hmac_hex r.payload) (sym e) good))

read_parts-IsSigned :
    (signing : Signing) (token : String) (pieces : List String) (p : Parts)
    → rsplit token ≡ pieces
    → read_parts pieces ≡ ok p
    → p.sig ≡ signing.hmac_hex p.payload
    → IsSigned signing token p.secret_id p.ts_str p.policy_version
unfolding read_parts
read_parts-IsSigned signing token [] p e h good = cc
read_parts-IsSigned signing token (id ∷ []) p e h good = cc
read_parts-IsSigned signing token (id ∷ ts_str ∷ []) p e h good = cc
read_parts-IsSigned signing token (id ∷ ts_str ∷ sig ∷ []) p e h good =
    IsSigned-parts signing token (ok-injective h) good (λ good'. inr (sig, e, refl, good'))
read_parts-IsSigned signing token (id ∷ ts_str ∷ policy_str ∷ sig ∷ []) p e h good =
    let (version, named, h1) = or_raise-bind-eq-ok (int_of policy_str) invalid _ {b = p} h in
    IsSigned-parts signing token (ok-injective h1) good
      (λ good'. inl (policy_str, sig, e, named, good'))
read_parts-IsSigned signing token (id ∷ ts_str ∷ policy_str ∷ sig ∷ x ∷ rest) p e h good = cc

same_policy-pos : (version : ℤ) (n : ℕ) → same_policy version (some n) ≡ true → version ≡ pos n
same_policy-pos (pos v) n h = ap pos (==→≡ v n h)
same_policy-pos (negsuc v) n h = cc

-- A token that is accepted for a policy version is signed: the signature is the one of the id that
-- is returned, a time that is not over, and exactly that policy version. A token of three pieces signs
-- the id and the time only, and passes for version 1 alone.
pub verify_signed_token-IsSigned :
    (signing : Signing) (token : String) (version now : ℕ) {id : String}
    → verify_signed_token signing token (some version) now ≡ ok id
    → (ts_str : String) × (ts : ℕ) × (int_of ts_str ≡ some (pos ts))
      × (now ≤ ts * second)
      × IsSigned signing token id ts_str (pos version)
verify_signed_token-IsSigned signing token version now {id} h =
    let v = verify_signed_token-Vouches signing token (some version) now {id = id} h in
    (
      v.parts.ts_str,
      v.ts,
      v.timed,
      v.live,
      subst (λ i. IsSigned signing token i v.parts.ts_str (pos version)) v.names
          (subst (IsSigned signing token v.parts.secret_id v.parts.ts_str)
            (same_policy-pos v.parts.policy_version version v.current)
            (read_parts-IsSigned signing token (rsplit token) v.parts refl v.read v.signed)),
    )
