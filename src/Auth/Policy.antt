-- ===== src/Auth/Policy.antt =====
-- The decisions of the authenticator, against its policy.
use zmqpp_pty.Base.{
  Bool, true, false, not, ◌&&◌, ◌||◌, [], Bytes, Option, none, some, ◌=ˢ◌, =ˢ_eq, ◌≡◌, refl, sym,
  ap, ◌∙◌, if◌then◌else◌, Bool-cases, inl, inr, arith,
}
use zmqpp_pty.Zap.{ZapRequest, null, plain, curve, gssapi}
use zmqpp_pty.Auth.{
  Auth, Verdict, member, password_of, is_empty, decide, check_address, check_mechanism,
  authenticate_plain, authenticate_curve, authenticate_gssapi,
}

-- The whitelist decides if there is one, and else the blacklist does; without lists all pass.
abbrev pub passes : Auth → ZapRequest → Bool
passes a r =
    if not (is_empty a.whitelist)
    then member r.address a.whitelist
    else if not (is_empty a.blacklist)
    then not (member r.address a.blacklist)
    else true

abbrev pub knows : Option Bytes → Bytes → Bool
knows none w = false
knows (some known) w = known =ˢ w

-- One of the lists is in use.
abbrev pub is_listed : Auth → Bool
is_listed a = not (is_empty a.whitelist) || not (is_empty a.blacklist)

-- PLAIN needs the password of the user and CURVE a known key, or leave for any; NULL and GSSAPI
-- need nothing; another mechanism needs an address that one of the lists lets in by name.
abbrev pub suffices : Auth → ZapRequest → Bool → Bool
suffices a r listed =
    if plain =ˢ r.mechanism
    then knows (password_of r.username a.passwords) r.password
    else if curve =ˢ r.mechanism
    then a.curve_allow_any || member r.client_key a.client_keys
    else (null =ˢ r.mechanism) || (gssapi =ˢ r.mechanism) || listed

abbrev pub has_credentials : Auth → ZapRequest → Bool
has_credentials a r = suffices a r (is_listed a)

module _ (m : Bytes) (h : (null =ˢ m) ≡ true) where
  pub not_plain : (plain =ˢ m) ≡ false
  unfolding ◌=ˢ◌
  not_plain = ap (λ s. plain =ˢ s) (sym (=ˢ_eq null m h))

  pub not_curve : (curve =ˢ m) ≡ false
  unfolding ◌=ˢ◌
  not_curve = ap (λ s. curve =ˢ s) (sym (=ˢ_eq null m h))

abbrev verdict : Bool → Bytes → Verdict
verdict t u =
    if t then record { allowed = true; user_id = u } else record { allowed = false; user_id = [] }

allowed_if : (t : Bool) (u : Bytes) → (verdict t u).allowed ≡ t
allowed_if true u = refl
allowed_if false u = refl

plain_allowed :
    (a : Auth) (r : ZapRequest)
    → (authenticate_plain a r).allowed ≡ knows (password_of r.username a.passwords) r.password
unfolding authenticate_plain
plain_allowed a r = allowed_if (knows (password_of r.username a.passwords) r.password) r.username

curve_allowed :
    (a : Auth) (r : ZapRequest)
    → (authenticate_curve a r).allowed ≡ (a.curve_allow_any || member r.client_key a.client_keys)
unfolding authenticate_curve
curve_allowed a r = ground arith

-- The mechanism's check, after an address that is not denied.
check_mechanism_allowed :
    (a : Auth) (r : ZapRequest) (f : Bool)
    → (check_mechanism a r f).allowed ≡ (
        if plain =ˢ r.mechanism
        then (authenticate_plain a r).allowed
        else if curve =ˢ r.mechanism
        then (authenticate_curve a r).allowed
        else (null =ˢ r.mechanism) || (gssapi =ˢ r.mechanism) || f)
unfolding check_mechanism authenticate_gssapi
check_mechanism_allowed a r f = elim (Bool-cases (null =ˢ r.mechanism)) [
  | inl n ↦ null_case f n
  | inr d ↦ rw d (ground arith)
]
  where
    null_case :
        (f : Bool)
        → (null =ˢ r.mechanism) ≡ true
        → (check_mechanism a r f).allowed ≡ (
            if plain =ˢ r.mechanism
            then (authenticate_plain a r).allowed
            else if curve =ˢ r.mechanism
            then (authenticate_curve a r).allowed
            else (null =ˢ r.mechanism) || (gssapi =ˢ r.mechanism) || f)
    null_case true n = rw (n, not_plain r.mechanism n, not_curve r.mechanism n) (ground arith)
    null_case false n = rw (n, not_plain r.mechanism n, not_curve r.mechanism n) refl

credentials :
    (a : Auth) (r : ZapRequest) (f : Bool) → (check_mechanism a r f).allowed ≡ suffices a r f
credentials a r f = check_mechanism_allowed a r f ∙ rw (plain_allowed a r, curve_allowed a r) refl

-- The decision follows the policy: a client is let in exactly when its address passes the lists
-- and its credentials suffice for its mechanism.
pub decide-passes :
    (a : Auth) (r : ZapRequest) → (decide a r).allowed ≡ (passes a r && has_credentials a r)
unfolding decide check_address
decide-passes a r = elim (Bool-cases (is_empty a.whitelist)) [
  | inr w ↦ elim (Bool-cases (member r.address a.whitelist)) [
    | inl m ↦ rw (w, m) (credentials a r true)
    | inr m ↦ rw (w, m) refl
  ]
  | inl w ↦ elim (Bool-cases (is_empty a.blacklist)) [
    | inr b ↦ elim (Bool-cases (member r.address a.blacklist)) [
      | inl m ↦ rw (w, b, m) refl
      | inr m ↦ rw (w, b, m) (credentials a r true)
    ]
    | inl b ↦ rw (w, b) (credentials a r false)
  ]
]
