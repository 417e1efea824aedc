-- ===== src/Auth/Replies.antt =====
-- The reply that libzmq gets.
use zmqpp_pty.Base.{
  Bool, true, false, ◌&&◌, [], ◌∷◌, map, Bytes, ◌=ˢ◌, ◌≡◌, refl, ap, ◌∙◌, if◌then◌else◌, Bool-cases,
  inl, inr, ok, arith,
}
use zmqpp_pty.Inet.Memory.{Order}
use zmqpp_pty.Message.{Message}
use zmqpp_pty.Message.Frames.{frame}
use zmqpp_pty.Zap.{ZapRequest, null, plain, curve, reply_message}
use zmqpp_pty.Auth.{
  Auth, decide, check_address, check_mechanism, authenticate, authenticate_plain,
  authenticate_curve, is_blank, ok_code, ok_text, no_access, no_access_text,
}
use zmqpp_pty.Auth.Policy.{passes, has_credentials, decide-passes, not_plain, not_curve}

-- The user that a reply names: the name of PLAIN, the public key of CURVE, and none for any other
-- mechanism.
abbrev pub user_of : ZapRequest → Bytes
user_of r =
    if plain =ˢ r.mechanism then r.username else if curve =ˢ r.mechanism then r.client_key else []

plain_user :
    (a : Auth) (r : ZapRequest)
    → (authenticate_plain a r).allowed ≡ true
    → (authenticate_plain a r).user_id ≡ r.username
unfolding authenticate_plain
plain_user a r h = ground arith

curve_user :
    (a : Auth) (r : ZapRequest)
    → (authenticate_curve a r).allowed ≡ true
    → (authenticate_curve a r).user_id ≡ r.client_key
unfolding authenticate_curve
curve_user a r h = ground arith

check_mechanism_user :
    (a : Auth) (r : ZapRequest) (f : Bool)
    → (check_mechanism a r f).allowed ≡ true
    → (check_mechanism a r f).user_id ≡ user_of r
unfolding check_mechanism
check_mechanism_user a r f h = elim (Bool-cases (null =ˢ r.mechanism)) [
  | inl n ↦ null_case f n
  | inr other ↦ elim (Bool-cases (plain =ˢ r.mechanism)) [
    | inl p ↦ rw (other, p) (plain_user a r (rw (other, p) at h))
    | inr not_p ↦ elim (Bool-cases (curve =ˢ r.mechanism)) [
      | inl c ↦ rw (other, not_p, c) (curve_user a r (rw (other, not_p, c) at h))
      | inr not_c ↦ rw (other, not_p, not_c) (ground arith)
    ]
  ]
]
  where
    null_case :
        (f : Bool) → (null =ˢ r.mechanism) ≡ true → (check_mechanism a r f).user_id ≡ user_of r
    null_case true n = rw (n, not_plain r.mechanism n, not_curve r.mechanism n) (ground arith)
    null_case false n = rw (n, not_plain r.mechanism n, not_curve r.mechanism n) refl

-- Whoever is let in is let in as the user of the request.
decide_user :
    (a : Auth) (r : ZapRequest) → (decide a r).allowed ≡ true → (decide a r).user_id ≡ user_of r
unfolding decide check_address
decide_user a r h = ground (arith, check_mechanism_user a r true, check_mechanism_user a r false)

-- The frames of RFC 27, with empty metadata.
abbrev pub reply_frames : ZapRequest → Bytes → Bytes → Bytes → Message
reply_frames r status_code status_text user_id = record {
  frames = map frame (r.version ∷ r.sequence ∷ status_code ∷ status_text ∷ user_id ∷ [] ∷ []);
  read_cursor = 0;
}

reply-frames :
    (o : Order) (r : ZapRequest) (c t u : Bytes)
    → reply_message o r c t u [] ≡ ok (reply_frames r c t u)
unfolding reply_message
reply-frames o r c t u = refl

-- A request that was not interrupted is answered with its own version and sequence number: when its
-- address passes the lists and its credentials suffice, with "200" and the user, who is the user name
-- of PLAIN, the public key of CURVE and empty for another mechanism; and otherwise with "400" and no
-- user.
pub authenticate-passes :
    (o : Order) (a : Auth) (r : ZapRequest)
    → is_blank r.version ≡ false
    → authenticate o a r
      ≡ ok (
          if passes a r && has_credentials a r
          then reply_frames r ok_code ok_text (user_of r)
          else reply_frames r no_access no_access_text [])
unfolding authenticate
authenticate-passes o a r h = elim (Bool-cases (passes a r && has_credentials a r)) [
  | inl e ↦
      rw (h, decide-passes a r, e)
        (reply-frames o r _ _ _
          ∙ ap (λ u. ok (reply_frames r ok_code ok_text u))
              (decide_user a r (decide-passes a r ∙ e)))
  | inr e ↦ rw (h, decide-passes a r, e) (reply-frames o r _ _ _)
]
