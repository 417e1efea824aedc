-- ===== src/Auth/Requests.antt =====
-- The calls of the authenticator's client side, each of which sends a command through the actor's
-- pipe, and the loop of the server side. The lines of code that trace are left out.
use zmqpp_pty.Base.{
  Bool, true, false, not, ◌&&◌, ◌||◌, List, [], ◌∷◌, Bytes, Option, none, some, ◌=ˢ◌, =ˢ_eq,
  if◌then◌else◌, Bool-cases, inl, inr, ◌≡◌, refl, ap, Result, ok, err, assertion, ◌>>=◌,
}
use zmqpp_pty.Inet.Memory.{Order}
use zmqpp_pty.Message.{Message, add, empty, get_string}
use zmqpp_pty.Message.Values.{c_string, string}
use zmqpp_pty.Zap.{plain, curve, gssapi}
use zmqpp_pty.Auth.{
  Auth, CommandRun, confirm, with_part, member, insert, password_of, insert_password, allow, deny,
  domain_word, verbose_word, terminate, true_word, allow_any, configure_curve, run_command,
  handle_command, is_blank,
}

-- The calls; the last one is the destructor's.
pub data Request : Type 0 where
  allows denies configures_domain configures_curve : Bytes → Request
  configures_plain : Bytes → Bytes → Request
  configures_gssapi : Request
  sets_verbose : Bool → Request
  terminates : Request

abbrev pub false_word : Bytes
false_word = 102 ∷ 97 ∷ 108 ∷ 115 ∷ 101 ∷ []

-- `msg << "WORD" << …`.
abbrev pub command : Order → Bytes → List Bytes → Message
command o word [] = add o empty (c_string word ∷ [])
command o word (s ∷ []) = add o empty (c_string word ∷ string s ∷ [])
command o word (s ∷ t ∷ more) = add o empty (c_string word ∷ string s ∷ string t ∷ [])

-- The message that a call sends; an empty argument fails an assertion first.
unfoldable pub request_message : Order → Request → Result Message
unfolding add
request_message o (allows address) = ok (command o allow (address ∷ []))
request_message o (denies address) = ok (command o deny (address ∷ []))
request_message o (configures_domain domain) =
    if is_blank domain then err assertion else ok (command o domain_word (domain ∷ []))
request_message o (configures_plain user password) =
    if is_blank user || is_blank password
    then err assertion
    else ok (command o plain (user ∷ password ∷ []))
request_message o (configures_curve key) =
    if is_blank key then err assertion else ok (command o curve (key ∷ []))
request_message o configures_gssapi = ok (command o gssapi [])
request_message o (sets_verbose v) =
    ok (command o verbose_word ((if v then true_word else false_word) ∷ []))
request_message o terminates = ok (command o terminate [])

-- The password that a user has after another is configured for it: the map keeps an old one.
abbrev pub first_of : Option Bytes → Bytes → Bytes
first_of none w = w
first_of (some old) w = old

-- What a call leaves, as the later requests see it. A set gains one element, or one user a password
-- unless it has one; whatever is not named stays.
abbrev pub Does : Request → Auth → Auth → Type 0
Does (allows s) a b =
    (b ≡ record a { whitelist = b.whitelist })
    × ((x : Bytes) → member x b.whitelist ≡ ((x =ˢ s) || member x a.whitelist))
Does (denies s) a b =
    (b ≡ record a { blacklist = b.blacklist })
    × ((x : Bytes) → member x b.blacklist ≡ ((x =ˢ s) || member x a.blacklist))
Does (configures_domain s) a b = b ≡ record a { domain = s }
Does (configures_plain u w) a b =
    (b ≡ record a { passwords = b.passwords })
    × ((x : Bytes)
        → password_of x b.passwords ≡ (
            if x =ˢ u
            then some (first_of (password_of u a.passwords) w)
            else password_of x a.passwords))
Does (configures_curve k) a b =
    (b ≡ record a { curve_allow_any = allow_any =ˢ k; client_keys = b.client_keys })
    × ((x : Bytes)
        → member x b.client_keys ≡ (not (allow_any =ˢ k) && (x =ˢ k) || member x a.client_keys))
Does configures_gssapi a b = b ≡ a
Does (sets_verbose v) a b = b ≡ record a { verbose = v }
Does terminates a b = b ≡ record a { terminated = true }

-- The calls that fail an assertion before anything is sent.
unfoldable pub is_refused : Request → Bool
is_refused (configures_domain s) = is_blank s
is_refused (configures_plain u w) = is_blank u || is_blank w
is_refused (configures_curve k) = is_blank k
is_refused _ = false

-- The state that the server side computes.
unfoldable effect : Request → Auth → Auth
unfolding insert insert_password configure_curve
effect (allows s) a = record a { whitelist = insert s a.whitelist }
effect (denies s) a = record a { blacklist = insert s a.blacklist }
effect (configures_domain s) a = record a { domain = s }
effect (configures_plain u w) a = record a { passwords = insert_password u w a.passwords }
effect (configures_curve k) a = configure_curve a k
effect configures_gssapi a = a
effect (sets_verbose v) a = record a { verbose = v }
effect terminates a = record a { terminated = true }

run_effect :
    (o : Order) (q : Request) (sent : Result Bool) (a : Auth)
    → (request_message o q >>= λ m. ok (handle_command sent a m))
      ≡ (if is_refused q then err assertion else ok (confirm sent (effect q a)))
unfolding request_message handle_command run_command with_part get_string ◌=ˢ◌ add effect is_refused
run_effect o (allows s) sent a = refl
run_effect o (denies s) sent a = refl
run_effect o (configures_domain []) sent a = refl
run_effect o (configures_domain (c ∷ s)) sent a = refl
run_effect o (configures_plain [] w) sent a = refl
run_effect o (configures_plain (c ∷ u) []) sent a = refl
run_effect o (configures_plain (c ∷ u) (d ∷ w)) sent a = refl
run_effect o (configures_curve []) sent a = refl
run_effect o (configures_curve (c ∷ k)) sent a = refl
run_effect o configures_gssapi sent a = refl
run_effect o (sets_verbose true) sent a = refl
run_effect o (sets_verbose false) sent a = refl
run_effect o terminates sent a = refl

insert-member : (s x : Bytes) (ts : List Bytes) → member x (insert s ts) ≡ ((x =ˢ s) || member x ts)
unfolding insert member
insert-member s x ts = elim (Bool-cases (member s ts)) [
  | inr new ↦ rw new refl
  | inl old ↦ rw old (elim (Bool-cases (x =ˢ s)) [
    | inl same ↦ rw (same, =ˢ_eq x s same, old) refl
    | inr other ↦ rw other refl
  ])
]

insert-password_of :
    (u w x : Bytes) (ps : List (Bytes × Bytes))
    → password_of x (insert_password u w ps)
      ≡ (if x =ˢ u then some (first_of (password_of u ps) w) else password_of x ps)
unfolding insert_password password_of
insert-password_of u w x ps = by_old (password_of u ps) refl
  where
    by_old :
        (old : Option Bytes)
        → password_of u ps ≡ old
        → password_of x (insert_password u w ps)
          ≡ (if x =ˢ u then some (first_of old w) else password_of x ps)
    by_old none e = rw (e, insert_password) refl
    by_old (some v) e =
        rw (e, insert_password)
          (elim (Bool-cases (x =ˢ u)) [
            | inl same ↦ rw (same, =ˢ_eq x u same, e) refl
            | inr other ↦ rw other refl
          ])

effect-Does : (q : Request) (a : Auth) → Does q a (effect q a)
unfolding effect configure_curve
effect-Does (allows s) a = (refl, λ x. insert-member s x a.whitelist)
effect-Does (denies s) a = (refl, λ x. insert-member s x a.blacklist)
effect-Does (configures_domain s) a = refl
effect-Does (configures_plain u w) a = (refl, λ x. insert-password_of u w x a.passwords)
effect-Does (configures_curve k) a = elim (Bool-cases (allow_any =ˢ k)) [
  | inl any ↦ rw any (refl, λ x. refl)
  | inr one ↦ rw one (refl, λ x. insert-member k x a.client_keys)
]
effect-Does configures_gssapi a = refl
effect-Does (sets_verbose v) a = refl
effect-Does terminates a = refl

-- A call that is refused, and one that is sent, handled and confirmed.
abbrev pub IsHandled : Bool → Order → Request → Result Bool → Auth → Type 0
IsHandled true o q sent a = request_message o q ≡ err assertion
IsHandled false o q sent a =
    (m : Message) × (b : Auth) × (request_message o q ≡ ok m)
    × Does q a b
    × (handle_command sent a m ≡ confirm sent b)

-- Every call of the client side, handled by the server side. A call with an empty domain, user,
-- password or key fails its assertion. Any other is sent, and the server then does what is asked and
-- nothing else: it adds the address to the set, takes over the domain or the verbosity, lets in one
-- more CURVE key or any key, adds the password of a new user, or ends; but a user that is known
-- keeps its old password. The call then ends as the send of the signal `ok` ends: the signal is
-- sent, is lost without an error, or the exception of the send goes through.
pub handle_command-request_message :
    (o : Order) (q : Request) (sent : Result Bool) (a : Auth) → IsHandled (is_refused q) o q sent a
handle_command-request_message o q sent a =
    by_case (is_refused q) (request_message o q) refl (run_effect o q sent a)
  where
    run_of : Result CommandRun → CommandRun
    run_of (ok r) = r
    run_of (err x) = confirm sent a

    by_case :
        (refused : Bool) (m : Result Message)
        → request_message o q ≡ m
        → (m >>= λ m'. ok (handle_command sent a m'))
          ≡ (if refused then err assertion else ok (confirm sent (effect q a)))
        → IsHandled refused o q sent a
    by_case true (ok m) e h = cc
    by_case true (err x) e h = cc
    by_case false (err x) e h = cc
    by_case false (ok m) e h = (m, effect q a, e, effect-Does q a, ap run_of h)
