-- ===== src/Auth.antt =====
-- zmqpp/auth.cpp: the commands of the authenticator, and its decisions. A set of strings is a list
-- without duplicates, and the passwords are an association list. Tracing is left out.
pub mod Policy
pub mod Commands
pub mod Replies
pub mod Requests
pub mod Serving
use zmqpp_pty.Base.{
  ℕ, Bool, true, false, not, ◌&&◌, ◌||◌, List, [], ◌∷◌, ◌++◌, Bytes, Option, none, some, ◌=ˢ◌, ◌==◌,
  if◌then◌else◌, length, ℤ, Result, ok, err, assertion, ◌>>=◌,
}
use zmqpp_pty.Inet.Memory.{Order}
use zmqpp_pty.Message.{Message, parts, get_string, signal_ok}
use zmqpp_pty.Zap.{ZapRequest, null, plain, curve, gssapi, reply_message}

pub record Auth : Type 0 where
  pub whitelist : List Bytes
  pub blacklist : List Bytes
  pub passwords : List (Bytes × Bytes)
  pub client_keys : List Bytes
  pub domain : Bytes
  pub curve_allow_any : Bool
  pub terminated : Bool
  pub verbose : Bool

abbrev pub fresh : Auth
fresh = record {
  whitelist = [];
  blacklist = [];
  passwords = [];
  client_keys = [];
  domain = [];
  curve_allow_any = false;
  terminated = false;
  verbose = false;
}

-- `find` and `insert` of the sets and of the map: an element or key that is there stays.
unfoldable pub member : Bytes → List Bytes → Bool
member s [] = false
member s (t ∷ ts) = s =ˢ t || member s ts

unfoldable pub insert : Bytes → List Bytes → List Bytes
unfolding member
insert s ts = if member s ts then ts else s ∷ ts

unfoldable pub password_of : Bytes → List (Bytes × Bytes) → Option Bytes
password_of u [] = none
password_of u (p ∷ ps) = if u =ˢ p.0 then some p.1 else password_of u ps

unfoldable pub insert_password : Bytes → Bytes → List (Bytes × Bytes) → List (Bytes × Bytes)
unfolding password_of
insert_password u w ps = elim (password_of u ps) [ none ↦ (u, w) ∷ ps | some old ↦ ps ]

-- The words of the commands.
abbrev pub allow : Bytes
allow = 65 ∷ 76 ∷ 76 ∷ 79 ∷ 87 ∷ []

abbrev pub deny : Bytes
deny = 68 ∷ 69 ∷ 78 ∷ 89 ∷ []

abbrev pub domain_word : Bytes
domain_word = 68 ∷ 79 ∷ 77 ∷ 65 ∷ 73 ∷ 78 ∷ []

abbrev pub verbose_word : Bytes
verbose_word = 86 ∷ 69 ∷ 82 ∷ 66 ∷ 79 ∷ 83 ∷ 69 ∷ []

abbrev pub terminate : Bytes
terminate = 84 ∷ 69 ∷ 82 ∷ 77 ∷ 73 ∷ 78 ∷ 65 ∷ 84 ∷ 69 ∷ []

abbrev pub allow_any : Bytes
allow_any = 67 ∷ 85 ∷ 82 ∷ 86 ∷ 69 ∷ 95 ∷ 65 ∷ 76 ∷ 76 ∷ 79 ∷ 87 ∷ 95 ∷ 65 ∷ 78 ∷ 89 ∷ []

abbrev pub true_word : Bytes
true_word = 116 ∷ 114 ∷ 117 ∷ 101 ∷ []

-- What a command leaves: the state, the signals sent to the pipe, and how the call ends.
pub record CommandRun : Type 0 where
  pub auth : Auth
  pub signals : List ℤ
  pub result : Result (Unit {0})

-- `pipe.send(signal::ok)` after a change, by what `send` answers: the signal is sent, cannot be sent
-- for now, which is ignored, or the send throws.
abbrev pub confirm : Result Bool → Auth → CommandRun
confirm (ok true) a = record { auth = a; signals = signal_ok ∷ []; result = ok tt }
confirm (ok false) a = record { auth = a; signals = []; result = ok tt }
confirm (err e) a = record { auth = a; signals = []; result = err e }

-- A parameter of the command, and then its effect; the state is as before if the part is missing.
unfoldable pub with_part : Auth → Result Bytes → (Bytes → CommandRun) → CommandRun
with_part a (ok s) effect = effect s
with_part a (err e) effect = record { auth = a; signals = []; result = err e }

unfoldable pub configure_curve : Auth → Bytes → Auth
unfolding insert
configure_curve a key =
    if allow_any =ˢ key
    then record a { curve_allow_any = true }
    else record a { curve_allow_any = false; client_keys = insert key a.client_keys }

unfoldable pub run_command : Result Bool → Auth → Message → Bytes → CommandRun
unfolding insert insert_password with_part configure_curve
run_command sent a msg command =
    if allow =ˢ command
    then with_part a (get_string msg 1)
        (λ s. confirm sent (record a { whitelist = insert s a.whitelist }))
    else if deny =ˢ command
    then with_part a (get_string msg 1)
        (λ s. confirm sent (record a { blacklist = insert s a.blacklist }))
    else if domain_word =ˢ command
    then with_part a (get_string msg 1) (λ s. confirm sent (record a { domain = s }))
    else if plain =ˢ command
    then with_part a (get_string msg 1) (λ u.
      with_part a (get_string msg 2)
        (λ w. confirm sent (record a { passwords = insert_password u w a.passwords })))
    else if curve =ˢ command
    then with_part a (get_string msg 1) (λ s. confirm sent (configure_curve a s))
    else if gssapi =ˢ command
    then confirm sent a
    else if verbose_word =ˢ command
    then with_part a (get_string msg 1) (λ s. confirm sent (record a { verbose = true_word =ˢ s }))
    else if terminate =ˢ command
    then confirm sent (record a { terminated = true })
    else record { auth = a; signals = []; result = err assertion }

-- `handle_command`, once a message was received; no parts mean that it was interrupted. `sent` is
-- what the send of the confirmation answers.
unfoldable pub handle_command : Result Bool → Auth → Message → CommandRun
unfolding run_command with_part
handle_command sent a msg =
    if parts msg == 0
    then record { auth = a; signals = []; result = ok tt }
    else with_part a (get_string msg 0) (run_command sent a msg)

-- Whether the mechanism lets the client in, and the user that `user_id` is set to.
pub record Verdict : Type 0 where
  pub allowed : Bool
  pub user_id : Bytes

abbrev password_matches : Option Bytes → Bytes → Bool
password_matches none w = false
password_matches (some known) w = known =ˢ w

unfoldable pub authenticate_plain : Auth → ZapRequest → Verdict
unfolding password_of
authenticate_plain a r =
    if password_matches (password_of r.username a.passwords) r.password
    then record { allowed = true; user_id = r.username }
    else record { allowed = false; user_id = [] }

unfoldable pub authenticate_curve : Auth → ZapRequest → Verdict
unfolding member
authenticate_curve a r =
    if a.curve_allow_any
    then record { allowed = true; user_id = r.client_key }
    else if member r.client_key a.client_keys
    then record { allowed = true; user_id = r.client_key }
    else record { allowed = false; user_id = [] }

unfoldable pub authenticate_gssapi : ZapRequest → Bool
authenticate_gssapi r = true

abbrev pub is_empty : List Bytes → Bool
is_empty [] = true
is_empty (s ∷ ss) = false

-- The two flags after the address was looked up: allowed, and denied.
unfoldable pub check_address : Auth → ZapRequest → Bool × Bool
unfolding member
check_address a r =
    if not (is_empty a.whitelist)
    then (if member r.address a.whitelist then (true, false) else (false, true))
    else if not (is_empty a.blacklist)
    then (if member r.address a.blacklist then (false, true) else (true, false))
    else (false, false)

unfoldable pub check_mechanism : Auth → ZapRequest → Bool → Verdict
unfolding authenticate_plain authenticate_curve authenticate_gssapi
check_mechanism a r allowed =
    if null =ˢ r.mechanism && not allowed
    then record { allowed = true; user_id = [] }
    else if plain =ˢ r.mechanism
    then authenticate_plain a r
    else if curve =ˢ r.mechanism
    then authenticate_curve a r
    else if gssapi =ˢ r.mechanism
    then record { allowed = authenticate_gssapi r; user_id = [] }
    else record { allowed = allowed; user_id = [] }

unfoldable pub decide : Auth → ZapRequest → Verdict
unfolding check_address check_mechanism
decide a r =
    let flags = check_address a r in
    if flags.1 then record { allowed = flags.0; user_id = [] } else check_mechanism a r flags.0

-- "500", "200" and "400" with their texts.
abbrev pub internal_error : Bytes
internal_error = 53 ∷ 48 ∷ 48 ∷ []

abbrev pub internal_text : Bytes
internal_text = 73 ∷ 110 ∷ 116 ∷ 101 ∷ 114 ∷ 110 ∷ 97 ∷ 108 ∷ 32 ∷ 101 ∷ 114 ∷ 114 ∷ 111 ∷ 114 ∷ []

abbrev pub ok_code : Bytes
ok_code = 50 ∷ 48 ∷ 48 ∷ []

abbrev pub ok_text : Bytes
ok_text = 79 ∷ 75 ∷ []

abbrev pub no_access : Bytes
no_access = 52 ∷ 48 ∷ 48 ∷ []

abbrev pub no_access_text : Bytes
no_access_text = 78 ∷ 111 ∷ 32 ∷ 97 ∷ 99 ∷ 99 ∷ 101 ∷ 115 ∷ 115 ∷ []

abbrev pub is_blank : Bytes → Bool
is_blank [] = true
is_blank (c ∷ s) = false

-- `authenticate`, once a request was read: the message that is handed to `send` as the reply.
unfoldable pub authenticate : Order → Auth → ZapRequest → Result Message
unfolding decide reply_message
authenticate o a r =
    if is_blank r.version
    then reply_message o r internal_error internal_text [] []
    else if (decide a r).allowed
    then reply_message o r ok_code ok_text (decide a r).user_id []
    else reply_message o r no_access no_access_text [] []
