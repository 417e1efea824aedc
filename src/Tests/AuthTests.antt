-- ===== src/Tests/AuthTests.antt =====
-- An authenticator with a user, and requests by PLAIN.
use zmqpp_pty.Base.{true, false, arith, ◌++◌, ◌&&◌, [], ◌∷◌, Bytes, ◌≡◌, refl, ok, if◌then◌else◌}
use zmqpp_pty.Message.{Message, parts, get_string}
use zmqpp_pty.Inet.Memory.{little_endian}
use zmqpp_pty.Message.Frames.{frame}
use zmqpp_pty.Zap.{ZapRequest, blank, one_zero, plain}
use zmqpp_pty.Auth.{
  terminate, Auth, fresh, decide, authenticate, handle_command, allow, ok_code, ok_text, no_access,
  no_access_text,
}
use zmqpp_pty.Auth.Requests.{
  configures_plain, terminates, command, request_message, is_refused, IsHandled,
  handle_command-request_message,
}
use zmqpp_pty.Auth.Serving.{
  Server, returned, serve, Call, turn_of, AreSent, turns_of, signals_of, DoAll, serve-calls,
}
use zmqpp_pty.Auth.Policy.{passes, has_credentials, decide-passes}
use zmqpp_pty.Auth.Commands.{Obeys, arity, handle_command-Obeys}
use zmqpp_pty.Auth.Replies.{reply_frames, user_of, authenticate-passes}

abbrev ada : Bytes
ada = 97 ∷ 100 ∷ 97 ∷ []

abbrev secret : Bytes
secret = 115 ∷ 51 ∷ []

abbrev guarded : Auth
guarded = record fresh { passwords = (ada, secret) ∷ [] }

abbrev login : ZapRequest
login = record blank {
  version = one_zero;
  address = 49 ∷ [];
  mechanism = plain;
  username = ada;
  password = secret;
}

decide-passes_example :
    (decide guarded login).allowed ≡ (passes guarded login && has_credentials guarded login)
decide-passes_example = decide-passes guarded login

authenticate-passes_example :
    authenticate little_endian guarded login
    ≡ ok (
        if passes guarded login && has_credentials guarded login
        then reply_frames login ok_code ok_text (user_of login)
        else reply_frames login no_access no_access_text [])
authenticate-passes_example = authenticate-passes little_endian guarded login refl

-- The address of `ALLOW` is missing.
abbrev bare_allow : Message
bare_allow = record { frames = frame allow ∷ []; read_cursor = 0 }

handle_command-Obeys_example :
    (word : Bytes) × (get_string bare_allow 0 ≡ ok word)
    × Obeys
        (ok true)
        guarded
        (parts bare_allow)
        (arity word)
        (handle_command (ok true) guarded bare_allow)
handle_command-Obeys_example = handle_command-Obeys (ok true) guarded bare_allow (omega arith)

-- The password of a known user.
handle_command-request_message_example :
    IsHandled
      (is_refused (configures_plain ada (49 ∷ [])))
      little_endian
      (configures_plain ada (49 ∷ []))
      (ok false)
      guarded
handle_command-request_message_example =
    handle_command-request_message little_endian (configures_plain ada (49 ∷ [])) (ok false) guarded

abbrev server : Server
server = record { auth = fresh; replies = []; signals = [] }

abbrev call : Call
call = record {
  request = configures_plain ada secret;
  message = command little_endian plain (ada ∷ secret ∷ []);
  confirmed = true;
}

abbrev end : Call
end = record {
  request = terminates;
  message = command little_endian terminate [];
  confirmed = false;
}

sent : AreSent little_endian (call ∷ [])
unfolding request_message
sent = (refl, refl, tt)

last : request_message little_endian terminates ≡ ok (command little_endian terminate [])
unfolding request_message
last = refl

serve-calls_example :
    (s' : Server) × (serve little_endian (turns_of (call ∷ []) (turn_of end ∷ [])) server
      ≡ returned s')
    × DoAll ((call ∷ []) ++ end ∷ []) fresh s'.auth
    × (s'.signals ≡ [] ++ signals_of ((call ∷ []) ++ end ∷ []))
    × (s'.replies ≡ [])
serve-calls_example = serve-calls little_endian (call ∷ []) end [] server sent refl last refl
