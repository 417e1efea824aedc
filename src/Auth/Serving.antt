-- ===== src/Auth/Serving.antt =====
-- The loop of the server side.
use zmqpp_pty.Base.{
  Bool, true, false, not, ◌&&◌, List, [], ◌∷◌, ◌++◌, Option, none, some, if◌then◌else◌, ℤ, ◌≡◌,
  refl, sym, ap, ◌∙◌, Result, ok, err, Error,
}
use mathlib.Core.Path.{subst}
use zmqpp_pty.Inet.Memory.{Order}
use zmqpp_pty.Message.{Message, signal_ok}
use zmqpp_pty.Zap.{ZapRequest}
use zmqpp_pty.Auth.{Auth, CommandRun, confirm, handle_command, authenticate}
use zmqpp_pty.Auth.Requests.{
  Request, terminates, allows, denies, configures_domain, configures_plain, configures_curve,
  configures_gssapi, sets_verbose, is_refused, request_message, Does, IsHandled,
  handle_command-request_message,
}

-- What a turn of the loop finds: whether `poll` returned true, the request that was read if the
-- handler has input, and the message that was read if the pipe has input with what the send of the
-- confirmation answers.
pub record Round : Type 0 where
  pub polled : Bool
  pub request : Option ZapRequest
  pub command : Option (Message × Result Bool)

-- The server: its state, the replies to requests and the signals to the pipe, the last ones last.
pub record Server : Type 0 where
  pub auth : Auth
  pub replies : List Message
  pub signals : List ℤ

-- How the routine of the actor ends; `polling` when the rounds are used up.
pub data Serving : Type 0 where
  polling : Server → Serving
  returned : Server → Serving
  thrown : Server → Error → Serving

abbrev pub replied : Server → Result Message → Server × Result (Unit {0})
replied s (ok m) = (record s { replies = s.replies ++ m ∷ [] }, ok tt)
replied s (err e) = (s, err e)

unfoldable pub on_request : Order → Option ZapRequest → Server → Server × Result (Unit {0})
unfolding authenticate
on_request o none s = (s, ok tt)
on_request o (some r) s = replied s (authenticate o s.auth r)

abbrev pub ran : Server → CommandRun → Server × Result (Unit {0})
ran s run = (record s { auth = run.auth; signals = s.signals ++ run.signals }, run.result)

unfoldable pub on_command : Option (Message × Result Bool) → Server → Server × Result (Unit {0})
unfolding handle_command
on_command none s = (s, ok tt)
on_command (some c) s = ran s (handle_command c.1 s.auth c.0)

abbrev pub serving : Server × Result (Unit {0}) → (Server → Serving) → Serving
serving (s, ok u) next = next s
serving (s, err e) next = thrown s e

unfoldable pub serve : Order → List Round → Server → Serving
unfolding on_request on_command
serve o [] s = if s.auth.terminated then returned s else polling s
serve o (r ∷ rs) s =
    if not s.auth.terminated && r.polled
    then serving (on_request o r.request s)
        (λ s'. serving (on_command r.command s') (λ s''. serve o rs s''))
    else returned s

-- A call of the client, its message, and whether the server's confirmation of it is sent or is lost
-- because it cannot be sent for now.
pub record Call : Type 0 where
  pub request : Request
  pub message : Message
  pub confirmed : Bool

-- The turn of the server that finds it.
abbrev pub turn_of : Call → Round
turn_of c = record { polled = true; request = none; command = some (c.message, ok c.confirmed) }

abbrev pub is_last : Request → Bool
is_last terminates = true
is_last _ = false

-- Calls with the messages that they send, none of which is the destructor's.
abbrev pub AreSent : Order → List Call → Type 0
AreSent o [] = Unit
AreSent o (c ∷ cs) =
    (request_message o c.request ≡ ok c.message) × (is_last c.request ≡ false) × AreSent o cs

abbrev pub turns_of : List Call → List Round → List Round
turns_of [] rest = rest
turns_of (c ∷ cs) rest = turn_of c ∷ turns_of cs rest

abbrev pub signals_of : List Call → List ℤ
signals_of [] = []
signals_of (c ∷ cs) = if c.confirmed then signal_ok ∷ signals_of cs else signals_of cs

-- Each call does what it asks for to the state that the calls before it left.
abbrev pub DoAll : List Call → Auth → Auth → Type 0
DoAll [] a b = a ≡ b
DoAll (c ∷ cs) a b = (middle : Auth) × Does c.request a middle × DoAll cs middle b

abbrev pub confirmation : Bool → List ℤ
confirmation true = signal_ok ∷ []
confirmation false = []

confirm-ok :
    (t : Bool) (b : Auth)
    → confirm (ok t) b ≡ record { auth = b; signals = confirmation t; result = ok tt }
confirm-ok true b = refl
confirm-ok false b = refl

-- A call that is sent is handled as it asks.
handled :
    (o : Order) (c : Call) (a : Auth)
    → request_message o c.request ≡ ok c.message
    → (b : Auth) × Does c.request a b
      × (handle_command (ok c.confirmed) a c.message ≡ confirm (ok c.confirmed) b)
handled o c a e =
    by_case (is_refused c.request) (handle_command-request_message o c.request (ok c.confirmed) a)
  where
    message_of : Result Message → Message
    message_of (ok m) = m
    message_of (err x) = c.message

    by_case :
        (t : Bool)
        → IsHandled t o c.request (ok c.confirmed) a
        → (b : Auth) × Does c.request a b
          × (handle_command (ok c.confirmed) a c.message ≡ confirm (ok c.confirmed) b)
    by_case true h = cc
    by_case false (m, b, sent, does, run) =
        let same : m ≡ c.message = ap message_of (sym sent ∙ e) in
        (
          b,
          does,
          subst (λ x. handle_command (ok c.confirmed) a x ≡ confirm (ok c.confirmed) b) same run,
        )

goes_on :
    (q : Request) (a b : Auth)
    → is_last q ≡ false
    → Does q a b
    → a.terminated ≡ false
    → b.terminated ≡ false
goes_on (allows s) a b n d t = ap (λ x. x.terminated) d.0 ∙ t
goes_on (denies s) a b n d t = ap (λ x. x.terminated) d.0 ∙ t
goes_on (configures_domain s) a b n d t = ap (λ x. x.terminated) d ∙ t
goes_on (configures_plain u w) a b n d t = ap (λ x. x.terminated) d.0 ∙ t
goes_on (configures_curve k) a b n d t = ap (λ x. x.terminated) d.0 ∙ t
goes_on configures_gssapi a b n d t = ap (λ x. x.terminated) d ∙ t
goes_on (sets_verbose v) a b n d t = ap (λ x. x.terminated) d ∙ t
goes_on terminates a b n d t = cc

serve_done :
    (o : Order) (rest : List Round) (s : Server)
    → s.auth.terminated ≡ true
    → serve o rest s ≡ returned s
unfolding serve
serve_done o [] s t = rw t refl
serve_done o (r ∷ rs) s t = rw t refl

serve_one :
    (o : Order) (c : Call) (b : Auth) (rest : List Round) (s : Server)
    → handle_command (ok c.confirmed) s.auth c.message ≡ confirm (ok c.confirmed) b
    → s.auth.terminated ≡ false
    → serve o (turn_of c ∷ rest) s
      ≡ serve o rest (record s { auth = b; signals = s.signals ++ confirmation c.confirmed })
unfolding serve on_request on_command
serve_one o c b rest s e t =
    ap
      (λ x.
        if not x && true
        then serving (on_command (some (c.message, ok c.confirmed)) s) (λ s''. serve o rest s'')
        else returned s)
      t
    ∙ ap (λ run. serving (ran s run) (λ s''. serve o rest s'')) (e ∙ confirm-ok c.confirmed b)

signals-append :
    (xs : List ℤ) (t : Bool) (ys : List ℤ)
    → (xs ++ confirmation t) ++ ys ≡ xs ++ (if t then signal_ok ∷ ys else ys)
signals-append [] true ys = refl
signals-append [] false ys = refl
signals-append (x ∷ xs) t ys = ap (◌∷◌ x) (signals-append xs t ys)

-- A server that has not ended handles the calls of a client whose messages were sent, one after the
-- other and with no request between them, when no send of a confirmation throws. Each call does what
-- it asks for to the state that the earlier ones left, and nothing else, but that a user who is known
-- keeps the old password; the signal `ok` goes out for
-- each call whose confirmation can be sent; no reply is sent; and the server returns after the
-- destructor's call, whatever is polled later.
pub serve-calls :
    (o : Order) (calls : List Call) (end : Call) (rest : List Round) (s : Server)
    → AreSent o calls
    → end.request ≡ terminates
    → request_message o end.request ≡ ok end.message
    → s.auth.terminated ≡ false
    → (s' : Server) × (serve o (turns_of calls (turn_of end ∷ rest)) s ≡ returned s')
      × DoAll (calls ++ end ∷ []) s.auth s'.auth
      × (s'.signals ≡ s.signals ++ signals_of (calls ++ end ∷ []))
      × (s'.replies ≡ s.replies)
serve-calls o [] end rest s sent last e going =
    let (b, does, run) = handled o end s.auth e in
    let after = record s { auth = b; signals = s.signals ++ confirmation end.confirmed } in
    let ended : b.terminated ≡ true =
      ap (λ x. x.terminated) (subst (λ q. Does q s.auth b) last does) in
    (
      after,
      serve_one o end b rest s run going ∙ serve_done o rest after ended,
      (b, does, refl),
      by_confirmation end.confirmed,
      refl,
    )
  where
    by_confirmation :
        (t : Bool) → s.signals ++ confirmation t ≡ s.signals ++ (if t then signal_ok ∷ [] else [])
    by_confirmation true = refl
    by_confirmation false = refl
serve-calls o (c ∷ cs) end rest s sent last e going =
    let (b, does, run) = handled o c s.auth sent.0 in
    let after = record s { auth = b; signals = s.signals ++ confirmation c.confirmed } in
    let (s', served, all, signals, replies) =
      serve-calls o cs end rest after sent.2 last e
        (goes_on c.request s.auth b sent.1 does going) in
    (
      s',
      serve_one o c b (turns_of cs (turn_of end ∷ rest)) s run going ∙ served,
      (b, does, all),
      signals ∙ signals-append s.signals c.confirmed (signals_of (cs ++ end ∷ [])),
      replies,
    )
