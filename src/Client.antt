-- ===== src/Client.antt =====
-- client/options.hpp, options.cpp and main.cpp: the command line client. The command line as the
-- option parser stored it is an argument, `none` if the parser threw. Text that is printed is not
-- part of the model.
pub mod Reading
pub mod Turns
pub mod Starting
pub mod Framing
pub mod Toggling
pub mod Polling
pub mod Asserting
pub mod Opening
use zmqpp_pty.Base.{
  ℕ, Bool, true, false, not, ◌&&◌, ◌||◌, List, [], ◌∷◌, Option, none, some, if◌then◌else◌, ◌=ˢ◌,
  Bytes,
}

-- The types of socket that the client names; every other one is `other`.
pub data SocketType : Type 0 where
  push pull publish subscribe request reply pair other : SocketType

pub record ClientOptions : Type 0 where
  pub show_usage : Bool
  pub show_help : Bool
  pub show_version : Bool
  pub verbose : Bool
  pub detailed : Bool
  pub annotate : Bool
  pub socket_type : SocketType
  pub binds : List Bytes
  pub connects : List Bytes
  pub singlepart : Bool
  pub exit_on_empty : Bool

-- What the parser stored of each option: its value, or whether it was given.
pub record Variables : Type 0 where
  pub type_name : Option Bytes
  pub bind : Option (List Bytes)
  pub connect : Option (List Bytes)
  pub version : Bool
  pub help : Bool
  pub singlepart : Bool
  pub annotate : Bool
  pub verbose : Bool
  pub detailed : Bool
  pub exit_when_no_input : Bool

abbrev pub no_variables : Variables
no_variables = record {
  type_name = none;
  bind = none;
  connect = none;
  version = false;
  help = false;
  singlepart = false;
  annotate = false;
  verbose = false;
  detailed = false;
  exit_when_no_input = false;
}

-- "push"
abbrev pub push_name : Bytes
push_name = 112 ∷ 117 ∷ 115 ∷ 104 ∷ []

-- "pull"
abbrev pub pull_name : Bytes
pull_name = 112 ∷ 117 ∷ 108 ∷ 108 ∷ []

-- "pub"
abbrev pub pub_name : Bytes
pub_name = 112 ∷ 117 ∷ 98 ∷ []

-- "publish"
abbrev pub publish_name : Bytes
publish_name = 112 ∷ 117 ∷ 98 ∷ 108 ∷ 105 ∷ 115 ∷ 104 ∷ []

-- "sub"
abbrev pub sub_name : Bytes
sub_name = 115 ∷ 117 ∷ 98 ∷ []

-- "subscribe"
abbrev pub subscribe_name : Bytes
subscribe_name = 115 ∷ 117 ∷ 98 ∷ 115 ∷ 99 ∷ 114 ∷ 105 ∷ 98 ∷ 101 ∷ []

-- "req"
abbrev pub req_name : Bytes
req_name = 114 ∷ 101 ∷ 113 ∷ []

-- "request"
abbrev pub request_name : Bytes
request_name = 114 ∷ 101 ∷ 113 ∷ 117 ∷ 101 ∷ 115 ∷ 116 ∷ []

-- "rep"
abbrev pub rep_name : Bytes
rep_name = 114 ∷ 101 ∷ 112 ∷ []

-- "reply"
abbrev pub reply_name : Bytes
reply_name = 114 ∷ 101 ∷ 112 ∷ 108 ∷ 121 ∷ []

-- `socket_type_options()`.
abbrev pub socket_types : List (Bytes × SocketType)
socket_types =
    (push_name, push)
    ∷ (pull_name, pull)
    ∷ (pub_name, publish)
    ∷ (publish_name, publish)
    ∷ (sub_name, subscribe)
    ∷ (subscribe_name, subscribe)
    ∷ (req_name, request)
    ∷ (request_name, request)
    ∷ (rep_name, reply)
    ∷ (reply_name, reply)
    ∷ []

unfoldable pub find_type : List (Bytes × SocketType) → Bytes → Option SocketType
find_type [] name = none
find_type (e ∷ es) name = if e.0 =ˢ name then some e.1 else find_type es name

abbrev pub is_given : {A : Type 0} → Option A → Bool
is_given none = false
is_given (some x) = true

-- Whether a type is given that is not in the index, and the type that `socket_types[…]` answers,
-- where an unknown name is inserted with the value 0.
unfoldable pub is_unknown : Option Bytes → Bool
unfolding find_type
is_unknown none = false
is_unknown (some name) = not (is_given (find_type socket_types name))

abbrev pub or_pair : Option SocketType → SocketType
or_pair none = pair
or_pair (some t) = t

unfoldable pub type_of : Option Bytes → SocketType
unfolding find_type
type_of none = pair
type_of (some name) = or_pair (find_type socket_types name)

abbrev pub or_empty : Option (List Bytes) → List Bytes
or_empty none = []
or_empty (some xs) = xs

-- The options, given whether the parser threw and what it stored.
unfoldable pub options_of : Bool → Variables → ClientOptions
unfolding is_unknown type_of
options_of threw vm = record {
  show_usage =
      threw
      || (is_unknown vm.type_name
          || (not (is_given vm.type_name)
              || (vm.help || (not (is_given vm.connect) && not (is_given vm.bind)))));
  show_help = vm.help;
  show_version = vm.version;
  verbose = vm.verbose || vm.detailed;
  detailed = vm.detailed;
  annotate = vm.annotate;
  socket_type = type_of vm.type_name;
  binds = or_empty vm.bind;
  connects = or_empty vm.connect;
  singlepart = vm.singlepart;
  exit_on_empty = vm.exit_when_no_input;
}

unfoldable pub process_command_line : Option Variables → ClientOptions
unfolding options_of
process_command_line none = options_of true no_variables
process_command_line (some vm) = options_of false vm

-- What the socket may do: send, receive, and change between the two.
pub record Modes : Type 0 where
  pub can_send : Bool
  pub can_recv : Bool
  pub toggles : Bool

abbrev pub modes : Bool → Bool → Bool → Modes
modes s r t = record { can_send = s; can_recv = r; toggles = t }

-- The `switch` on the type; `none` is the default case.
unfoldable pub modes_of : SocketType → Option Modes
modes_of push = some (modes true false false)
modes_of pull = some (modes false true false)
modes_of publish = some (modes true false false)
modes_of subscribe = some (modes false true false)
modes_of request = some (modes true false true)
modes_of reply = some (modes false true true)
modes_of pair = none
modes_of other = none

-- How `main` goes on after the options.
pub data Start : Type 0 where
  shows_version : Start
  shows_usage : Bool → Start
  unsupported : Start
  runs : Modes → Start

abbrev pub run_or_fail : Option Modes → Start
run_or_fail none = unsupported
run_or_fail (some m) = runs m

unfoldable pub start : ClientOptions → Start
unfolding modes_of
start o =
    if o.show_version
    then shows_version
    else if o.show_usage || o.show_help
    then shows_usage o.show_help
    else run_or_fail (modes_of o.socket_type)
