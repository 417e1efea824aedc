-- ===== src/Zap.antt =====
-- zmqpp/zap_request.cpp: the requests and replies of the ZeroMQ authentication protocol (RFC 27).
-- `z85::encode` calls libzmq and is an argument. Tracing is left out.
pub mod Metadata
pub mod Requests
use zmqpp_pty.Base.{
  ℕ, ◌%◌, ◌^◌, Bool, true, false, List, [], ◌∷◌, ◌++◌, Bytes, ◌=ˢ◌, ◌==◌, if◌then◌else◌, ltb,
  length, Result, ok, err, assertion, ◌>>=◌, ◌>>◌,
}
use zmqpp_pty.Inet.Memory.{Order, store, htonl}
use zmqpp_pty.Message.{Message, empty, parts, get_string, add_raw}
use zmqpp_pty.Socket.Transfer.{
  SendAnswer, SendRun, send, RecvAnswer, RecvRun, Call, returned, waiting, receive,
}

pub record ZapRequest : Type 0 where
  pub version : Bytes
  pub sequence : Bytes
  pub domain : Bytes
  pub address : Bytes
  pub identity : Bytes
  pub mechanism : Bytes
  pub username : Bytes
  pub password : Bytes
  pub client_key : Bytes
  pub principal : Bytes

-- The strings before the constructor's body runs.
abbrev pub blank : ZapRequest
blank = record {
  version = [];
  sequence = [];
  domain = [];
  address = [];
  identity = [];
  mechanism = [];
  username = [];
  password = [];
  client_key = [];
  principal = [];
}

-- "1.0", "NULL", "PLAIN", "CURVE" and "GSSAPI".
abbrev pub one_zero : Bytes
one_zero = 49 ∷ 46 ∷ 48 ∷ []

abbrev pub null : Bytes
null = 78 ∷ 85 ∷ 76 ∷ 76 ∷ []

abbrev pub plain : Bytes
plain = 80 ∷ 76 ∷ 65 ∷ 73 ∷ 78 ∷ []

abbrev pub curve : Bytes
curve = 67 ∷ 85 ∷ 82 ∷ 86 ∷ 69 ∷ []

abbrev pub gssapi : Bytes
gssapi = 71 ∷ 83 ∷ 83 ∷ 65 ∷ 80 ∷ 73 ∷ []

-- The frames of the mechanism.
unfoldable pub mechanism_frames : (Bytes → Result Bytes) → Message → ZapRequest → Result ZapRequest
mechanism_frames encode msg r =
    if plain =ˢ r.mechanism
    then (do
      u ← get_string msg 6
      w ← get_string msg 7
      ok (record r { username = u; password = w }))
    else if curve =ˢ r.mechanism
    then (do raw ← get_string msg 6; key ← encode raw; ok (record r { client_key = key }))
    else if gssapi =ˢ r.mechanism
    then (do p ← get_string msg 6; ok (record r { principal = p }))
    else ok r

-- `assert(version == "1.0")`, then the rest of the constructor.
unfoldable pub check_version : (Bytes → Result Bytes) → Message → ZapRequest → Result ZapRequest
unfolding mechanism_frames
check_version encode msg r =
    if r.version =ˢ one_zero then mechanism_frames encode msg r else err assertion

-- The constructor, once a message was received; no parts mean that it was interrupted.
unfoldable pub request_of : (Bytes → Result Bytes) → Message → Result ZapRequest
unfolding check_version
request_of encode msg = if parts msg == 0 then ok blank else (do
  v ← get_string msg 0
  s ← get_string msg 1
  d ← get_string msg 2
  a ← get_string msg 3
  i ← get_string msg 4
  m ← get_string msg 5
  check_version encode msg (record blank {
    version = v;
    sequence = s;
    domain = d;
    address = a;
    identity = i;
    mechanism = m;
  }))

-- The constructor on a socket: `receive`, then the frames.
after_receive : (Bytes → Result Bytes) → Call Bool → Message → Call ZapRequest
unfolding request_of
after_receive encode waiting msg = waiting
after_receive encode (returned (err e)) msg = returned (err e)
after_receive encode (returned (ok b)) msg = returned (request_of encode msg)

unfoldable pub zap_request : (Bytes → Result Bytes) → List RecvAnswer → Call ZapRequest
unfolding after_receive receive
zap_request encode answers =
    let r = receive answers empty in after_receive encode r.result r.message

-- One pair of the metadata: the name's length in one byte, the value's in four in network order.
unfoldable pub serialize_pair : Order → Bytes × Bytes → Result Bytes
unfolding store htonl
serialize_pair o p =
    if ltb (length p.0) 256
    then (if ltb (length p.1) (2 ^ 32)
        then ok (length p.0 ∷ (p.0 ++ (store o 4 (htonl o (length p.1)) ++ p.1)))
        else err assertion)
    else err assertion

-- The pairs in the order in which the map is traversed.
unfoldable pub serialize_metadata : Order → List (Bytes × Bytes) → Result Bytes
unfolding serialize_pair
serialize_metadata o [] = ok []
serialize_metadata o (p ∷ ps) = do
  first ← serialize_pair o p
  rest ← serialize_metadata o ps
  ok (first ++ rest)

unfoldable pub reply_message :
    Order → ZapRequest → Bytes → Bytes → Bytes → List (Bytes × Bytes) → Result Message
unfolding serialize_metadata add_raw
reply_message o r status_code status_text user_id metadata = do
  md ← serialize_metadata o metadata
  ok (
      add_raw
        (add_raw
          (add_raw (add_raw (add_raw (add_raw empty r.version) r.sequence) status_code) status_text)
          user_id)
        md)
