-- ===== src/Socket/Options/Setters.antt =====
-- zmqpp/socket.cpp: the overloads of `socket::set`. `zmq_setsockopt` is an argument, `net`: 0 for
-- success, or the error number that `zmq_errno` then returns.
use Prim.Native.String.{String}
use zmqpp_pty.Base.{
  ℕ, Bool, true, false, [], ◌∷◌, ℤ, pos, negsuc, Bytes, ◌==◌, if◌then◌else◌, ltb, Result, ok, err,
  exception, zmq_internal,
}
use zmqpp_pty.Socket.Options.{SocketOption, Payload, Setting}

-- A call of `zmq_setsockopt`, and the exception when it fails.
abbrev pub Net : Type 0
Net = SocketOption → Payload → ℕ

unfoldable pub accept_or_throw : ℕ → Result (Unit {0})
accept_or_throw code = if code == 0 then ok tt else err (zmq_internal code)

unfoldable pub call : Net → SocketOption → Payload → Setting
unfolding accept_or_throw
call net o p = record { calls = (o, p) ∷ []; result = accept_or_throw (net o p) }

abbrev pub refuse : String → Setting
refuse why = record { calls = []; result = err (exception why) }

-- The `case` labels of each overload.
pub data IntCase : Type 0 where
  unsigned_64 signed_64 boolean default_or_boolean positive integer other : IntCase

unfoldable pub int_case : SocketOption → IntCase
int_case SocketOption.vmci_buffer_size = IntCase.unsigned_64
int_case SocketOption.vmci_buffer_min = IntCase.unsigned_64
int_case SocketOption.vmci_buffer_max = IntCase.unsigned_64
int_case SocketOption.affinity = IntCase.unsigned_64
int_case SocketOption.max_messsage_size = IntCase.signed_64
int_case SocketOption.ipv4_only = IntCase.boolean
int_case SocketOption.immediate = IntCase.boolean
int_case SocketOption.router_mandatory = IntCase.boolean
int_case SocketOption.xpub_verbose = IntCase.boolean
int_case SocketOption.ipv6 = IntCase.boolean
int_case SocketOption.plain_server = IntCase.boolean
int_case SocketOption.conflate = IntCase.boolean
int_case SocketOption.curve_server = IntCase.boolean
int_case SocketOption.probe_router = IntCase.boolean
int_case SocketOption.request_correlate = IntCase.boolean
int_case SocketOption.request_relaxed = IntCase.boolean
int_case SocketOption.router_raw = IntCase.boolean
int_case SocketOption.router_handover = IntCase.boolean
int_case SocketOption.gssapi_plaintext = IntCase.boolean
int_case SocketOption.gssapi_server = IntCase.boolean
int_case SocketOption.invert_matching = IntCase.boolean
int_case SocketOption.stream_notify = IntCase.boolean
int_case SocketOption.xpub_manual = IntCase.boolean
int_case SocketOption.xpub_nodrop = IntCase.boolean
int_case SocketOption.xpub_verboser = IntCase.boolean
int_case SocketOption.tcp_keepalive = IntCase.default_or_boolean
int_case SocketOption.backlog = IntCase.positive
int_case SocketOption.reconnect_interval_max = IntCase.positive
int_case SocketOption.send_buffer_size = IntCase.positive
int_case SocketOption.recovery_interval = IntCase.positive
int_case SocketOption.receive_buffer_size = IntCase.positive
int_case SocketOption.send_high_water_mark = IntCase.positive
int_case SocketOption.receive_high_water_mark = IntCase.positive
int_case SocketOption.multicast_hops = IntCase.positive
int_case SocketOption.rate = IntCase.positive
int_case SocketOption.reconnect_interval = IntCase.integer
int_case SocketOption.linger = IntCase.integer
int_case SocketOption.receive_timeout = IntCase.integer
int_case SocketOption.send_timeout = IntCase.integer
int_case SocketOption.tcp_keepalive_idle = IntCase.integer
int_case SocketOption.tcp_keepalive_count = IntCase.integer
int_case SocketOption.tcp_keepalive_interval = IntCase.integer
int_case SocketOption.connect_timeout = IntCase.integer
int_case SocketOption.heartbeat_interval = IntCase.integer
int_case SocketOption.heartbeat_timeout = IntCase.integer
int_case SocketOption.heartbeat_ttl = IntCase.integer
int_case SocketOption.multicast_max_tpdu = IntCase.integer
int_case SocketOption.tpc_max_retransmit = IntCase.integer
int_case SocketOption.use_fd = IntCase.integer
int_case SocketOption.vmci_connect_timeout = IntCase.integer
int_case _ = IntCase.other

unfoldable pub is_bool_case : SocketOption → Bool
is_bool_case SocketOption.ipv4_only = true
is_bool_case SocketOption.immediate = true
is_bool_case SocketOption.router_mandatory = true
is_bool_case SocketOption.xpub_verbose = true
is_bool_case SocketOption.ipv6 = true
is_bool_case SocketOption.plain_server = true
is_bool_case SocketOption.conflate = true
is_bool_case SocketOption.curve_server = true
is_bool_case SocketOption.probe_router = true
is_bool_case SocketOption.request_correlate = true
is_bool_case SocketOption.request_relaxed = true
is_bool_case SocketOption.router_raw = true
is_bool_case SocketOption.router_handover = true
is_bool_case SocketOption.gssapi_plaintext = true
is_bool_case SocketOption.gssapi_server = true
is_bool_case SocketOption.invert_matching = true
is_bool_case SocketOption.stream_notify = true
is_bool_case SocketOption.xpub_manual = true
is_bool_case SocketOption.xpub_nodrop = true
is_bool_case SocketOption.xpub_verboser = true
is_bool_case _ = false

unfoldable pub is_uint64_case : SocketOption → Bool
is_uint64_case SocketOption.vmci_buffer_size = true
is_uint64_case SocketOption.vmci_buffer_min = true
is_uint64_case SocketOption.vmci_buffer_max = true
is_uint64_case SocketOption.affinity = true
is_uint64_case _ = false

unfoldable pub is_int64_case : SocketOption → Bool
is_int64_case SocketOption.max_messsage_size = true
is_int64_case _ = false

unfoldable pub is_string_case : SocketOption → Bool
is_string_case SocketOption.identity = true
is_string_case SocketOption.subscribe = true
is_string_case SocketOption.unsubscribe = true
is_string_case SocketOption.tcp_accept_filter = true
is_string_case SocketOption.plain_password = true
is_string_case SocketOption.plain_username = true
is_string_case SocketOption.zap_domain = true
is_string_case SocketOption.curve_public_key = true
is_string_case SocketOption.curve_secret_key = true
is_string_case SocketOption.curve_server_key = true
is_string_case SocketOption.gssapi_principal = true
is_string_case SocketOption.gssapi_service_principal = true
is_string_case SocketOption.socks_proxy = true
is_string_case SocketOption.xpub_welcome_message = true
is_string_case _ = false

unfoldable pub set_bool : Net → SocketOption → Bool → Setting
unfolding is_bool_case call
set_bool net o value =
    if is_bool_case o
    then call net o (Payload.int (if value then pos 1 else pos 0))
    else refuse "attempting to set a non boolean option with a boolean value"

unfoldable pub set_uint64 : Net → SocketOption → ℕ → Setting
unfolding is_uint64_case call
set_uint64 net o value =
    if is_uint64_case o
    then call net o (Payload.uint64 value)
    else refuse
        "attempting to set a non unsigned 64 bit integer option with a unsigned 64 bit integer value"

abbrev pub is_negative : ℤ → Bool
is_negative (pos n) = false
is_negative (negsuc n) = true

unfoldable pub set_int64 : Net → SocketOption → ℤ → Setting
unfolding is_int64_case call
set_int64 net o value =
    if is_int64_case o
    then (if is_negative value
        then refuse
            "attempting to set a positive only 64 bit integer option with a negative 64bit integer"
        else call net o (Payload.int64 value))
    else refuse "attempting to set a non 64 bit integer option with a 64 bit integer value"

unfoldable pub set_string : Net → SocketOption → Bytes → Setting
unfolding is_string_case call
set_string net o value =
    if is_string_case o
    then call net o (Payload.bytes value)
    else refuse "attempting to set a non string option with a string value"

-- The branches of the overload for `int`.
unfoldable pub set_unsigned : Net → SocketOption → ℤ → Setting
unfolding set_uint64
set_unsigned net o (pos n) = set_uint64 net o n
set_unsigned net o (negsuc n) =
    refuse "attempting to set an unsigned 64 bit integer option with a negative integer"

unfoldable pub set_boolean : Net → SocketOption → ℤ → Setting
unfolding set_bool
set_boolean net o (negsuc n) = refuse "attempting to set a boolean option with a non 0 or 1 integer"
set_boolean net o (pos n) =
    if n == 0
    then set_bool net o false
    else if n == 1
    then set_bool net o true
    else refuse "attempting to set a boolean option with a non 0 or 1 integer"

-- `value < -1 || value > 1`.
abbrev pub is_tristate : ℤ → Bool
is_tristate (pos n) = ltb n 2
is_tristate (negsuc n) = n == 0

unfoldable pub set_int_case : Net → SocketOption → ℤ → IntCase → Setting
unfolding set_unsigned set_int64 set_boolean call
set_int_case net o value IntCase.unsigned_64 = set_unsigned net o value
set_int_case net o value IntCase.signed_64 = set_int64 net o value
set_int_case net o value IntCase.boolean = set_boolean net o value
set_int_case net o value IntCase.default_or_boolean =
    if is_tristate value
    then call net o (Payload.int value)
    else refuse "attempting to set a default or boolean option with a non -1, 0 or 1 integer"
set_int_case net o value IntCase.positive =
    if is_negative value
    then refuse "attempting to set a positive only integer option with a negative integer"
    else call net o (Payload.int value)
set_int_case net o value IntCase.integer = call net o (Payload.int value)
set_int_case net o value IntCase.other =
    refuse "attempting to set a non signed integer option with a signed integer value"

unfoldable pub set_int : Net → SocketOption → ℤ → Setting
unfolding set_int_case int_case
set_int net o value = set_int_case net o value (int_case o)
