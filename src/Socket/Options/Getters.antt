-- ===== src/Socket/Options/Getters.antt =====
-- zmqpp/socket.cpp: the overloads of `socket::get` for options. What `zmq_getsockopt` answers is
-- an argument: an error number, or the value it fills in, of the C type that was asked for. A
-- string is at most the 256 bytes of the buffer, followed by a NUL within it.
use zmqpp_pty.Base.{
  ℕ, Bool, true, false, ℤ, pos, Bytes, ◌==◌, if◌then◌else◌, Result, ok, err, exception,
  zmq_internal, undefined,
}
use zmqpp_pty.Message.Values.{until_nul}
use zmqpp_pty.Socket.Options.{SocketOption, Payload, Sort}

pub data Filled : Type 0 where
  failed : ℕ → Filled
  filled : Payload → Filled

-- `zmq_getsockopt` for an option, asked with the C type of the buffer.
abbrev pub Source : Type 0
Source = SocketOption → Sort → Filled

unfoldable pub is_int_get : SocketOption → Bool
is_int_get SocketOption.type = true
is_int_get SocketOption.linger = true
is_int_get SocketOption.backlog = true
is_int_get SocketOption.reconnect_interval = true
is_int_get SocketOption.reconnect_interval_max = true
is_int_get SocketOption.receive_timeout = true
is_int_get SocketOption.send_timeout = true
is_int_get SocketOption.file_descriptor = true
is_int_get SocketOption.events = true
is_int_get SocketOption.receive_more = true
is_int_get SocketOption.send_buffer_size = true
is_int_get SocketOption.receive_buffer_size = true
is_int_get SocketOption.rate = true
is_int_get SocketOption.recovery_interval = true
is_int_get SocketOption.send_high_water_mark = true
is_int_get SocketOption.receive_high_water_mark = true
is_int_get SocketOption.multicast_hops = true
is_int_get SocketOption.ipv4_only = true
is_int_get SocketOption.immediate = true
is_int_get SocketOption.tcp_keepalive = true
is_int_get SocketOption.tcp_keepalive_idle = true
is_int_get SocketOption.tcp_keepalive_count = true
is_int_get SocketOption.tcp_keepalive_interval = true
is_int_get SocketOption.ipv6 = true
is_int_get SocketOption.plain_server = true
is_int_get SocketOption.mechanism = true
is_int_get SocketOption.connect_timeout = true
is_int_get SocketOption.gssapi_plaintext = true
is_int_get SocketOption.gssapi_server = true
is_int_get SocketOption.invert_matching = true
is_int_get SocketOption.multicast_max_tpdu = true
is_int_get SocketOption.stream_notify = true
is_int_get SocketOption.tpc_max_retransmit = true
is_int_get SocketOption.use_fd = true
is_int_get SocketOption.vmci_connect_timeout = true
is_int_get SocketOption.xpub_manual = true
is_int_get SocketOption.xpub_nodrop = true
is_int_get _ = false

unfoldable pub is_bool_get : SocketOption → Bool
is_bool_get SocketOption.receive_more = true
is_bool_get SocketOption.ipv4_only = true
is_bool_get SocketOption.immediate = true
is_bool_get SocketOption.ipv6 = true
is_bool_get SocketOption.plain_server = true
is_bool_get SocketOption.gssapi_plaintext = true
is_bool_get SocketOption.gssapi_server = true
is_bool_get SocketOption.invert_matching = true
is_bool_get SocketOption.stream_notify = true
is_bool_get SocketOption.xpub_manual = true
is_bool_get SocketOption.xpub_nodrop = true
is_bool_get SocketOption.xpub_verboser = true
is_bool_get _ = false

unfoldable pub is_uint64_get : SocketOption → Bool
is_uint64_get SocketOption.vmci_buffer_size = true
is_uint64_get SocketOption.vmci_buffer_min = true
is_uint64_get SocketOption.vmci_buffer_max = true
is_uint64_get SocketOption.affinity = true
is_uint64_get _ = false

unfoldable pub is_int64_get : SocketOption → Bool
is_int64_get SocketOption.max_messsage_size = true
is_int64_get _ = false

unfoldable pub is_string_get : SocketOption → Bool
is_string_get SocketOption.last_endpoint = true
is_string_get SocketOption.plain_password = true
is_string_get SocketOption.plain_username = true
is_string_get SocketOption.zap_domain = true
is_string_get SocketOption.curve_public_key = true
is_string_get SocketOption.curve_secret_key = true
is_string_get SocketOption.curve_server_key = true
is_string_get SocketOption.gssapi_principal = true
is_string_get SocketOption.gssapi_service_principal = true
is_string_get SocketOption.socks_proxy = true
is_string_get _ = false

unfoldable pub int_of : Filled → Result ℤ
int_of (failed e) = err (zmq_internal e)
int_of (filled (Payload.int z)) = ok z
int_of _ = err undefined

unfoldable pub get_int : Source → SocketOption → Result ℤ
unfolding is_int_get int_of
get_int net o =
    if is_int_get o
    then int_of (net o Sort.int)
    else err (exception "attempting to get a non integer option with an integer value")

-- `int_value == 1`.
unfoldable pub bool_of : Filled → Result Bool
bool_of (failed e) = err (zmq_internal e)
bool_of (filled (Payload.int (pos n))) = ok (n == 1)
bool_of (filled (Payload.int _)) = ok false
bool_of _ = err undefined

unfoldable pub get_bool : Source → SocketOption → Result Bool
unfolding is_bool_get bool_of
get_bool net o =
    if is_bool_get o
    then bool_of (net o Sort.int)
    else err (exception "attempting to get a non boolean option with a boolean value")

unfoldable pub uint64_of : Filled → Result ℕ
uint64_of (failed e) = err (zmq_internal e)
uint64_of (filled (Payload.uint64 n)) = ok n
uint64_of _ = err undefined

unfoldable pub get_uint64 : Source → SocketOption → Result ℕ
unfolding is_uint64_get uint64_of
get_uint64 net o =
    if is_uint64_get o
    then uint64_of (net o Sort.uint64)
    else err (
        exception
          "attempting to get a non unsigned 64 bit integer option with an unsigned 64 bit integer value")

unfoldable pub int64_of : Filled → Result ℤ
int64_of (failed e) = err (zmq_internal e)
int64_of (filled (Payload.int64 z)) = ok z
int64_of _ = err undefined

unfoldable pub get_int64 : Source → SocketOption → Result ℤ
unfolding is_int64_get int64_of
get_int64 net o =
    if is_int64_get o
    then int64_of (net o Sort.int64)
    else err
        (exception "attempting to get a non 64 bit integer option with an 64 bit integer value")

-- `value.assign(buffer, size)` and `value = buffer.data()`, which stops at the first NUL.
unfoldable pub bytes_of : Filled → Result Bytes
bytes_of (failed e) = err (zmq_internal e)
bytes_of (filled (Payload.bytes bs)) = ok bs
bytes_of _ = err undefined

unfoldable pub c_string_of : Filled → Result Bytes
unfolding until_nul
c_string_of (failed e) = err (zmq_internal e)
c_string_of (filled (Payload.bytes bs)) = ok (until_nul bs)
c_string_of _ = err undefined

unfoldable pub get_c_string : Source → SocketOption → Result Bytes
unfolding is_string_get c_string_of
get_c_string net o =
    if is_string_get o
    then c_string_of (net o Sort.bytes)
    else err (exception "attempting to get a non string option with a string value")

unfoldable pub get_string : Source → SocketOption → Result Bytes
unfolding bytes_of get_c_string
get_string net SocketOption.identity = bytes_of (net SocketOption.identity Sort.bytes)
get_string net o = get_c_string net o
