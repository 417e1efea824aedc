-- ===== src/Socket/Options/Enumeration.antt =====
-- Every option, in the order of the enumeration: a test that holds of the list holds of each
-- option.
use zmqpp_pty.Base.{
  ℕ, zero, suc, Bool, true, List, [], ◌∷◌, some, get_elem?, ◌≡◌, refl, ◌&&◌, arith,
}
use zmqpp_pty.Socket.Options.{SocketOption}

abbrev pub all_options : List SocketOption
all_options =
    SocketOption.affinity ∷ SocketOption.identity ∷ SocketOption.subscribe
    ∷ SocketOption.unsubscribe ∷ SocketOption.rate ∷ SocketOption.send_buffer_size
    ∷ SocketOption.receive_buffer_size ∷ SocketOption.receive_more ∷ SocketOption.file_descriptor
    ∷ SocketOption.events ∷ SocketOption.type ∷ SocketOption.linger ∷ SocketOption.backlog
    ∷ SocketOption.reconnect_interval ∷ SocketOption.reconnect_interval_max
    ∷ SocketOption.receive_timeout ∷ SocketOption.send_timeout ∷ SocketOption.recovery_interval
    ∷ SocketOption.max_messsage_size ∷ SocketOption.send_high_water_mark
    ∷ SocketOption.receive_high_water_mark ∷ SocketOption.multicast_hops ∷ SocketOption.ipv4_only
    ∷ SocketOption.immediate ∷ SocketOption.last_endpoint ∷ SocketOption.router_mandatory
    ∷ SocketOption.xpub_verbose ∷ SocketOption.tcp_keepalive ∷ SocketOption.tcp_keepalive_idle
    ∷ SocketOption.tcp_keepalive_count ∷ SocketOption.tcp_keepalive_interval
    ∷ SocketOption.tcp_accept_filter ∷ SocketOption.ipv6 ∷ SocketOption.mechanism
    ∷ SocketOption.plain_password ∷ SocketOption.plain_server ∷ SocketOption.plain_username
    ∷ SocketOption.zap_domain ∷ SocketOption.conflate ∷ SocketOption.curve_public_key
    ∷ SocketOption.curve_secret_key ∷ SocketOption.curve_server_key ∷ SocketOption.curve_server
    ∷ SocketOption.probe_router ∷ SocketOption.request_correlate ∷ SocketOption.request_relaxed
    ∷ SocketOption.router_raw ∷ SocketOption.handshake_interval ∷ SocketOption.type_of_service
    ∷ SocketOption.connect_rid ∷ SocketOption.ipc_filter_gid ∷ SocketOption.ipc_filter_pid
    ∷ SocketOption.ipc_filter_uid ∷ SocketOption.router_handover ∷ SocketOption.connect_timeout
    ∷ SocketOption.gssapi_plaintext ∷ SocketOption.gssapi_principal ∷ SocketOption.gssapi_server
    ∷ SocketOption.gssapi_service_principal ∷ SocketOption.heartbeat_interval
    ∷ SocketOption.heartbeat_timeout ∷ SocketOption.heartbeat_ttl ∷ SocketOption.invert_matching
    ∷ SocketOption.multicast_max_tpdu ∷ SocketOption.socks_proxy ∷ SocketOption.stream_notify
    ∷ SocketOption.tpc_max_retransmit ∷ SocketOption.use_fd ∷ SocketOption.vmci_buffer_size
    ∷ SocketOption.vmci_buffer_min ∷ SocketOption.vmci_buffer_max
    ∷ SocketOption.vmci_connect_timeout ∷ SocketOption.xpub_manual ∷ SocketOption.xpub_nodrop
    ∷ SocketOption.xpub_verboser ∷ SocketOption.xpub_welcome_message ∷ []

-- The place of an option in the enumeration.
abbrev pub position : SocketOption → ℕ
position SocketOption.affinity = 0
position SocketOption.identity = 1
position SocketOption.subscribe = 2
position SocketOption.unsubscribe = 3
position SocketOption.rate = 4
position SocketOption.send_buffer_size = 5
position SocketOption.receive_buffer_size = 6
position SocketOption.receive_more = 7
position SocketOption.file_descriptor = 8
position SocketOption.events = 9
position SocketOption.type = 10
position SocketOption.linger = 11
position SocketOption.backlog = 12
position SocketOption.reconnect_interval = 13
position SocketOption.reconnect_interval_max = 14
position SocketOption.receive_timeout = 15
position SocketOption.send_timeout = 16
position SocketOption.recovery_interval = 17
position SocketOption.max_messsage_size = 18
position SocketOption.send_high_water_mark = 19
position SocketOption.receive_high_water_mark = 20
position SocketOption.multicast_hops = 21
position SocketOption.ipv4_only = 22
position SocketOption.immediate = 23
position SocketOption.last_endpoint = 24
position SocketOption.router_mandatory = 25
position SocketOption.xpub_verbose = 26
position SocketOption.tcp_keepalive = 27
position SocketOption.tcp_keepalive_idle = 28
position SocketOption.tcp_keepalive_count = 29
position SocketOption.tcp_keepalive_interval = 30
position SocketOption.tcp_accept_filter = 31
position SocketOption.ipv6 = 32
position SocketOption.mechanism = 33
position SocketOption.plain_password = 34
position SocketOption.plain_server = 35
position SocketOption.plain_username = 36
position SocketOption.zap_domain = 37
position SocketOption.conflate = 38
position SocketOption.curve_public_key = 39
position SocketOption.curve_secret_key = 40
position SocketOption.curve_server_key = 41
position SocketOption.curve_server = 42
position SocketOption.probe_router = 43
position SocketOption.request_correlate = 44
position SocketOption.request_relaxed = 45
position SocketOption.router_raw = 46
position SocketOption.handshake_interval = 47
position SocketOption.type_of_service = 48
position SocketOption.connect_rid = 49
position SocketOption.ipc_filter_gid = 50
position SocketOption.ipc_filter_pid = 51
position SocketOption.ipc_filter_uid = 52
position SocketOption.router_handover = 53
position SocketOption.connect_timeout = 54
position SocketOption.gssapi_plaintext = 55
position SocketOption.gssapi_principal = 56
position SocketOption.gssapi_server = 57
position SocketOption.gssapi_service_principal = 58
position SocketOption.heartbeat_interval = 59
position SocketOption.heartbeat_timeout = 60
position SocketOption.heartbeat_ttl = 61
position SocketOption.invert_matching = 62
position SocketOption.multicast_max_tpdu = 63
position SocketOption.socks_proxy = 64
position SocketOption.stream_notify = 65
position SocketOption.tpc_max_retransmit = 66
position SocketOption.use_fd = 67
position SocketOption.vmci_buffer_size = 68
position SocketOption.vmci_buffer_min = 69
position SocketOption.vmci_buffer_max = 70
position SocketOption.vmci_connect_timeout = 71
position SocketOption.xpub_manual = 72
position SocketOption.xpub_nodrop = 73
position SocketOption.xpub_verboser = 74
position SocketOption.xpub_welcome_message = 75

option_at : (o : SocketOption) → get_elem? all_options (position o) ≡ some o
option_at SocketOption.affinity = refl
option_at SocketOption.identity = refl
option_at SocketOption.subscribe = refl
option_at SocketOption.unsubscribe = refl
option_at SocketOption.rate = refl
option_at SocketOption.send_buffer_size = refl
option_at SocketOption.receive_buffer_size = refl
option_at SocketOption.receive_more = refl
option_at SocketOption.file_descriptor = refl
option_at SocketOption.events = refl
option_at SocketOption.type = refl
option_at SocketOption.linger = refl
option_at SocketOption.backlog = refl
option_at SocketOption.reconnect_interval = refl
option_at SocketOption.reconnect_interval_max = refl
option_at SocketOption.receive_timeout = refl
option_at SocketOption.send_timeout = refl
option_at SocketOption.recovery_interval = refl
option_at SocketOption.max_messsage_size = refl
option_at SocketOption.send_high_water_mark = refl
option_at SocketOption.receive_high_water_mark = refl
option_at SocketOption.multicast_hops = refl
option_at SocketOption.ipv4_only = refl
option_at SocketOption.immediate = refl
option_at SocketOption.last_endpoint = refl
option_at SocketOption.router_mandatory = refl
option_at SocketOption.xpub_verbose = refl
option_at SocketOption.tcp_keepalive = refl
option_at SocketOption.tcp_keepalive_idle = refl
option_at SocketOption.tcp_keepalive_count = refl
option_at SocketOption.tcp_keepalive_interval = refl
option_at SocketOption.tcp_accept_filter = refl
option_at SocketOption.ipv6 = refl
option_at SocketOption.mechanism = refl
option_at SocketOption.plain_password = refl
option_at SocketOption.plain_server = refl
option_at SocketOption.plain_username = refl
option_at SocketOption.zap_domain = refl
option_at SocketOption.conflate = refl
option_at SocketOption.curve_public_key = refl
option_at SocketOption.curve_secret_key = refl
option_at SocketOption.curve_server_key = refl
option_at SocketOption.curve_server = refl
option_at SocketOption.probe_router = refl
option_at SocketOption.request_correlate = refl
option_at SocketOption.request_relaxed = refl
option_at SocketOption.router_raw = refl
option_at SocketOption.handshake_interval = refl
option_at SocketOption.type_of_service = refl
option_at SocketOption.connect_rid = refl
option_at SocketOption.ipc_filter_gid = refl
option_at SocketOption.ipc_filter_pid = refl
option_at SocketOption.ipc_filter_uid = refl
option_at SocketOption.router_handover = refl
option_at SocketOption.connect_timeout = refl
option_at SocketOption.gssapi_plaintext = refl
option_at SocketOption.gssapi_principal = refl
option_at SocketOption.gssapi_server = refl
option_at SocketOption.gssapi_service_principal = refl
option_at SocketOption.heartbeat_interval = refl
option_at SocketOption.heartbeat_timeout = refl
option_at SocketOption.heartbeat_ttl = refl
option_at SocketOption.invert_matching = refl
option_at SocketOption.multicast_max_tpdu = refl
option_at SocketOption.socks_proxy = refl
option_at SocketOption.stream_notify = refl
option_at SocketOption.tpc_max_retransmit = refl
option_at SocketOption.use_fd = refl
option_at SocketOption.vmci_buffer_size = refl
option_at SocketOption.vmci_buffer_min = refl
option_at SocketOption.vmci_buffer_max = refl
option_at SocketOption.vmci_connect_timeout = refl
option_at SocketOption.xpub_manual = refl
option_at SocketOption.xpub_nodrop = refl
option_at SocketOption.xpub_verboser = refl
option_at SocketOption.xpub_welcome_message = refl

abbrev pub all : (SocketOption → Bool) → List SocketOption → Bool
all t [] = true
all t (o ∷ os) = t o && all t os

all-at :
    (t : SocketOption → Bool) (os : List SocketOption) (i : ℕ) (o : SocketOption)
    → all t os ≡ true
    → get_elem? os i ≡ some o
    → t o ≡ true
all-at t [] i o h e = ground arith
all-at t (x ∷ xs) zero o h e = ground arith
all-at t (x ∷ xs) (suc i) o h e = all-at t xs i o (ground arith) e

pub every : (t : SocketOption → Bool) → all t all_options ≡ true → (o : SocketOption) → t o ≡ true
every t h o = all-at t all_options (position o) o h (option_at o)
