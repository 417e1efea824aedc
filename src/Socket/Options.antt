-- ===== src/Socket/Options.antt =====
-- zmqpp/socket_options.hpp: `enum class socket_option`, and what its options carry to and from
-- libzmq. The model is of the build against libzmq 4.2 or later, without experimental labels; the
-- number of an option in zmq.h is not part of it.
pub mod Setters
pub mod Getters
pub mod Enumeration
pub mod Sorts
pub mod Calls
pub mod RoundTrip
pub mod Unreachable
use zmqpp_pty.Base.{ℕ, ℤ, Bytes, List, Result}

pub data SocketOption : Type 0 where
  affinity identity subscribe unsubscribe rate send_buffer_size receive_buffer_size receive_more
        file_descriptor events type linger backlog reconnect_interval reconnect_interval_max
        receive_timeout send_timeout recovery_interval max_messsage_size send_high_water_mark
        receive_high_water_mark multicast_hops ipv4_only immediate last_endpoint router_mandatory
        xpub_verbose tcp_keepalive tcp_keepalive_idle tcp_keepalive_count tcp_keepalive_interval
        tcp_accept_filter ipv6 mechanism plain_password plain_server plain_username zap_domain
        conflate curve_public_key curve_secret_key curve_server_key curve_server probe_router
        request_correlate request_relaxed router_raw handshake_interval type_of_service connect_rid
        ipc_filter_gid ipc_filter_pid ipc_filter_uid router_handover connect_timeout
        gssapi_plaintext gssapi_principal gssapi_server gssapi_service_principal heartbeat_interval
        heartbeat_timeout heartbeat_ttl invert_matching multicast_max_tpdu socks_proxy stream_notify
        tpc_max_retransmit use_fd vmci_buffer_size vmci_buffer_min vmci_buffer_max
        vmci_connect_timeout xpub_manual xpub_nodrop xpub_verboser xpub_welcome_message :
      SocketOption

-- The argument of `zmq_setsockopt`, and what `zmq_getsockopt` fills in: the C type and the value.
pub data Payload : Type 0 where
  int : ℤ → Payload
  uint64 : ℕ → Payload
  int64 : ℤ → Payload
  bytes : Bytes → Payload

pub data Sort : Type 0 where
  int uint64 int64 bytes : Sort

abbrev pub sort_of : Payload → Sort
sort_of (Payload.int z) = Sort.int
sort_of (Payload.uint64 n) = Sort.uint64
sort_of (Payload.int64 z) = Sort.int64
sort_of (Payload.bytes bs) = Sort.bytes

-- What a setter does: the calls of `zmq_setsockopt`, and how it ends.
pub record Setting : Type 0 where
  pub calls : List (SocketOption × Payload)
  pub result : Result (Unit {0})
