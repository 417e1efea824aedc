-- ===== src/Socket/Options/Unreachable.antt =====
-- The options that no overload of `set` or `get` takes.
use zmqpp_pty.Base.{
  ℕ, Bool, true, false, not, ◌||◌, ℤ, [], Bytes, ◌≡◌, refl, pos, length, ◌==◌, Result, err,
  exception, arith, if◌then◌else◌,
}
use zmqpp_pty.Socket.Options.{SocketOption, Setting, Sort, Payload}
use zmqpp_pty.Socket.Options.Enumeration.{every}
use zmqpp_pty.Socket.Options.Getters.{
  Source, filled, is_int_get, is_bool_get, is_uint64_get, is_int64_get, is_string_get, get_int,
  get_bool, get_uint64, get_int64, get_string, get_c_string,
}
use zmqpp_pty.Socket.Options.Setters.{
  Net, int_case, is_bool_case, is_uint64_case, is_int64_case, is_string_case, set_int, set_bool,
  set_uint64, set_int64, set_string, set_int_case,
}

-- The options of libzmq 4.1 that are in the enumeration and in no `switch`.
unfoldable pub is_unreachable : SocketOption → Bool
is_unreachable SocketOption.handshake_interval = true
is_unreachable SocketOption.type_of_service = true
is_unreachable SocketOption.connect_rid = true
is_unreachable SocketOption.ipc_filter_gid = true
is_unreachable SocketOption.ipc_filter_pid = true
is_unreachable SocketOption.ipc_filter_uid = true
is_unreachable _ = false

abbrev is_exception {ℓ} : {A : Type ℓ} → Result A → Bool
is_exception (err (exception why)) = true
is_exception _ = false

abbrev IsRefusal : Setting → Type 0
IsRefusal s = (s.calls ≡ []) × (is_exception s.result ≡ true)

-- No overload takes the option: each throws before it calls libzmq.
abbrev pub IsRefused : Net → Source → SocketOption → ℤ → Bool → ℕ → Bytes → Type 0
IsRefused net src o z b n bs =
    IsRefusal (set_int net o z)
    × IsRefusal (set_bool net o b)
    × IsRefusal (set_uint64 net o n)
    × IsRefusal (set_int64 net o z)
    × IsRefusal (set_string net o bs)
    × (is_exception (get_int src o) ≡ true)
    × (is_exception (get_bool src o) ≡ true)
    × (is_exception (get_uint64 src o) ≡ true)
    × (is_exception (get_int64 src o) ≡ true)
    × (is_exception (get_string src o) ≡ true)

-- The handshake interval, the type of service, the connect routing id and the three IPC filters can
-- neither be set nor read: every overload throws before it calls libzmq, whatever the value.
pub unreachable-IsRefused :
    (net : Net) (src : Source) (o : SocketOption) (z : ℤ) (b : Bool) (n : ℕ) (bs : Bytes)
    → is_unreachable o ≡ true
    → IsRefused net src o z b n bs
unfolding is_unreachable set_int set_int_case int_case set_bool is_bool_case set_uint64
    is_uint64_case set_int64 is_int64_case set_string is_string_case get_int is_int_get get_bool
    is_bool_get get_uint64 is_uint64_get get_int64 is_int64_get get_string get_c_string
    is_string_get
unreachable-IsRefused net src SocketOption.handshake_interval z b n bs h = (
  (refl, refl),
  (refl, refl),
  (refl, refl),
  (refl, refl),
  (refl, refl),
  refl,
  refl,
  refl,
  refl,
  refl,
)
unreachable-IsRefused net src SocketOption.type_of_service z b n bs h = (
  (refl, refl),
  (refl, refl),
  (refl, refl),
  (refl, refl),
  (refl, refl),
  refl,
  refl,
  refl,
  refl,
  refl,
)
unreachable-IsRefused net src SocketOption.connect_rid z b n bs h = (
  (refl, refl),
  (refl, refl),
  (refl, refl),
  (refl, refl),
  (refl, refl),
  refl,
  refl,
  refl,
  refl,
  refl,
)
unreachable-IsRefused net src SocketOption.ipc_filter_gid z b n bs h = (
  (refl, refl),
  (refl, refl),
  (refl, refl),
  (refl, refl),
  (refl, refl),
  refl,
  refl,
  refl,
  refl,
  refl,
)
unreachable-IsRefused net src SocketOption.ipc_filter_pid z b n bs h = (
  (refl, refl),
  (refl, refl),
  (refl, refl),
  (refl, refl),
  (refl, refl),
  refl,
  refl,
  refl,
  refl,
  refl,
)
unreachable-IsRefused net src SocketOption.ipc_filter_uid z b n bs h = (
  (refl, refl),
  (refl, refl),
  (refl, refl),
  (refl, refl),
  (refl, refl),
  refl,
  refl,
  refl,
  refl,
  refl,
)
unreachable-IsRefused net src _ z b n bs h = absurd (ground arith)

has_call : Setting → Bool
has_call s = not (length s.calls == 0)

-- A libzmq that takes every option, and answers each with zero or the empty string.
abbrev any_net : Net
any_net o p = 0

abbrev any_source : Source
any_source o Sort.int = filled (Payload.int (pos 0))
any_source o Sort.uint64 = filled (Payload.uint64 0)
any_source o Sort.int64 = filled (Payload.int64 (pos 0))
any_source o Sort.bytes = filled (Payload.bytes [])

-- Some overload takes the option, with the value 0 or the empty string, and calls that libzmq.
unfoldable pub is_taken : SocketOption → Bool
unfolding has_call set_int set_string get_int get_string
is_taken o =
    has_call (set_int any_net o (pos 0))
    || has_call (set_string any_net o [])
    || not (is_exception (get_int any_source o))
    || not (is_exception (get_string any_source o))

same_bool : Bool → Bool → Bool
same_bool a b = if a then b else not b

taken_test : SocketOption → Bool
unfolding is_taken is_unreachable same_bool
taken_test o = same_bool (is_taken o) (not (is_unreachable o))

-- The options that no overload takes, with the value 0 or the empty string and a libzmq that
-- accepts everything, are exactly those six.
pub is_taken-is_unreachable : (o : SocketOption) → is_taken o ≡ not (is_unreachable o)
unfolding taken_test same_bool
is_taken-is_unreachable o = let t : taken_test o ≡ true = every taken_test refl o in ground arith
