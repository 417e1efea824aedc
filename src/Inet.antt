-- ===== src/Inet.antt =====
-- zmqpp/inet.hpp: integers in host memory and in network order. The host's byte order is an
-- argument; a float is its bit pattern, which `memcpy` moves to an integer and back.
pub mod Memory
pub mod Wire
use zmqpp_pty.Base.{
  ℕ, zero, suc, Bool, true, false, Bytes, [], ◌∷◌, Option, none, some, ◌==◌, if◌then◌else◌, set,
  get_elem?,
}
use Memory.{Order, big_endian, little_endian, store, load, htons, htonl}

-- `std::swap(bytes[i], bytes[j])`.
swap_at : ℕ → ℕ → Bytes → Bytes
swap_at i j bs = elim (get_elem? bs i) [
  | none ↦ bs
  | some x ↦ elim (get_elem? bs j) [ none ↦ bs | some y ↦ set (set bs i y) j x ]
]

-- The order that the test `htonl(42) == 42` detects.
host_order : Order → Order
unfolding htonl
host_order o = if htonl o 42 == 42 then big_endian else little_endian

swap_union : Order → ℕ → ℕ
unfolding swap_at store load
swap_union o n = load o (swap_at 3 4 (swap_at 2 5 (swap_at 1 6 (swap_at 0 7 (store o 8 n)))))

is_big : Order → Bool
is_big big_endian = true
is_big little_endian = false

unfoldable pub swap_if_needed : Order → ℕ → ℕ
unfolding host_order swap_union is_big
swap_if_needed o n = if is_big (host_order o) then n else swap_union o n

unfoldable pub htonll : Order → ℕ → ℕ
unfolding swap_if_needed
htonll o n = swap_if_needed o n

unfoldable pub ntohll : Order → ℕ → ℕ
unfolding swap_if_needed
ntohll o n = swap_if_needed o n

unfoldable pub htonf : Order → ℕ → ℕ
unfolding htonl
htonf o bits = htonl o bits

unfoldable pub ntohf : Order → ℕ → ℕ
unfolding Memory.ntohl
ntohf o bits = Memory.ntohl o bits

unfoldable pub htond : Order → ℕ → ℕ
unfolding htonll
htond o bits = htonll o bits

unfoldable pub ntohd : Order → ℕ → ℕ
unfolding ntohll
ntohd o bits = ntohll o bits
