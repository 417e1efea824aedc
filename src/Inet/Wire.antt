-- ===== src/Inet/Wire.antt =====
-- What goes on the wire is big-endian whatever the host.
use zmqpp_pty.Base.{ℕ, ◌^◌, ◌<◌, ◌≡◌, refl, ap, ◌∙◌, sym}
use zmqpp_pty.Inet.Memory.{
  Order, big_endian, little_endian, le_bytes, be_bytes, be_value, store, load, htons, htonl, ntohs,
  ntohl, be_value-be_bytes, be_bytes-AreBytes, length-be_bytes, store-load, AreBytes, load-lt,
}
use zmqpp_pty.Inet.{swap_if_needed, htonll, ntohll}

swap_if_needed-load : (o : Order) (n : ℕ) → n < 2 ^ 64 → swap_if_needed o n ≡ load o (be_bytes 8 n)
unfolding swap_if_needed be_bytes load store le_bytes
swap_if_needed-load big_endian n h = sym (be_value-be_bytes 8 n h)
swap_if_needed-load little_endian n h = refl

module _ (o : Order) (n : ℕ) where
  pub store-htons : store o 2 (htons o n) ≡ be_bytes 2 n
  unfolding htons
  store-htons = store-load o 2 _ (length-be_bytes 2 n) (be_bytes-AreBytes 2 n)

  pub store-htonl : store o 4 (htonl o n) ≡ be_bytes 4 n
  unfolding htonl
  store-htonl = store-load o 4 _ (length-be_bytes 4 n) (be_bytes-AreBytes 4 n)

-- In the memory of either host, the word that `htonll` returns holds the bytes of its argument
-- with the most significant one first.
pub store-htonll : (o : Order) (n : ℕ) → n < 2 ^ 64 → store o 8 (htonll o n) ≡ be_bytes 8 n
unfolding htonll
store-htonll o n h =
    rw (swap_if_needed-load o n h) (store-load o 8 _ (length-be_bytes 8 n) (be_bytes-AreBytes 8 n))

htonl-ntohl : (o : Order) (n : ℕ) → htonl o n ≡ ntohl o n
unfolding htonl ntohl load store be_value be_bytes
htonl-ntohl big_endian n = refl
htonl-ntohl little_endian n = refl

turn : (o : Order) (n : ℕ) → load o (be_bytes 8 n) ≡ be_value (store o 8 n)
unfolding load store be_bytes be_value
turn big_endian n = refl
turn little_endian n = refl

ntohll-store : (o : Order) (n : ℕ) → n < 2 ^ 64 → ntohll o n ≡ be_value (store o 8 n)
unfolding ntohll
ntohll-store o n h = swap_if_needed-load o n h ∙ turn o n

module _ (o : Order) (n : ℕ) where
  wire_AreBytes : (w : ℕ) → AreBytes (be_bytes w n)
  wire_AreBytes w = be_bytes-AreBytes w n

  pub ntohs-load : n < 2 ^ 16 → ntohs o (load o (be_bytes 2 n)) ≡ n
  unfolding ntohs
  ntohs-load h =
      ap be_value (store-load o 2 _ (length-be_bytes 2 n) (wire_AreBytes 2))
      ∙ be_value-be_bytes 2 n h

  pub ntohl-load : n < 2 ^ 32 → ntohl o (load o (be_bytes 4 n)) ≡ n
  unfolding ntohl
  ntohl-load h =
      ap be_value (store-load o 4 _ (length-be_bytes 4 n) (wire_AreBytes 4))
      ∙ be_value-be_bytes 4 n h

  pub htonl-load : n < 2 ^ 32 → htonl o (load o (be_bytes 4 n)) ≡ n
  htonl-load h = htonl-ntohl o _ ∙ ntohl-load h

  pub ntohll-load : n < 2 ^ 64 → ntohll o (load o (be_bytes 8 n)) ≡ n
  ntohll-load h =
      ntohll-store o _ (load-lt o 8 _ (length-be_bytes 8 n) (wire_AreBytes 8))
      ∙ ap be_value (store-load o 8 _ (length-be_bytes 8 n) (wire_AreBytes 8))
      ∙ be_value-be_bytes 8 n h

-- Converting to network order and back gives the value again, on either host.
pub ntohll-htonll : (o : Order) (n : ℕ) → n < 2 ^ 64 → ntohll o (htonll o n) ≡ n
unfolding htonll
ntohll-htonll o n h = ap (ntohll o) (swap_if_needed-load o n h) ∙ ntohll-load o n h
