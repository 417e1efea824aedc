-- ===== src/Inet/Memory.antt =====
-- Host memory, and the C library's `htons`, `htonl`, `ntohs` and `ntohl`: POSIX says that they
-- convert between host and network (big-endian) byte order.
use mathlib.Core.List.{reverse, reverse-cons, reverse-reverse}
use native.Mathlib.Nat.{pow-suc}
use zmqpp_pty.Base.{
  ℕ, zero, suc, ◌+◌, ◌*◌, ◌/◌, ◌%◌, ◌^◌, ◌<◌, ◌≡◌, refl, ap, Bytes, [], ◌∷◌, ◌++◌, ◌∙◌, arith,
  length, length-append,
}

-- `ZMQPP_COMPARABLE_ENUM order`.
pub data Order : Type 0 where
  big_endian little_endian : Order

unfoldable pub le_bytes : ℕ → ℕ → Bytes
le_bytes zero n = []
le_bytes (suc w) n = (n % 256) ∷ le_bytes w (n / 256)

unfoldable pub le_value : Bytes → ℕ
le_value [] = 0
le_value (b ∷ bs) = b + 256 * le_value bs

-- Most significant byte first.
unfoldable pub be_bytes : ℕ → ℕ → Bytes
unfolding le_bytes
be_bytes w n = reverse (le_bytes w n)

unfoldable pub be_value : Bytes → ℕ
unfolding le_value
be_value bs = le_value (reverse bs)

-- The `w` bytes of a word in the host's memory, and the word that bytes in memory hold.
unfoldable pub store : Order → ℕ → ℕ → Bytes
unfolding be_bytes le_bytes
store big_endian w n = be_bytes w n
store little_endian w n = le_bytes w n

unfoldable pub load : Order → Bytes → ℕ
unfolding be_value le_value
load big_endian bs = be_value bs
load little_endian bs = le_value bs

unfoldable pub htons : Order → ℕ → ℕ
unfolding load be_bytes
htons o n = load o (be_bytes 2 n)

unfoldable pub htonl : Order → ℕ → ℕ
unfolding load be_bytes
htonl o n = load o (be_bytes 4 n)

unfoldable pub ntohs : Order → ℕ → ℕ
unfolding store be_value
ntohs o n = be_value (store o 2 n)

unfoldable pub ntohl : Order → ℕ → ℕ
unfolding store be_value
ntohl o n = be_value (store o 4 n)

-- Every byte is below 256.
abbrev pub AreBytes : Bytes → Type 0
AreBytes [] = Unit {0}
AreBytes (b ∷ bs) = (b < 256) × AreBytes bs

pub le_bytes-AreBytes : (w n : ℕ) → AreBytes (le_bytes w n)
unfolding le_bytes
le_bytes-AreBytes zero n = tt
le_bytes-AreBytes (suc w) n = (omega arith, le_bytes-AreBytes w (n / 256))

pub length-le_bytes : (w n : ℕ) → length (le_bytes w n) ≡ w
unfolding le_bytes
length-le_bytes zero n = refl
length-le_bytes (suc w) n = ap suc (length-le_bytes w (n / 256))

pub le_value-le_bytes : (w n : ℕ) → n < 256 ^ w → le_value (le_bytes w n) ≡ n
unfolding le_value le_bytes
le_value-le_bytes zero n h = omega arith
le_value-le_bytes (suc w) n h =
    omega (arith, le_value-le_bytes w (n / 256) (omega (arith, pow-suc 256 w)))

pub le_bytes-le_value : (bs : Bytes) → AreBytes bs → le_bytes (length bs) (le_value bs) ≡ bs
unfolding le_value le_bytes
le_bytes-le_value [] h = refl
le_bytes-le_value (b ∷ bs) h = ground (arith, le_bytes-le_value bs h.1)

AreBytes-append : (xs ys : Bytes) → AreBytes xs → AreBytes ys → AreBytes (xs ++ ys)
AreBytes-append [] ys h k = k
AreBytes-append (x ∷ xs) ys h k = (h.0, AreBytes-append xs ys h.1 k)

pub be_value-be_bytes : (w n : ℕ) → n < 256 ^ w → be_value (be_bytes w n) ≡ n
unfolding be_value be_bytes
be_value-be_bytes w n h = rw reverse-reverse (le_value-le_bytes w n h)

AreBytes-reverse : (bs : Bytes) → AreBytes bs → AreBytes (reverse bs)
AreBytes-reverse [] h = tt
AreBytes-reverse (b ∷ bs) h =
    rw (reverse-cons b bs)
      (AreBytes-append (reverse bs) (b ∷ []) (AreBytes-reverse bs h.1) (h.0, tt))

pub length-reverse : (bs : Bytes) → length (reverse bs) ≡ length bs
length-reverse [] = refl
length-reverse (b ∷ bs) =
    omega
      (arith, ap length (reverse-cons b bs), length-append (reverse bs) (b ∷ []), length-reverse bs)

pub be_bytes-AreBytes : (w n : ℕ) → AreBytes (be_bytes w n)
unfolding be_bytes
be_bytes-AreBytes w n = AreBytes-reverse _ (le_bytes-AreBytes w n)

pub length-be_bytes : (w n : ℕ) → length (be_bytes w n) ≡ w
unfolding be_bytes
length-be_bytes w n = length-reverse (le_bytes w n) ∙ length-le_bytes w n

pub be_bytes-be_value : (bs : Bytes) → AreBytes bs → be_bytes (length bs) (be_value bs) ≡ bs
unfolding be_bytes be_value
be_bytes-be_value bs h =
    rw (← length-reverse bs, le_bytes-le_value (reverse bs) (AreBytes-reverse bs h))
      (reverse-reverse bs)

-- A word and the bytes that hold it are the same thing, on either host.
pub store-load :
    (o : Order) (w : ℕ) (bs : Bytes) → length bs ≡ w → AreBytes bs → store o w (load o bs) ≡ bs
unfolding store load
store-load big_endian w bs e h = rw (← e) (be_bytes-be_value bs h)
store-load little_endian w bs e h = rw (← e) (le_bytes-le_value bs h)

pub load-store : (o : Order) (w n : ℕ) → n < 256 ^ w → load o (store o w n) ≡ n
unfolding store load
load-store big_endian w n h = be_value-be_bytes w n h
load-store little_endian w n h = le_value-le_bytes w n h

le_value-lt : (bs : Bytes) → AreBytes bs → le_value bs < 256 ^ length bs
unfolding le_value
le_value-lt [] h = omega arith
le_value-lt (b ∷ bs) h = omega (arith, le_value-lt bs h.1, h.0, pow-suc 256 (length bs))

pub load-lt : (o : Order) (w : ℕ) (bs : Bytes) → length bs ≡ w → AreBytes bs → load o bs < 256 ^ w
unfolding load be_value
load-lt big_endian w bs e h =
    rw (← e, ← length-reverse bs) (le_value-lt (reverse bs) (AreBytes-reverse bs h))
load-lt little_endian w bs e h = rw (← e) (le_value-lt bs h)

pub be_value-lt : (bs : Bytes) → AreBytes bs → be_value bs < 256 ^ length bs
unfolding be_value
be_value-lt bs h = rw (← length-reverse bs) (le_value-lt (reverse bs) (AreBytes-reverse bs h))
