-- ===== src/Common.antt =====
-- common.c: the conversions between bytes and text. A byte and a char are a number below 256, a
-- buffer is the list of the bytes that are allocated for it, and an access outside of it is
-- undefined behaviour. A buffer has fewer than 2^31 bytes, so that the conversions of sizes to `int`
-- keep them.
pub mod Buffers
pub mod Compare
pub mod Nibbles
pub mod Printing
pub mod Parsing
pub mod Overrun
pub mod Joining
pub mod Jobs
pub mod Logging
use zmqpp_pty.Base.{
  ℕ, zero, suc, ◌+◌, ◌-◌, ◌*◌, ◌/◌, ◌%◌, Bool, true, false, List, [], ◌∷◌, ◌++◌, Option, none, some,
  ltb, ◌==◌, if◌then◌else◌, get_elem?, set, length, ℤ, pos, negsuc, Result, ok, err, undefined,
  ◌>>=◌,
}

abbrev pub read_at : List ℕ → ℕ → Result ℕ
read_at buffer i = elim (get_elem? buffer i) [ none ↦ err undefined | some b ↦ ok b ]

abbrev pub write_at : List ℕ → ℕ → ℕ → Result (List ℕ)
write_at buffer i b = if ltb i (length buffer) then ok (set buffer i b) else err undefined

-- The loop `out[i] = in[i]` for `n` more bytes.
unfoldable pub copy : ℕ → ℕ → List ℕ → List ℕ → Result (List ℕ)
copy zero i out input = ok out
copy (suc n) i out input =
    read_at input i >>= λ b. write_at out i b >>= λ out'. copy n (suc i) out' input

-- The reserved size and the filled buffer; `brs - 1` wraps when there is no room at all.
unfoldable pub u8toascii : List ℕ → ℕ → List ℕ → ℕ → Result (ℕ × List ℕ)
unfolding copy
u8toascii out out_size input in_num =
    let brs = if ltb out_size (in_num + 1) then out_size else in_num + 1 in
    if brs == 0
    then err undefined
    else copy (brs - 1) 0 out input >>= λ out'.
        write_at out' (brs - 1) 0 >>= λ out''. ok (brs, out'')

unfoldable pub asciitou8 : List ℕ → ℕ → List ℕ → ℕ → Result (ℕ × List ℕ)
unfolding copy
asciitou8 out out_size input in_len =
    let brs = if ltb out_size in_len then out_size else in_len in
    copy brs 0 out input >>= λ out'. ok (brs, out')

-- `u8ncmp`: how often the loop goes on, for `n` more bytes from `i`.
unfoldable pub matching : ℕ → ℕ → List ℕ → List ℕ → Result ℕ
matching zero i u1 u2 = ok 0
matching (suc n) i u1 u2 = read_at u2 i >>= λ b.
    read_at u1 i >>= λ a. if b == a then (matching n (suc i) u1 u2 >>= λ m. ok (suc m)) else ok 0

-- `cnt`, which starts at `-num_comp` and is counted up.
abbrev pub counted : ℕ → ℕ → ℤ
counted m num_comp = if ltb m num_comp then negsuc (num_comp - m - 1) else pos (m - num_comp)

unfoldable pub u8ncmp : List ℕ → List ℕ → ℕ → ℕ → ℕ → Result ℤ
unfolding matching
u8ncmp u1 u2 u1_len u2_len num_comp =
    matching (if ltb u1_len u2_len then u1_len else u2_len) 0 u1 u2 >>= λ m. ok (counted m num_comp)

-- The table `u8nct` of numbers and their chars.
abbrev pub u8nct : List (ℕ × ℕ)
u8nct =
    (0, 48)
    ∷ (1, 49)
    ∷ (2, 50)
    ∷ (3, 51)
    ∷ (4, 52)
    ∷ (5, 53)
    ∷ (6, 54)
    ∷ (7, 55)
    ∷ (8, 56)
    ∷ (9, 57)
    ∷ (10, 97)
    ∷ (11, 98)
    ∷ (12, 99)
    ∷ (13, 100)
    ∷ (14, 101)
    ∷ (15, 102)
    ∷ (10, 65)
    ∷ (11, 66)
    ∷ (12, 67)
    ∷ (13, 68)
    ∷ (14, 69)
    ∷ (15, 70)
    ∷ []

-- The char of the first of `n` entries with the number.
unfoldable pub rep_of : ℕ → List (ℕ × ℕ) → ℕ → Option ℕ
rep_of zero table nibble = none
rep_of (suc n) [] nibble = none
rep_of (suc n) (e ∷ es) nibble = if nibble == e.0 then some e.1 else rep_of n es nibble

abbrev pub write_found : List ℕ → ℕ → Option ℕ → Result (List ℕ)
write_found out i none = ok out
write_found out i (some c) = write_at out i c

-- `u8toc(&out[high], &out[low], in)`: the upper four bits go to `low`.
unfoldable pub u8toc : List ℕ → ℕ → ℕ → ℕ → Result (List ℕ)
unfolding rep_of
u8toc out high low byte = write_found out low (rep_of 16 u8nct (byte / 16 % 16)) >>= λ out'.
    write_found out' high (rep_of 16 u8nct (byte % 16))

-- The number of the first of `n` entries with the char.
unfoldable pub num_of : ℕ → List (ℕ × ℕ) → ℕ → ℕ
num_of zero table c = 0
num_of (suc n) [] c = 0
num_of (suc n) (e ∷ es) c = if c == e.1 then e.0 else num_of n es c

-- The loop looks at 21 entries.
unfoldable pub ctou8 : ℕ → ℕ
unfolding num_of
ctou8 c = num_of 21 u8nct c

-- The loop of `u8nprints` for `n` more bytes from `i`.
unfoldable pub print_from : ℕ → ℕ → List ℕ → List ℕ → Result (List ℕ)
unfolding u8toc
print_from zero i out input = ok out
print_from (suc n) i out input = read_at input i >>= λ b.
    u8toc out (2 * i + 1) (2 * i) b >>= λ out'. print_from n (suc i) out' input

unfoldable pub u8nprints : List ℕ → ℕ → List ℕ → ℕ → Result (List ℕ)
unfolding print_from
u8nprints out out_size input in_num =
    print_from (if ltb out_size in_num then out_size else in_num) 0 out input

-- The loop of `snprintu8` for `n` more bytes from `i`; the index before the first is outside.
unfoldable pub parse_from : ℕ → ℕ → List ℕ → List ℕ → ℕ → Result (List ℕ)
unfolding ctou8
parse_from zero i out input in_size = ok out
parse_from (suc n) i out input in_size =
    let index = in_size - 1 - i * 2 in
    read_at input index >>= λ low.
    (if index == 0 then err undefined else read_at input (index - 1)) >>= λ high.
    write_at out i (ctou8 high % 16 * 16 + ctou8 low % 16) >>= λ out'.
    parse_from n (suc i) out' input in_size

unfoldable pub snprintu8 : List ℕ → ℕ → List ℕ → ℕ → Result (List ℕ)
unfolding parse_from
snprintu8 out out_size input in_size =
    let bytes = in_size / 2 + in_size % 2 in
    if ltb out_size bytes
    then (if out_size == 0 then ok out else parse_from out_size 0 out input in_size)
    else parse_from bytes 0 out input in_size
