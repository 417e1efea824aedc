-- ===== src/Common/Overrun.antt =====
-- Where `snprintu8` and `u8nprints` leave their buffers.
use zmqpp_pty.Base.{
  ℕ, zero, suc, ◌+◌, ◌-◌, ◌*◌, ◌/◌, ◌%◌, ◌<◌, ◌≤◌, ◌≡◌, refl, ◌∙◌, true, false, List, ltb, ◌==◌,
  set, length, ok, err, undefined, arith, Bool-cases, inl, inr, get_elem?-lt, length-set,
}
use zmqpp_pty.Common.{ctou8, read_at, write_at, parse_from, snprintu8, print_from, u8nprints, u8toc}
use zmqpp_pty.Common.Buffers.{write_past}
use zmqpp_pty.Common.Nibbles.{digit, rep_of-digit}

-- An access inside of a buffer.
read_inside : (xs : List ℕ) (i : ℕ) → i < length xs → (b : ℕ) × (read_at xs i ≡ ok b)
read_inside xs i h = let (b, e) = get_elem?-lt xs i h in (b, rw (e, read_at) refl)

write_inside :
    (xs : List ℕ) (i b : ℕ)
    → i < length xs
    → (ys : List ℕ) × (write_at xs i b ≡ ok ys) × (length ys ≡ length xs)
write_inside xs i b h =
    let inside : ltb i (length xs) ≡ true = ground arith in
    (set xs i b, rw inside refl, length-set xs i b)

-- The rounds of `snprintu8` that are left for an odd text end before its first char.
parse_overrun :
    (n i : ℕ) (out input : List ℕ)
    → length input ≡ 2 * (n + i) + 1
    → suc (n + i) ≤ length out
    → parse_from (suc n) i out input (length input) ≡ err undefined
unfolding parse_from
parse_overrun zero i out input e h =
    let index : length input - 1 - i * 2 ≡ 0 = omega arith in
    let (low, read) = read_inside input 0 (omega arith) in rw (index, read) refl
parse_overrun (suc n) i out input e h =
    let (low, read_low) = read_inside input (length input - 1 - i * 2) (omega arith) in
    let (high, read_high) = read_inside input (length input - 1 - i * 2 - 1) (omega arith) in
    let inside : (length input - 1 - i * 2 == 0) ≡ false = ground arith in
    let (out', wrote, same_length) =
      write_inside out i (ctou8 high % 16 * 16 + ctou8 low % 16) (omega arith) in
    rw (read_low, inside, read_high, wrote)
      (parse_overrun n (suc i) out' input (omega arith) (omega arith))

-- When the text has an odd number of chars and the output has room for all of them, `snprintu8` reads
-- before the first char.
pub snprintu8-odd :
    (out input : List ℕ) (n : ℕ)
    → length input ≡ 2 * n + 1
    → suc n ≤ length out
    → snprintu8 out (length out) input (length input) ≡ err undefined
unfolding snprintu8
snprintu8-odd out input n e h =
    let bytes : length input / 2 + length input % 2 ≡ suc n = omega arith in
    let room : ltb (length out) (suc n) ≡ false = ground arith in
    rw (bytes, room) (parse_overrun n 0 out input (omega arith) (omega arith))

-- The chars of a byte are written inside of the buffer, or one of them is not.
u8toc_inside :
    (out : List ℕ) (high low b : ℕ)
    → high < length out
    → low < length out
    → (out' : List ℕ) × (u8toc out high low b ≡ ok out') × (length out' ≡ length out)
unfolding u8toc
u8toc_inside out high low b h l =
    let (one, wrote, same) = write_inside out low (digit (b / 16 % 16)) l in
    let (two, wrote', same') = write_inside one high (digit (b % 16)) (omega arith) in
    (
      two,
      rw (rep_of-digit (b / 16 % 16) (omega arith), rep_of-digit (b % 16) (omega arith), wrote)
          wrote',
      same' ∙ same,
    )

u8toc_outside :
    (out : List ℕ) (high low b : ℕ) → length out ≤ high → u8toc out high low b ≡ err undefined
unfolding u8toc
u8toc_outside out high low b h =
    rw (rep_of-digit (b / 16 % 16) (omega arith), rep_of-digit (b % 16) (omega arith))
      (elim (Bool-cases (ltb low (length out))) [
        | inl inside ↦ rw inside (
            write_past (set out low (digit (b / 16 % 16))) high _
              (omega (arith, length-set out low (digit (b / 16 % 16)))))
        | inr outside ↦ rw outside refl
      ])

print_overrun :
    (n i : ℕ) (out input : List ℕ)
    → 2 * i ≤ length out
    → length out < 2 * (n + i)
    → n + i ≤ length input
    → print_from n i out input ≡ err undefined
unfolding print_from
print_overrun zero i out input s o h = absurd (omega arith)
print_overrun (suc n) i out input s o h =
    let (b, read) = read_inside input i (omega arith) in
    elim (Bool-cases (ltb (2 * i + 1) (length out))) [
      | inl inside ↦
          let (out', wrote, same) =
            u8toc_inside out (2 * i + 1) (2 * i) b (ground arith) (ground arith) in
          rw (read, wrote)
            (print_overrun n (suc i) out' input (ground arith) (omega arith) (omega arith))
      | inr outside ↦ rw (read, u8toc_outside out (2 * i + 1) (2 * i) b (ground arith)) refl
    ]

-- `u8nprints` takes the size of its output for the number of bytes that it may convert, so it writes
-- past the end of an output with less than two bytes for each byte of the input, unless the output
-- has no byte at all.
pub u8nprints-overrun :
    (out input : List ℕ)
    → 0 < length out
    → length out < 2 * length input
    → u8nprints out (length out) input (length input) ≡ err undefined
unfolding u8nprints
u8nprints-overrun out input some_room short = elim (Bool-cases (ltb (length out) (length input))) [
  | inl less ↦
      rw less (print_overrun (length out) 0 out input (omega arith) (omega arith) (ground arith))
  | inr more ↦
      rw more (print_overrun (length input) 0 out input (omega arith) (omega arith) (omega arith))
]
