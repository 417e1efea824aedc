-- ===== src/Common/Printing.antt =====
-- What `u8nprints` writes.
use zmqpp_pty.Base.{
  ℕ, ◌+◌, ◌*◌, ◌/◌, ◌%◌, ◌<◌, ◌≡◌, refl, sym, ap, ◌∙◌, List, [], ◌∷◌, ◌++◌, ltb, if◌then◌else◌,
  length, ok, arith, length-append,
}
use zmqpp_pty.Common.{write_at, u8toc, print_from, u8nprints}
use zmqpp_pty.Common.Buffers.{read_middle, write_middle, append_one, length_one}
use zmqpp_pty.Common.Nibbles.{digit, rep_of-digit}

abbrev pub AreBytes : List ℕ → Type 0
AreBytes [] = Unit
AreBytes (b ∷ bs) = (b < 256) × AreBytes bs

-- Two digits for each byte, the upper half first.
unfoldable pub hex : List ℕ → List ℕ
hex [] = []
hex (b ∷ bs) = digit (b / 16) ∷ digit (b % 16) ∷ hex bs

pub length-hex : (bs : List ℕ) → length (hex bs) ≡ 2 * length bs
unfolding hex
length-hex [] = omega arith
length-hex (b ∷ bs) = omega (arith, length-hex bs)

-- One byte is written at two places of the buffer.
u8toc_middle :
    (done rest : List ℕ) (x y b : ℕ)
    → b < 256
    → u8toc (done ++ x ∷ y ∷ rest) (length done + 1) (length done) b
      ≡ ok (done ++ digit (b / 16) ∷ digit (b % 16) ∷ rest)
unfolding u8toc
u8toc_middle done rest x y b h =
    let upper : b / 16 % 16 ≡ b / 16 = omega arith in
    let one = digit (b / 16) in
    let next : length done + 1 ≡ length (done ++ one ∷ []) = omega (arith, length_one done one) in
    rw
      (
        upper,
        rep_of-digit (b / 16) (omega arith),
        rep_of-digit (b % 16) (omega arith),
        write_middle done x (y ∷ rest) one,
      )
      (ap (λ i. write_at (done ++ one ∷ y ∷ rest) i (digit (b % 16))) next
        ∙ ap (λ xs. write_at xs (length (done ++ one ∷ [])) (digit (b % 16)))
            (append_one done one (y ∷ rest))
        ∙ write_middle (done ++ one ∷ []) y rest (digit (b % 16))
        ∙ ap ok (sym (append_one done one (digit (b % 16) ∷ rest))))

-- The loop, from a place where the buffer is filled.
print_gap :
    (done gap start input rest : List ℕ)
    → length done ≡ 2 * length start
    → length gap ≡ 2 * length input
    → AreBytes input
    → print_from (length input) (length start) (done ++ (gap ++ rest)) (start ++ input)
      ≡ ok (done ++ (hex input ++ rest))
unfolding print_from hex
print_gap done [] start [] rest d g a = refl
print_gap done (x ∷ gap) start [] rest d g a = absurd (omega arith)
print_gap done [] start (b ∷ input) rest d g a = absurd (omega arith)
print_gap done (x ∷ []) start (b ∷ input) rest d g a = absurd (omega arith)
print_gap done (x ∷ y ∷ gap) start (b ∷ input) rest d g a =
    let one = digit (b / 16) in
    let two = digit (b % 16) in
    let done' = (done ++ one ∷ []) ++ two ∷ [] in
    let start' = start ++ b ∷ [] in
    let filled : (xs : List ℕ) → done ++ one ∷ two ∷ xs ≡ done' ++ xs =
      λ xs. append_one done one (two ∷ xs) ∙ append_one (done ++ one ∷ []) two xs in
    let wrote : u8toc (done ++ x ∷ y ∷ (gap ++ rest)) (2 * length start + 1) (2 * length start) b
        ≡ ok (done ++ one ∷ two ∷ (gap ++ rest)) =
      ap (λ n. u8toc (done ++ x ∷ y ∷ (gap ++ rest)) (n + 1) n b) (sym d)
      ∙ u8toc_middle done (gap ++ rest) x y b a.0 in
    let more =
      print_gap done' gap start' input rest
        (omega (arith, length_one (done ++ one ∷ []) two, length_one done one, length_one start b))
        (omega arith) a.1 in
    rw (read_middle start b input, wrote)
      (ap
          (λ n.
            print_from (length input) n (done ++ one ∷ two ∷ (gap ++ rest)) (start ++ b ∷ input))
          (sym (length_one start b))
        ∙ ap (λ xs. print_from (length input) (length start') xs (start ++ b ∷ input))
            (filled (gap ++ rest))
        ∙ ap (λ xs. print_from (length input) (length start') (done' ++ (gap ++ rest)) xs)
            (append_one start b input)
        ∙ more
        ∙ ap ok (sym (filled (hex input ++ rest))))

-- When the buffer has two bytes for each byte of the input, `u8nprints` writes two lower-case
-- hexadecimal digits for each byte of the input, in the order of the bytes and with the upper four
-- bits first, and leaves what stands after them.
pub u8nprints-hex :
    (input gap rest : List ℕ)
    → length gap ≡ 2 * length input
    → AreBytes input
    → u8nprints (gap ++ rest) (length (gap ++ rest)) input (length input) ≡ ok (hex input ++ rest)
unfolding u8nprints
u8nprints-hex input gap rest g a =
    let room : (if ltb (length (gap ++ rest)) (length input)
          then length (gap ++ rest)
          else length input)
        ≡ length input =
      ground (arith, length-append gap rest) in
    rw room (print_gap [] gap [] input rest refl g a)
