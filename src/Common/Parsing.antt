-- ===== src/Common/Parsing.antt =====
-- What `snprintu8` reads from the text that `u8nprints` writes.
use mathlib.Core.List.{append-nil, reverse, reverse_aux, reverse_aux-eq, reverse-reverse}
use zmqpp_pty.Base.{
  ℕ, ◌+◌, ◌-◌, ◌*◌, ◌/◌, ◌%◌, ◌≡◌, refl, sym, ap, ◌∙◌, false, List, [], ◌∷◌, ◌++◌, ltb, ◌==◌,
  length, ok, ◌>>=◌, arith, length-append,
}
use zmqpp_pty.Common.{read_at, parse_from, snprintu8, u8nprints}
use zmqpp_pty.Common.Buffers.{read_middle, write_middle, append_one, length_one}
use zmqpp_pty.Common.Nibbles.{digit, ctou8-digit}
use zmqpp_pty.Common.Printing.{AreBytes, hex, length-hex, u8nprints-hex}

hex-append : (xs ys : List ℕ) → hex (xs ++ ys) ≡ hex xs ++ hex ys
unfolding hex
hex-append [] ys = refl
hex-append (x ∷ xs) ys = ap (λ t. digit (x / 16) ∷ digit (x % 16) ∷ t) (hex-append xs ys)

length-reverse_aux : (xs ys : List ℕ) → length (reverse_aux xs ys) ≡ length xs + length ys
length-reverse_aux [] ys = omega arith
length-reverse_aux (x ∷ xs) ys = omega (arith, length-reverse_aux xs (x ∷ ys))

AreBytes-reverse_aux : (xs ys : List ℕ) → AreBytes xs → AreBytes ys → AreBytes (reverse_aux xs ys)
AreBytes-reverse_aux [] ys a b = b
AreBytes-reverse_aux (x ∷ xs) ys a b = AreBytes-reverse_aux xs (x ∷ ys) a.1 (a.0, b)

-- The text around the byte that is read next.
text_around :
    (b : ℕ) (more parsed : List ℕ)
    → hex (reverse_aux more (b ∷ parsed))
      ≡ hex (reverse more) ++ digit (b / 16) ∷ digit (b % 16) ∷ hex parsed
unfolding hex
text_around b more parsed =
    ap hex (reverse_aux-eq more (b ∷ parsed)) ∙ hex-append (reverse more) (b ∷ parsed)

abbrev length_text : List ℕ → List ℕ → ℕ
length_text todo parsed = 2 * (length todo + length parsed)

-- The two reads of one round.
read_high :
    (b : ℕ) (more parsed : List ℕ)
    → read_at (hex (reverse_aux more (b ∷ parsed))) (2 * length more) ≡ ok (digit (b / 16))
read_high b more parsed =
    let at : 2 * length more ≡ length (hex (reverse more)) =
      omega (arith, length-hex (reverse more), length-reverse_aux more []) in
    ap (read_at (hex (reverse_aux more (b ∷ parsed)))) at
    ∙ ap (λ t. read_at t (length (hex (reverse more)))) (text_around b more parsed)
    ∙ read_middle (hex (reverse more)) (digit (b / 16)) (digit (b % 16) ∷ hex parsed)

read_low :
    (b : ℕ) (more parsed : List ℕ)
    → read_at (hex (reverse_aux more (b ∷ parsed))) (2 * length more + 1) ≡ ok (digit (b % 16))
read_low b more parsed =
    let front = hex (reverse more) ++ digit (b / 16) ∷ [] in
    let at : 2 * length more + 1 ≡ length front = omega (
      arith,
      length-hex (reverse more),
      length-reverse_aux more [],
      length_one (hex (reverse more)) (digit (b / 16)),
    ) in
    ap (read_at (hex (reverse_aux more (b ∷ parsed)))) at
    ∙ ap (λ t. read_at t (length front))
        (text_around b more parsed
          ∙ append_one (hex (reverse more)) (digit (b / 16)) (digit (b % 16) ∷ hex parsed))
    ∙ read_middle front (digit (b % 16)) (hex parsed)

-- The loop, when the bytes of `parsed` were read and those of `todo` are still to be read.
parse_gap :
    (done gap rest todo parsed : List ℕ)
    → length parsed ≡ length done
    → length gap ≡ length todo
    → AreBytes todo
    → parse_from
        (length todo)
        (length done)
        (done ++ (gap ++ rest))
        (hex (reverse_aux todo parsed))
        (length_text todo parsed)
      ≡ ok (done ++ (todo ++ rest))
unfolding parse_from
parse_gap done [] rest [] parsed p g a = refl
parse_gap done (x ∷ gap) rest [] parsed p g a = absurd (omega arith)
parse_gap done [] rest (b ∷ more) parsed p g a = absurd (omega arith)
parse_gap done (x ∷ gap) rest (b ∷ more) parsed p g a =
    let size = length_text (b ∷ more) parsed in
    let text = hex (reverse_aux more (b ∷ parsed)) in
    let index : size - 1 - length done * 2 ≡ 2 * length more + 1 = omega arith in
    let inside : (2 * length more + 1 == 0) ≡ false = ground arith in
    let before : 2 * length more + 1 - 1 ≡ 2 * length more = omega arith in
    let whole : b / 16 % 16 * 16 + b % 16 % 16 ≡ b = omega arith in
    let recurse =
      parse_gap (done ++ b ∷ []) gap rest more (b ∷ parsed) (omega (arith, length_one done b))
        (omega arith) a.1 in
    let same_size : size ≡ length_text more (b ∷ parsed) = omega arith in
    rw
      (
        index,
        inside,
        before,
        read_low b more parsed,
        read_high b more parsed,
        ctou8-digit (b / 16) (omega arith),
        ctou8-digit (b % 16) (omega arith),
        whole,
        write_middle done x (gap ++ rest) b,
      )
      (ap (λ n. parse_from (length more) n (done ++ b ∷ (gap ++ rest)) text size)
          (sym (length_one done b))
        ∙ ap (λ xs. parse_from (length more) (length (done ++ b ∷ [])) xs text size)
            (append_one done b (gap ++ rest))
        ∙ ap
            (parse_from (length more) (length (done ++ b ∷ [])) ((done ++ b ∷ []) ++ (gap ++ rest))
              text)
            same_size
        ∙ recurse
        ∙ ap ok (sym (append_one done b (more ++ rest))))

-- Printing bytes as hexadecimal digits with `u8nprints` and reading the text with `snprintu8` gives
-- the bytes in the reverse order, when the first buffer has two bytes and the second has one byte
-- for each byte of the input; what stands after them in the second buffer stays.
pub snprintu8-u8nprints :
    (input gap back rest : List ℕ)
    → length gap ≡ 2 * length input
    → length back ≡ length input
    → AreBytes input
    → (u8nprints gap (length gap) input (length input) >>= λ text.
        snprintu8 (back ++ rest) (length (back ++ rest)) text (2 * length input))
      ≡ ok (reverse input ++ rest)
unfolding snprintu8
snprintu8-u8nprints input gap back rest g f a =
    let todo = reverse input in
    let same_length : length todo ≡ length input = omega (arith, length-reverse_aux input []) in
    let printed : u8nprints gap (length gap) input (length input) ≡ ok (hex input) =
      ap (λ xs. u8nprints xs (length xs) input (length input)) (sym (append-nil gap))
      ∙ u8nprints-hex input gap [] g a
      ∙ ap ok (append-nil (hex input)) in
    let bytes : 2 * length input / 2 + 2 * length input % 2 ≡ length input = omega arith in
    let room : ltb (length (back ++ rest)) (length input) ≡ false =
      ground (arith, length-append back rest) in
    let size : 2 * length input ≡ length_text todo [] = omega (arith, same_length) in
    rw (printed, bytes, room)
      (ap (parse_from (length input) 0 (back ++ rest) (hex input)) size
        ∙ ap (λ n. parse_from n 0 (back ++ rest) (hex input) (length_text todo []))
            (sym same_length)
        ∙ ap (λ t. parse_from (length todo) 0 (back ++ rest) (hex t) (length_text todo []))
            (sym (reverse-reverse input))
        ∙ parse_gap [] back rest todo [] refl (f ∙ sym same_length)
            (AreBytes-reverse_aux input [] a tt))
