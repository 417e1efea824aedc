-- ===== src/Common/Buffers.antt =====
-- Reading and writing in the middle of a buffer, and the copies of `u8toascii` and `asciitou8`.
use mathlib.Core.List.{append_assoc, append-nil}
use zmqpp_pty.Base.{
  ℕ, suc, ◌+◌, ◌-◌, ◌≤◌, ◌≡◌, refl, sym, ap, ◌∙◌, true, false, List, [], ◌∷◌, ◌++◌, ltb, ◌==◌,
  if◌then◌else◌, set, length, ok, err, undefined, arith, length-append, get_elem?-append_at,
}
use zmqpp_pty.Common.{read_at, write_at, copy, u8toascii, asciitou8}

pub read_middle : (xs : List ℕ) (b : ℕ) (ys : List ℕ) → read_at (xs ++ b ∷ ys) (length xs) ≡ ok b
read_middle xs b ys = rw (get_elem?-append_at xs b ys, read_at) refl

set_middle :
    (xs : List ℕ) (a : ℕ) (ys : List ℕ) (b : ℕ) → set (xs ++ a ∷ ys) (length xs) b ≡ xs ++ b ∷ ys
set_middle [] a ys b = refl
set_middle (x ∷ xs) a ys b = ap (◌∷◌ x) (set_middle xs a ys b)

pub write_middle :
    (xs : List ℕ) (a : ℕ) (ys : List ℕ) (b : ℕ)
    → write_at (xs ++ a ∷ ys) (length xs) b ≡ ok (xs ++ b ∷ ys)
write_middle xs a ys b =
    let inside : ltb (length xs) (length (xs ++ a ∷ ys)) ≡ true =
      ground (arith, length-append xs (a ∷ ys)) in
    rw (inside, set_middle xs a ys b) refl

pub write_past : (xs : List ℕ) (i b : ℕ) → length xs ≤ i → write_at xs i b ≡ err undefined
write_past xs i b h = ground arith

pub append_one : (xs : List ℕ) (x : ℕ) (ys : List ℕ) → xs ++ x ∷ ys ≡ (xs ++ x ∷ []) ++ ys
append_one xs x ys = sym (append_assoc xs (x ∷ []) ys)

pub length_one : (xs : List ℕ) (x : ℕ) → length (xs ++ x ∷ []) ≡ suc (length xs)
length_one xs x = omega (arith, length-append xs (x ∷ []))

-- Copying `input` over the `gap` of a buffer that is filled up to there.
pub copy_gap :
    (done out start input rest tail : List ℕ)
    → length start ≡ length done
    → length out ≡ length input
    → copy (length input) (length done) (done ++ (out ++ rest)) (start ++ (input ++ tail))
      ≡ ok (done ++ (input ++ rest))
unfolding copy
copy_gap done [] start [] rest tail e f = refl
copy_gap done (o ∷ out) start [] rest tail e f = absurd (omega arith)
copy_gap done [] start (b ∷ input) rest tail e f = absurd (omega arith)
copy_gap done (o ∷ out) start (b ∷ input) rest tail e f =
    let from = b ∷ (input ++ tail) in
    let read : read_at (start ++ from) (length done) ≡ ok b =
      ap (read_at (start ++ from)) (sym e) ∙ read_middle start b (input ++ tail) in
    let more =
      copy_gap (done ++ b ∷ []) out (start ++ b ∷ []) input rest tail
        (length_one start b ∙ ap suc e ∙ sym (length_one done b)) (omega arith) in
    rw (read, write_middle done o (out ++ rest) b)
      (ap (λ n. copy (length input) n (done ++ b ∷ (out ++ rest)) (start ++ from))
          (sym (length_one done b))
        ∙ ap (λ xs. copy (length input) (length (done ++ b ∷ [])) xs (start ++ from))
            (append_one done b (out ++ rest))
        ∙ ap
            (λ xs.
              copy (length input) (length (done ++ b ∷ [])) ((done ++ b ∷ []) ++ (out ++ rest)) xs)
            (append_one start b (input ++ tail))
        ∙ more
        ∙ ap ok (sym (append_one done b (input ++ rest))))

copied :
    (out input rest tail : List ℕ)
    → length out ≡ length input
    → copy (length input) 0 (out ++ rest) (input ++ tail) ≡ ok (input ++ rest)
copied out input rest tail f = copy_gap [] out [] input rest tail refl f

copied_all :
    (out input rest : List ℕ)
    → length out ≡ length input
    → copy (length input) 0 (out ++ rest) input ≡ ok (input ++ rest)
copied_all out input rest f =
    ap (copy (length input) 0 (out ++ rest)) (sym (append-nil input)) ∙ copied out input rest [] f

-- `u8toascii`, when there is room for the bytes and one more, copies the bytes, ends them with a zero
-- and returns their number and one, and `asciitou8` of that text into a buffer with room for them
-- gives the bytes back; what stands after them in either buffer stays.
pub asciitou8-u8toascii :
    (input gap rest back rest' : List ℕ) (z : ℕ)
    → length gap ≡ length input
    → length back ≡ length input
    → (u8toascii (gap ++ z ∷ rest) (length (gap ++ z ∷ rest)) input (length input)
        ≡ ok (suc (length input), input ++ 0 ∷ rest))
      × (asciitou8 (back ++ rest') (length (back ++ rest')) (input ++ 0 ∷ rest) (length input)
          ≡ ok (length input, input ++ rest'))
unfolding u8toascii asciitou8
asciitou8-u8toascii input gap rest back rest' z e f =
    let room : (if ltb (length (gap ++ z ∷ rest)) (length input + 1)
          then length (gap ++ z ∷ rest)
          else length input + 1)
        ≡ suc (length input) =
      ground (arith, length-append gap (z ∷ rest)) in
    let room' : (if ltb (length (back ++ rest')) (length input)
          then length (back ++ rest')
          else length input)
        ≡ length input =
      ground (arith, length-append back rest') in
    let minus_one : suc (length input) - 1 ≡ length input = omega arith in
    let some_room : (suc (length input) == 0) ≡ false = ground arith in
    (
      rw
          (
            room,
            some_room,
            minus_one,
            copied_all gap input (z ∷ rest) e,
            write_middle input z rest 0,
          )
          refl,
      rw (room', copied back input rest' (0 ∷ rest) f) refl,
    )
