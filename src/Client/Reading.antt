-- ===== src/Client/Reading.antt =====
-- The lines of the standard input. A line is the C string that `fgets` leaves in the buffer, and the
-- end of the list is the end of the input.
use zmqpp_pty.Base.{
  Bool, List, [], ◌∷◌, if◌then◌else◌, pop_back, Bytes, Result, ok, err, undefined, ◌>>=◌,
}

abbrev pub with_part : Bytes → List Bytes × List Bytes → List Bytes × List Bytes
with_part part (parts, rest) = (part ∷ parts, rest)

-- The loop over the lines: the parts that are added to the message, and the lines that are left. The
-- last char of a line is cut off; a line of that char only ends the message. The length of an empty
-- line wraps around, and the write of the zero is out of range.
unfoldable pub parts_of : Bool → List Bytes → Result (List Bytes × List Bytes)
parts_of singlepart [] = ok ([], [])
parts_of singlepart ([] ∷ lines) = err undefined
parts_of singlepart ((c ∷ []) ∷ lines) = ok ([], lines)
parts_of singlepart ((c ∷ d ∷ cs) ∷ lines) =
    if singlepart
    then ok (pop_back (c ∷ d ∷ cs) ∷ [], lines)
    else parts_of singlepart lines >>= λ r. ok (with_part (pop_back (c ∷ d ∷ cs)) r)
