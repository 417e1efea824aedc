-- ===== src/Tests/MessageTests.antt =====
-- The messages of the tests: a part of text, a part of a wrong size for an integer, a negative
-- number and a truncated C string.
use zmqpp_pty.Base.{
  ◌+◌, true, some, err, refl, assertion, ◌++◌, List, [], ◌∷◌, map, negsuc, ◌≡◌, ok, arith,
}
use zmqpp_pty.Inet.Memory.{big_endian, little_endian}
use zmqpp_pty.Message.{Message, empty, get, add, remaining}
use zmqpp_pty.Message.Frames.{frame}
use zmqpp_pty.Message.Values.{Value, Kind, kind, as_read}
use zmqpp_pty.Socket.Endpoints.Ownership.{count}
use zmqpp_pty.Message.Releases
use zmqpp_pty.Message.Releases.{
  Memory, nothing, copied, borrowed, Steps, stays, then_step, moves, removes, destroys, takes,
  finishes,
}
use zmqpp_pty.Message.Releases.Balance.{total, holds, uses, steps-released}
use zmqpp_pty.Message.Extract.{extract, extract-add}
use zmqpp_pty.Message.Typing.{IsRead, get-IsRead}
use zmqpp_pty.Message.Stream.{read_all, read_all-add}

abbrev minus_five : Value
minus_five = Value.int16 (negsuc 4)

abbrev text : Message
text = record { frames = frame (104 ∷ 105 ∷ 0 ∷ []) ∷ []; read_cursor = 1 }

abbrev values : List Value
values = minus_five ∷ Value.c_string (104 ∷ 0 ∷ 105 ∷ []) ∷ Value.bool true ∷ []

read_all-add_example :
    let (r, m) = read_all little_endian (map kind values) (add big_endian empty values) in
    (r ≡ ok (map as_read values)) × (remaining m ≡ 0)
read_all-add_example =
    read_all-add big_endian little_endian values (omega arith, (tt, (tt, tt))) (omega arith)

extract-add_example :
    (extract little_endian
        (map kind values)
        (record (add big_endian empty (values ++ minus_five ∷ [])) { read_cursor = 3 })
      ≡ ok (map as_read values))
    × (extract little_endian
          (map kind values ++ Kind.bool ∷ [])
          (record (add big_endian empty values) { read_cursor = 3 })
        ≡ err assertion)
extract-add_example =
    extract-add big_endian little_endian values (minus_five ∷ []) Kind.bool [] 3
      (omega arith, (tt, (tt, tt)))

-- The part of three bytes of `text` is no 16-bit integer.
get-IsRead_example :
    IsRead Kind.int16 (some (frame (104 ∷ 105 ∷ 0 ∷ []))) (get big_endian Kind.int16 text 0)
get-IsRead_example = get-IsRead big_endian Kind.int16 text 0 (omega arith)

-- Three pieces of memory: the first is sent, the second is removed before the third and lost, and the
-- third is closed by the destructor.
abbrev one_given : Memory
one_given = Releases.move 5 nothing

abbrev two_given : Memory
two_given = Releases.move 6 one_given

abbrev given : Memory
given = Releases.move 7 two_given

abbrev taken : Memory
taken = record given {
  parts = copied ∷ borrowed 6 1 ∷ borrowed 7 2 ∷ [];
  in_flight = borrowed 5 0 ∷ [];
}

abbrev removed : Memory
removed = record taken { parts = copied ∷ borrowed 7 2 ∷ []; lost = borrowed 6 1 ∷ [] }

abbrev finished : Memory
finished = record removed { in_flight = []; releasers = 2 ∷ 1 ∷ []; released = 5 ∷ [] }

abbrev destroyed : Memory
destroyed = record finished { parts = borrowed 7 2 ∷ [] }

abbrev gone : Memory
gone = record destroyed { parts = []; releasers = 1 ∷ []; released = 7 ∷ 5 ∷ [] }

going_to_taken : Steps nothing taken
unfolding Releases.move
going_to_taken =
    then_step nothing given taken
      (then_step nothing two_given given
        (then_step nothing one_given two_given
          (then_step nothing nothing one_given (stays nothing) (moves nothing 5))
          (moves one_given 6))
        (moves two_given 7))
      (takes given [] (borrowed 6 1 ∷ borrowed 7 2 ∷ []) (borrowed 5 0) refl)

going : Steps nothing gone
unfolding Releases.close Releases.erase Releases.move
going =
    then_step nothing destroyed gone
      (then_step nothing finished destroyed
        (then_step nothing removed finished
          (then_step nothing taken removed going_to_taken
            (removes taken removed (copied ∷ []) (borrowed 7 2 ∷ []) (borrowed 6 1) refl refl))
          (finishes removed finished [] [] (borrowed 5 0) refl refl))
        (destroys finished destroyed (borrowed 7 2 ∷ []) copied refl refl))
      (destroys destroyed gone [] (borrowed 7 2) refl refl)

steps-released_example :
    (count 6 gone.released + total (holds 6) gone.lost ≡ count 6 gone.moved)
    × (count 6 gone.releasers ≡ total (uses 6) gone.lost)
steps-released_example = steps-released gone 6 going refl refl
