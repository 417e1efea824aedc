-- ===== src/Common/Logging.antt =====
-- common.c: the log file. A file is the number of its stream. What `fopen` and `fclose` answer, and
-- `errno` after a write, are arguments. The timestamp stands in the text, and what is printed is
-- left out. A use of a stream that is not open is undefined.
pub mod Sessions
use mathlib.Core.List.{append_assoc, append-nil}
use zmqpp_pty.Base.{
  ℕ, zero, suc, ◌+◌, ◌/◌, ◌%◌, ltb, ◌<◌, ◌≤◌, ◌≡◌, refl, sym, ap, ◌∙◌, Bool, true, false, List, [],
  ◌∷◌, ◌++◌, map, Option, none, some, Bytes, ◌==◌, if◌then◌else◌, length, Result, set, length-set,
  ok, err, undefined, ◌>>=◌, ==_refl, arith,
}
use zmqpp_pty.Message.Values.{until_nul}
use zmqpp_pty.Common.Joining.{write_string}

pub record Log : Type 0 where
  pub do_log : Bool
  pub lfp : Option ℕ
  pub logfile : List ℕ
  pub errsv : ℕ
  -- the streams that are open, and what was written to each
  pub streams : List ℕ
  pub written : List (ℕ × Bytes)

-- `strcpy(&logfile[0], logfilepath)`, unless the path is NULL.
name_of : List ℕ → Option Bytes → Result (List ℕ)
unfolding write_string until_nul
name_of logfile none = ok logfile
name_of logfile (some path) = write_string logfile 0 (until_nul path)

abbrev pub on_open : Log → Option ℕ → Log × ℕ
on_open l none = (record l { lfp = none; errsv = 1 }, 1)
on_open l (some h) = (record l { lfp = some h; do_log = true; streams = h ∷ l.streams }, 0)

unfoldable pub create_logfile : Option Bytes → Option ℕ → Log → Result (Log × ℕ)
unfolding name_of
create_logfile path answer l =
    name_of l.logfile path >>= λ name. ok (on_open (record l { logfile = name }) answer)

unfoldable pub is_open : ℕ → List ℕ → Bool
is_open h [] = false
is_open h (g ∷ streams) = if h == g then true else is_open h streams

unfoldable pub remove : ℕ → List ℕ → List ℕ
remove h [] = []
remove h (g ∷ streams) = if h == g then streams else g ∷ remove h streams

-- `fclose` ends the stream also if it fails.
close_stream : Log → ℕ → Bool → Result (Log × ℕ)
unfolding is_open remove
close_stream l h closed =
    if is_open h l.streams
    then if closed
      then ok (record l { do_log = false; streams = remove h l.streams }, 0)
      else ok (record l { errsv = 1; streams = remove h l.streams }, 2)
    else err undefined

close_pointer : Log → Option ℕ → Bool → Result (Log × ℕ)
unfolding close_stream
close_pointer l none closed = ok (record l { errsv = 1 }, 2)
close_pointer l (some h) closed = close_stream l h closed

unfoldable pub close_logfile : Bool → Log → Result (Log × ℕ)
unfolding close_pointer
close_logfile closed l =
    if l.do_log then close_pointer l l.lfp closed else ok (record l { do_log = false }, 0)

-- `strcb`: a second string that is not empty goes to an address in the stack.
unfoldable pub strcb : Bytes → Bytes → Result Bytes
unfolding until_nul
strcb str1 str2 = if length (until_nul str2) == 0 then ok (until_nul str1) else err undefined

-- `itoc(sizeof(long int), …)` of an error number, which has fewer than eight digits.
digits : ℕ → ℕ → Bytes
digits zero n = []
digits (suc fuel) n = if ltb n 10 then (48 + n) ∷ [] else digits fuel (n / 10) ++ (48 + n % 10) ∷ []

unfoldable pub itoc : ℕ → Bytes
unfolding digits
itoc n = digits 7 n

-- "Failed writing logfile! ["
abbrev pub failure_text : Bytes
failure_text =
    70 ∷ 97 ∷ 105 ∷ 108 ∷ 101 ∷ 100 ∷ 32 ∷ 119 ∷ 114 ∷ 105 ∷ 116 ∷ 105 ∷ 110 ∷ 103 ∷ 32 ∷ 108 ∷ 111
    ∷ 103 ∷ 102 ∷ 105 ∷ 108 ∷ 101 ∷ 33 ∷ 32 ∷ 91 ∷ []

-- The report of an error of the write, after `errsv = errno`.
report : ℕ → Log → Result Log
unfolding strcb itoc
report errno l =
    if errno == 0
    then ok (record l { errsv = errno })
    else (strcb failure_text (itoc errno) >>= λ numbered.
        strcb numbered (93 ∷ []) >>= λ text. ok (record l { errsv = errno }))

write_line : Log → Option ℕ → Bytes → ℕ → Result Log
unfolding report is_open
write_line l none message errno = err undefined
write_line l (some h) message errno =
    if is_open h l.streams
    then report errno (record l { written = l.written ++ (h, message) ∷ [] })
    else err undefined

unfoldable pub log_do : Bytes → ℕ → Log → Result Log
unfolding write_line
log_do message errno l = if l.do_log then write_line l l.lfp message errno else ok l

-- "[ERROR]"
abbrev pub error_mark : Bytes
error_mark = 91 ∷ 69 ∷ 82 ∷ 82 ∷ 79 ∷ 82 ∷ 93 ∷ []

unfoldable pub log_error : Bytes → ℕ → Log → Result Log
unfolding strcb log_do
log_error message errno l = strcb error_mark message >>= λ text. log_do text errno l

-- Messages one after the other, with no error from the writes.
unfoldable pub log_all : List Bytes → Log → Result Log
unfolding log_do
log_all [] l = ok l
log_all (m ∷ ms) l = log_do m 0 l >>= λ l'. log_all ms l'

-- The opened, written and closed file.
unfoldable pub session : Option Bytes → ℕ → List Bytes → Log → Result (Log × ℕ)
unfolding create_logfile log_all close_logfile
session path h ms l =
    create_logfile path (some h) l >>= λ r. log_all ms r.0 >>= λ l'. close_logfile true l'
