-- ===== src/Tests/CommonTests.antt =====
-- Bytes and texts of a few chars.
use mathlib.Core.List.{reverse}
use zmqpp_pty.Base.{
  Option, ◌+◌, ltb, if◌then◌else◌, Bool-cases, inl, inr, sym, ◌∙◌, err, undefined, ℕ, zero, suc, ap,
  map, length, false, some, none, Bytes, List, [], ◌∷◌, ◌++◌, ◌≡◌, refl, ok, ◌>>=◌, arith,
}
use zmqpp_pty.Common.{u8nprints, snprintu8}
use zmqpp_pty.Common.Parsing.{snprintu8-u8nprints}
use zmqpp_pty.Message.Values.{until_nul}
use zmqpp_pty.Common.Joining.{ccmsg, printd, joined, if_allocated, ccmsg-joined}
use zmqpp_pty.Common.Jobs.{failed, all_reaped, sigchld_handler, sigchld_handler-last}
use zmqpp_pty.Common.Logging.{Log, session, log_do}
use zmqpp_pty.Common.Logging.Sessions.{session-Logged}

abbrev two : List ℕ
two = 60 ∷ 165 ∷ []

abbrev three : List ℕ
three = 60 ∷ 165 ∷ 1 ∷ []

abbrev room : List ℕ
room = 0 ∷ 0 ∷ 0 ∷ 0 ∷ []

snprintu8-u8nprints_example :
    (u8nprints room 4 two 2 >>= λ text. snprintu8 (0 ∷ 0 ∷ 5 ∷ []) 3 text 4)
    ≡ ok (reverse two ++ 5 ∷ [])
snprintu8-u8nprints_example =
    snprintu8-u8nprints two room (0 ∷ 0 ∷ []) (5 ∷ []) refl refl (omega arith, (omega arith, tt))

-- Two strings, the first of them with a NUL inside.
abbrev strings : List Bytes
strings = (97 ∷ 98 ∷ 0 ∷ 7 ∷ []) ∷ [] ∷ (99 ∷ []) ∷ []

-- Memory for at most ten bytes.
abbrev memory : ℕ → List ℕ
memory zero = []
memory (suc n) = 5 ∷ memory n

abbrev malloc : ℕ → Option (List ℕ)
malloc n = if ltb n 11 then some (memory n) else none

length-memory : (n : ℕ) → length (memory n) ≡ n
length-memory zero = refl
length-memory (suc n) = ap suc (length-memory n)

sized : (n : ℕ) (m : List ℕ) → malloc n ≡ some m → length m ≡ n
sized n m e = elim (Bool-cases (ltb n 11)) [
  | inl h ↦ ap size_of (sym (rw h at e)) ∙ length-memory n
  | inr h ↦ cc
]
  where
    size_of : Option (List ℕ) → ℕ
    size_of none = 0
    size_of (some x) = length x

ccmsg-joined_example :
    let m = malloc (1 + length (joined strings)) in
    (ccmsg malloc strings ≡ if_allocated m (ok (some (joined strings ++ 0 ∷ []))) (ok none))
    × (printd malloc strings ≡ if_allocated m (ok (joined strings)) (err undefined))
unfolding until_nul
ccmsg-joined_example = ccmsg-joined malloc strings sized (omega arith)

sigchld_handler-last_example :
    sigchld_handler
      (all_reaped ((40, 1) ∷ (41, 2) ∷ []) ++ failed 10 ∷ [])
      (record { pid = 0; status = 0; errno = 4 })
    ≡ some (record { pid = 41; status = 2; errno = 4 })
sigchld_handler-last_example =
    sigchld_handler-last ((40, 1) ∷ (41, 2) ∷ []) (failed 10) []
      (record { pid = 0; status = 0; errno = 4 }) tt

-- No log file yet.
abbrev no_log : Log
no_log = record {
  do_log = false;
  lfp = none;
  logfile = memory 80;
  errsv = 0;
  streams = [];
  written = [];
}

session-Logged_example :
    (r : Log) × (session (some (47 ∷ 97 ∷ [])) 3 strings no_log ≡ ok (r, 0))
    × (r.streams ≡ [])
    × (r.written ≡ map (λ m. (3, m)) strings)
    × ((m : Bytes) (errno : ℕ) → log_do m errno r ≡ ok r)
unfolding until_nul
session-Logged_example =
    session-Logged (47 ∷ 97 ∷ []) 3 strings no_log (length-memory 80) (omega arith)
