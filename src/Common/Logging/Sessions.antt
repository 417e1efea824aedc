-- ===== src/Common/Logging/Sessions.antt =====
-- Names of log files, and files from their opening to their end.
use mathlib.Core.List.{append_assoc, append-nil}
use zmqpp_pty.Base.{
  ℕ, suc, ◌+◌, ◌<◌, ◌≤◌, ◌≡◌, refl, sym, ap, ◌∙◌, true, false, List, [], ◌∷◌, ◌++◌, map, Option,
  none, some, Bytes, length, set, length-set, ok, err, undefined, ◌>>=◌, ==_refl, arith,
}
use zmqpp_pty.Message.Values.{until_nul}
use zmqpp_pty.Common.Joining.{write_string}
use zmqpp_pty.Common.Logging.{
  Log, on_open, create_logfile, is_open, remove, close_logfile, log_do, log_all, session,
}

write_string_fits :
    (s : Bytes) (buffer : List ℕ) (i : ℕ)
    → i + length s < length buffer
    → (b : List ℕ) × (write_string buffer i s ≡ ok b) × (length b ≡ length buffer)
unfolding write_string
write_string_fits [] buffer i h = (set buffer i 0, ground arith, length-set buffer i 0)
write_string_fits (c ∷ s) buffer i h =
    let same = length-set buffer i c in
    let (b, e, l) = write_string_fits s (set buffer i c) (suc i) (omega (arith, same)) in
    (b, ground (arith, e), l ∙ same)

write_string_past :
    (s : Bytes) (buffer : List ℕ) (i : ℕ)
    → length buffer ≤ i + length s
    → write_string buffer i s ≡ err undefined
unfolding write_string
write_string_past [] buffer i h = ground arith
write_string_past (c ∷ s) buffer i h =
    let rest =
      write_string_past s (set buffer i c) (suc i) (omega (arith, length-set buffer i c)) in
    ground (arith, rest)

-- The file name has 80 bytes: a path with fewer bytes before its NUL is copied into it, and the file
-- is opened or not as `fopen` answers; a longer one is written past the end.
pub create_logfile_bounds :
    (path : Bytes) (answer : Option ℕ) (l : Log)
    → length l.logfile ≡ 80
    → (length (until_nul path) < 80
        → (name : List ℕ) × (length name ≡ 80)
          × (create_logfile (some path) answer l
              ≡ ok (on_open (record l { logfile = name }) answer)))
      × (80 ≤ length (until_nul path) → create_logfile (some path) answer l ≡ err undefined)
unfolding create_logfile
create_logfile_bounds path answer l size = (
  λ short.
      let (name, e, same) = write_string_fits (until_nul path) l.logfile 0 (omega (arith, size)) in
      (name, same ∙ size, rw e refl),
  λ long. rw (write_string_past (until_nul path) l.logfile 0 (omega (arith, size))) refl,
)

is_open_head : (h : ℕ) (streams : List ℕ) → is_open h (h ∷ streams) ≡ true
unfolding is_open
is_open_head h streams = rw (==_refl h) refl

remove_head : (h : ℕ) (streams : List ℕ) → remove h (h ∷ streams) ≡ streams
unfolding remove
remove_head h streams = rw (==_refl h) refl

log_one :
    (m : Bytes) (h e : ℕ) (name streams : List ℕ) (written : List (ℕ × Bytes))
    → log_do m 0 (record {
      do_log = true;
      lfp = some h;
      logfile = name;
      errsv = e;
      streams = h ∷ streams;
      written = written;
    })
      ≡ ok (record {
        do_log = true;
        lfp = some h;
        logfile = name;
        errsv = 0;
        streams = h ∷ streams;
        written = written ++ (h, m) ∷ [];
      })
unfolding log_do
log_one m h e name streams written = rw (is_open_head h streams) refl

log_and_close :
    (ms : List Bytes) (h e : ℕ) (name streams : List ℕ) (written : List (ℕ × Bytes))
    → (r : Log) × ((log_all ms (record {
      do_log = true;
      lfp = some h;
      logfile = name;
      errsv = e;
      streams = h ∷ streams;
      written = written;
    })
          >>= λ l. close_logfile true l)
        ≡ ok (r, 0))
      × (r.do_log ≡ false)
      × (r.streams ≡ streams)
      × (r.written ≡ written ++ map (λ m. (h, m)) ms)
unfolding log_all close_logfile
log_and_close [] h e name streams written = (
  record {
    do_log = false;
    lfp = some h;
    logfile = name;
    errsv = e;
    streams = streams;
    written = written;
  },
  rw (is_open_head h streams, remove_head h streams) refl,
  refl,
  refl,
  sym (append-nil written),
)
log_and_close (m ∷ ms) h e name streams written =
    let (r, run, off, closed, all) = log_and_close ms h 0 name streams (written ++ (h, m) ∷ []) in
    (
      r,
      rw (log_one m h e name streams written) run,
      off,
      closed,
      all ∙ append_assoc written ((h, m) ∷ []) (map (λ m'. (h, m')) ms),
    )

-- A file with a path that fits is opened, gets the messages in order, and is closed, when libc reports
-- no error: no stream is then open that was not before, and `log_do` writes nothing more.
pub session-Logged :
    (path : Bytes) (h : ℕ) (ms : List Bytes) (l : Log)
    → length l.logfile ≡ 80
    → length (until_nul path) < 80
    → (r : Log) × (session (some path) h ms l ≡ ok (r, 0))
      × (r.streams ≡ l.streams)
      × (r.written ≡ l.written ++ map (λ m. (h, m)) ms)
      × ((m : Bytes) (errno : ℕ) → log_do m errno r ≡ ok r)
unfolding session log_do
session-Logged path h ms l size short =
    let (name, same, opened) = (create_logfile_bounds path (some h) l size).0 short in
    let (r, run, off, closed, all) = log_and_close ms h l.errsv name l.streams l.written in
    (
      r,
      ap (λ x. x >>= λ y. log_all ms y.0 >>= λ l'. close_logfile true l') opened ∙ run,
      closed,
      all,
      λ m errno. rw off refl,
    )

-- When `fopen` fails while logging is on, `create_logfile` reports it but leaves logging on with a
-- null pointer, so that the next message is written through it.
pub create_logfile-failed :
    (path : Bytes) (l : Log)
    → length l.logfile ≡ 80
    → length (until_nul path) < 80
    → l.do_log ≡ true
    → (r : Log) × (create_logfile (some path) none l ≡ ok (r, 1))
      × ((m : Bytes) (errno : ℕ) → log_do m errno r ≡ err undefined)
unfolding log_do
create_logfile-failed path l size short on =
    let (name, same, failed) = (create_logfile_bounds path none l size).0 short in
    (_, failed, λ m errno. rw on refl)
