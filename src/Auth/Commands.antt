-- ===== src/Auth/Commands.antt =====
-- What the server side does with any message on its pipe.
use zmqpp_pty.Base.{
  ℕ, ◌<◌, ◌≤◌, Bool, true, false, List, [], ◌∷◌, Bytes, Option, none, some, ◌=ˢ◌, ◌≡◌, refl, inl,
  inr, if◌then◌else◌, Bool-cases, arith, Result, ok, err, Error, assertion, exception, ◌==◌, length,
  get_elem?, get_elem?-none, zero, suc,
}
use zmqpp_pty.Message.{Message, parts, get_string, signal_ok}
use zmqpp_pty.Message.Frames.{Frame}
use zmqpp_pty.Zap.{plain, curve, gssapi}
use zmqpp_pty.Auth.{
  Auth, CommandRun, confirm, with_part, insert, insert_password, allow, deny, domain_word,
  verbose_word, terminate, true_word, configure_curve, run_command, handle_command,
}

-- The commands by their words, with the number of parameters that each takes.
unfoldable pub arity : Bytes → Option ℕ
arity word =
    if allow =ˢ word
    then some 1
    else if deny =ˢ word
    then some 1
    else if domain_word =ˢ word
    then some 1
    else if plain =ˢ word
    then some 2
    else if curve =ˢ word
    then some 1
    else if gssapi =ˢ word
    then some 0
    else if verbose_word =ˢ word
    then some 1
    else if terminate =ˢ word
    then some 0
    else none

-- The state is as before, and nothing was sent.
abbrev pub fails : Auth → Error → CommandRun
fails a e = record { auth = a; signals = []; result = err e }

abbrev pub out_of_range : Error
out_of_range = exception "attempting to request a message part outside the valid range"

-- The outcome of the call is that of the send that confirms the command.
abbrev pub Confirms : Result Bool → CommandRun → Type 0
Confirms (ok true) run = (run.signals ≡ signal_ok ∷ []) × (run.result ≡ ok tt)
Confirms (ok false) run = (run.signals ≡ []) × (run.result ≡ ok tt)
Confirms (err e) run = (run.signals ≡ []) × (run.result ≡ err e)

-- What is to happen to a message of the given number of parts, by the number of its parameters.
abbrev pub Obeys : Result Bool → Auth → ℕ → Option ℕ → CommandRun → Type 0
Obeys sent a n none run = run ≡ fails a assertion
Obeys sent a n (some k) run = (n ≤ k → run ≡ fails a out_of_range) × (k < n → Confirms sent run)

pub confirm-Confirms : (sent : Result Bool) (a : Auth) → Confirms sent (confirm sent a)
confirm-Confirms (ok true) a = (refl, refl)
confirm-Confirms (ok false) a = (refl, refl)
confirm-Confirms (err e) a = (refl, refl)

get-missing : (m : Message) (i : ℕ) → parts m ≤ i → get_string m i ≡ err out_of_range
unfolding get_string
get-missing m i h = rw (get_elem?-none m.frames i h) refl

elem-there : (fs : List Frame) (i : ℕ) → i < length fs → (f : Frame) × (get_elem? fs i ≡ some f)
elem-there [] i h = absurd (omega arith)
elem-there (f ∷ fs) zero h = (f, refl)
elem-there (f ∷ fs) (suc i) h = elem-there fs i (omega arith)

get-there : (m : Message) (i : ℕ) → i < parts m → (s : Bytes) × (get_string m i ≡ ok s)
unfolding get_string
get-there m i h = let (f, e) = elem-there m.frames i h in (f.contents, rw e refl)

module _ (sent : Result Bool) (a : Auth) (m : Message) (here : 0 < parts m) where
  one_part :
      (change : Bytes → Auth)
      → Obeys sent a
          (parts m)
          (some 1)
          (with_part a (get_string m 1) (λ s. confirm sent (change s)))
  unfolding with_part
  one_part change = (
    λ short. rw (get-missing m 1 short) refl,
    λ long. let (s, e) = get-there m 1 long in rw e (confirm-Confirms sent (change s)),
  )

  two_parts :
      (change : Bytes → Bytes → Auth)
      → Obeys sent a (parts m) (some 2) (
          with_part a
            (get_string m 1)
            (λ u. with_part a (get_string m 2) (λ w. confirm sent (change u w))))
  unfolding with_part
  two_parts change = (
    λ short. elim (Bool-cases (parts m == 2)) [
      | inl e ↦ let (s, e1) = get-there m 1 (ground arith) in rw (e1, get-missing m 2 short) refl
      | inr e ↦ rw (get-missing m 1 (ground arith)) refl
    ],
    λ long.
        let (s, e1) = get-there m 1 (omega arith) in
        let (t, e2) = get-there m 2 long in rw (e1, e2) (confirm-Confirms sent (change s t)),
  )

  no_part : (b : Auth) → Obeys sent a (parts m) (some 0) (confirm sent b)
  no_part b = (λ short. absurd (omega arith), λ long. confirm-Confirms sent b)

  either :
      (t : Bool) (k l : Option ℕ) (x y : CommandRun)
      → Obeys sent a (parts m) k x
      → Obeys sent a (parts m) l y
      → Obeys sent a (parts m) (if t then k else l) (if t then x else y)
  either true k l x y h g = h
  either false k l x y h g = g

  run_command-Obeys :
      (word : Bytes) → Obeys sent a (parts m) (arity word) (run_command sent a m word)
  unfolding run_command arity
  run_command-Obeys word =
      either (allow =ˢ word) _ _ _ _ (one_part (λ s. record a { whitelist = insert s a.whitelist }))
        (either (deny =ˢ word) _ _ _ _
          (one_part (λ s. record a { blacklist = insert s a.blacklist }))
          (either (domain_word =ˢ word) _ _ _ _ (one_part (λ s. record a { domain = s })) (
            either (plain =ˢ word) _ _ _ _
              (two_parts (λ u w. record a { passwords = insert_password u w a.passwords }))
              (either (curve =ˢ word) _ _ _ _ (one_part (configure_curve a)) (
                either (gssapi =ˢ word) _ _ _ _ (no_part a) (
                  either (verbose_word =ˢ word) _ _ _ _
                    (one_part (λ s. record a { verbose = true_word =ˢ s }))
                    (either (terminate =ˢ word) _ _ _ _ (no_part (record a { terminated = true }))
                      refl)))))))

-- Whatever message with a part arrives on the pipe: the first part is read as a word. If it is no
-- command, the assertion fails, the state is as before and nothing is sent. If a parameter of the
-- command is missing, the exception of the read goes through, the state is as before and nothing is
-- sent. Otherwise the call ends as the send of the signal `ok` ends: the signal is sent, is lost
-- without an error, or the exception of the send goes through.
pub handle_command-Obeys :
    (sent : Result Bool) (a : Auth) (m : Message)
    → 0 < parts m
    → (word : Bytes) × (get_string m 0 ≡ ok word)
      × Obeys sent a (parts m) (arity word) (handle_command sent a m)
unfolding handle_command with_part
handle_command-Obeys sent a m h =
    let (word, e) = get-there m 0 h in
    let some_parts : (parts m == 0) ≡ false = ground arith in
    (word, e, rw (some_parts, e) (run_command-Obeys sent a m h word))
