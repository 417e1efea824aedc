-- ===== src/Common/Joining.antt =====
-- common.c: `ccmsg` and `printd`, which join any number of strings. A string is the memory from its
-- pointer on, and counts up to its first NUL. What `malloc` answers is an argument: NULL, or the bytes
-- of the memory, which nothing is known of.
use mathlib.Core.List.{append_assoc}
use zmqpp_pty.Base.{
  ℕ, zero, suc, ◌+◌, ◌%◌, ◌^◌, ◌≤◌, ◌<◌, ◌≡◌, refl, sym, ap, ◌∙◌, false, List, [], ◌∷◌, ◌++◌, Bytes,
  ◌==◌, if◌then◌else◌, length, length-append, Bool-cases, inl, inr, Result, ok, err, undefined,
  Option, none, some, ◌>>=◌, arith,
}
use zmqpp_pty.Message.Values.{until_nul}
use zmqpp_pty.Common.{write_at}
use zmqpp_pty.Common.Buffers.{write_middle, append_one, length_one}

abbrev pub size_mod : ℕ
size_mod = 2 ^ 64

-- The loop over `strlen`.
unfoldable pub space : ℕ → List Bytes → ℕ
unfolding until_nul
space total [] = total
space total (s ∷ ss) = space ((total + length (until_nul s)) % size_mod) ss

-- Where the string in a buffer ends; there is a NUL.
unfoldable pub end_of : List ℕ → Result ℕ
end_of [] = err undefined
end_of (c ∷ buffer) = if c == 0 then ok 0 else (end_of buffer >>= λ n. ok (suc n))

-- The bytes and a NUL, from `i` on.
unfoldable pub write_string : List ℕ → ℕ → Bytes → Result (List ℕ)
write_string buffer i [] = write_at buffer i 0
write_string buffer i (c ∷ s) = write_at buffer i c >>= λ buffer'. write_string buffer' (suc i) s

unfoldable pub strcat : List ℕ → Bytes → Result (List ℕ)
unfolding end_of write_string until_nul
strcat buffer s = end_of buffer >>= λ n. write_string buffer n (until_nul s)

-- The loop over `strcat`.
unfoldable pub join_into : List ℕ → List Bytes → Result (List ℕ)
unfolding strcat
join_into buffer [] = ok buffer
join_into buffer (s ∷ ss) = strcat buffer s >>= λ buffer'. join_into buffer' ss

-- The branches on what `malloc` answered; with NULL only `perror` is called.
unfoldable pub join_allocated : Option (List ℕ) → List Bytes → Result (Option (List ℕ))
unfolding join_into
join_allocated none ss = ok none
join_allocated (some memory) ss =
    write_at memory 0 0 >>= λ result. join_into result ss >>= λ whole. ok (some whole)

unfoldable pub ccmsg : (ℕ → Option (List ℕ)) → List Bytes → Result (Option (List ℕ))
unfolding space join_allocated
ccmsg malloc ss = join_allocated (malloc (space 1 ss)) ss

-- The text that `printd` prints after its prefix; NULL is no argument for `%s`.
abbrev pub print : Option (List ℕ) → Result Bytes
print none = err undefined
print (some result) = ok (until_nul result)

unfoldable pub printd : (ℕ → Option (List ℕ)) → List Bytes → Result Bytes
unfolding ccmsg until_nul
printd malloc ss = ccmsg malloc ss >>= print

abbrev pub joined : List Bytes → Bytes
joined [] = []
joined (s ∷ ss) = until_nul s ++ joined ss

abbrev NulFree : Bytes → Type 0
NulFree [] = Unit
NulFree (c ∷ s) = ((c == 0) ≡ false) × NulFree s

until_nul-NulFree : (s : Bytes) → NulFree (until_nul s)
unfolding until_nul
until_nul-NulFree [] = tt
until_nul-NulFree (c ∷ s) = elim (Bool-cases (c == 0)) [
  | inl e ↦ rw e tt
  | inr e ↦ rw (e, until_nul) (e, until_nul-NulFree s)
]

append-NulFree : (s t : Bytes) → NulFree s → NulFree t → NulFree (s ++ t)
append-NulFree [] t a b = b
append-NulFree (c ∷ s) t a b = (a.0, append-NulFree s t a.1 b)

joined-NulFree : (ss : List Bytes) → NulFree (joined ss)
joined-NulFree [] = tt
joined-NulFree (s ∷ ss) =
    append-NulFree (until_nul s) (joined ss) (until_nul-NulFree s) (joined-NulFree ss)

end_of-NulFree : (s : Bytes) (rest : List ℕ) → NulFree s → end_of (s ++ 0 ∷ rest) ≡ ok (length s)
unfolding end_of
end_of-NulFree [] rest h = refl
end_of-NulFree (c ∷ s) rest h = rw (h.0, end_of-NulFree s rest h.1) refl

until_nul-append : (s : Bytes) (rest : List ℕ) → NulFree s → until_nul (s ++ 0 ∷ rest) ≡ s
unfolding until_nul
until_nul-append [] rest h = refl
until_nul-append (c ∷ s) rest h = rw h.0 (ap (◌∷◌ c) (until_nul-append s rest h.1))

write_string_gap :
    (done old rest : List ℕ) (s : Bytes)
    → length old ≡ suc (length s)
    → write_string (done ++ (old ++ rest)) (length done) s ≡ ok (done ++ (s ++ 0 ∷ rest))
unfolding write_string
write_string_gap done [] rest s e = absurd (omega arith)
write_string_gap done (o ∷ []) rest [] e = write_middle done o rest 0
write_string_gap done (o ∷ p ∷ old) rest [] e = absurd (omega arith)
write_string_gap done (o ∷ old) rest (c ∷ s) e = rw (write_middle done o (old ++ rest) c) (
    ap (λ xs. write_string xs (suc (length done)) s) (append_one done c (old ++ rest))
    ∙ ap (λ n. write_string ((done ++ c ∷ []) ++ (old ++ rest)) n s) (sym (length_one done c))
    ∙ write_string_gap (done ++ c ∷ []) old rest s (omega arith)
    ∙ ap ok (sym (append_one done c (s ++ 0 ∷ rest))))

split_at :
    (n : ℕ) (xs : List ℕ)
    → n ≤ length xs
    → (a : List ℕ) × (b : List ℕ) × (xs ≡ a ++ b) × (length a ≡ n)
split_at zero xs h = ([], xs, refl, refl)
split_at (suc n) [] h = absurd (omega arith)
split_at (suc n) (x ∷ xs) h =
    let (a, b, e, l) = split_at n xs (omega arith) in (x ∷ a, b, ap (◌∷◌ x) e, ap suc l)

strcat_step :
    (done gap g₁ g₂ : List ℕ) (s : Bytes)
    → NulFree done
    → gap ≡ g₁ ++ g₂
    → length g₁ ≡ length (until_nul s)
    → strcat (done ++ 0 ∷ gap) s ≡ ok (done ++ (until_nul s ++ 0 ∷ g₂))
unfolding strcat
strcat_step done gap g₁ g₂ s free split l = rw (end_of-NulFree done gap free) (
    ap (λ g. write_string (done ++ 0 ∷ g) (length done) (until_nul s)) split
    ∙ write_string_gap done (0 ∷ g₁) g₂ (until_nul s) (ap suc l))

join_gap :
    (done gap : List ℕ) (ss : List Bytes)
    → NulFree done
    → length gap ≡ length (joined ss)
    → join_into (done ++ 0 ∷ gap) ss ≡ ok (done ++ (joined ss ++ 0 ∷ []))
unfolding join_into strcat
join_gap done [] [] free e = refl
join_gap done (g ∷ gap) [] free e = absurd (omega arith)
join_gap done gap (s ∷ ss) free e =
    let u = until_nul s in
    let whole = length-append u (joined ss) in
    let (g₁, g₂, split, l) = split_at (length u) gap (omega (arith, whole)) in
    let parts = ap length split ∙ length-append g₁ g₂ in
    ap (λ r. r >>= λ b. join_into b ss) (strcat_step done gap g₁ g₂ s free split l)
    ∙ ap (λ b. join_into b ss) (sym (append_assoc done u (0 ∷ g₂)))
    ∙ join_gap (done ++ u) g₂ ss (append-NulFree done u free (until_nul-NulFree s))
        (omega (arith, whole, parts))
    ∙ ap ok (
        append_assoc done u (joined ss ++ 0 ∷ [])
        ∙ ap (◌++◌ done) (sym (append_assoc u (joined ss) (0 ∷ []))))

space_lem :
    (ss : List Bytes) (t : ℕ)
    → t + length (joined ss) < size_mod
    → space t ss ≡ t + length (joined ss)
unfolding space
space_lem [] t h = omega arith
space_lem (s ∷ ss) t h =
    let whole = length-append (until_nul s) (joined ss) in
    let fits : (t + length (until_nul s)) % size_mod ≡ t + length (until_nul s) =
      omega (arith, whole) in
    rw fits (space_lem ss (t + length (until_nul s)) (omega (arith, whole)) ∙ omega (arith, whole))

-- What is left when memory was allocated, and when it was not.
abbrev pub if_allocated {ℓ κ} : {A : Type ℓ} {B : Type κ} → Option A → B → B → B
if_allocated none b c = c
if_allocated (some m) b c = b

-- When the strings and a NUL have fewer than 2^64 bytes and memory that `malloc` answers has the size
-- asked for: `ccmsg` asks for the size of the strings and a NUL; if it gets memory it returns exactly
-- the strings one after the other and a NUL, whatever the memory held, and writes nowhere outside of
-- it, and `printd` prints that text; if `malloc` answers NULL, `ccmsg` returns NULL, and `printd` has
-- undefined behaviour, since it prints NULL as a string.
pub ccmsg-joined :
    (malloc : ℕ → Option (List ℕ)) (ss : List Bytes)
    → ((n : ℕ) (memory : List ℕ) → malloc n ≡ some memory → length memory ≡ n)
    → 1 + length (joined ss) < size_mod
    → let memory = malloc (1 + length (joined ss)) in
      (ccmsg malloc ss ≡ if_allocated memory (ok (some (joined ss ++ 0 ∷ []))) (ok none))
      × (printd malloc ss ≡ if_allocated memory (ok (joined ss)) (err undefined))
unfolding ccmsg printd join_allocated
ccmsg-joined malloc ss sized h =
    let size = space_lem ss 1 h in
    let message = ap (λ n. join_allocated (malloc n) ss) size ∙ by_answer (malloc _) refl in
    (message, ap (λ r. r >>= print) message ∙ printed (malloc _))
  where
    started :
        (memory : List ℕ)
        → length memory ≡ 1 + length (joined ss)
        → (write_at memory 0 0 >>= λ b. join_into b ss >>= λ whole. ok (some whole))
          ≡ ok (some (joined ss ++ 0 ∷ []))
    started [] e = absurd (omega arith)
    started (x ∷ gap) e =
        ap (λ r. r >>= λ b. join_into b ss >>= λ whole. ok (some whole)) (write_middle [] x gap 0)
        ∙ ap (λ r. r >>= λ whole. ok (some whole)) (join_gap [] gap ss tt (omega arith))

    by_answer :
        (answer : Option (List ℕ))
        → malloc (1 + length (joined ss)) ≡ answer
        → join_allocated answer ss ≡ if_allocated answer (ok (some (joined ss ++ 0 ∷ []))) (ok none)
    by_answer none e = refl
    by_answer (some memory) e = started memory (sized _ memory e)

    printed :
        (answer : Option (List ℕ))
        → (if_allocated answer (ok (some (joined ss ++ 0 ∷ []))) (ok none) >>= print)
          ≡ if_allocated answer (ok (joined ss)) (err undefined)
    printed none = refl
    printed (some memory) = ap ok (until_nul-append (joined ss) [] (joined-NulFree ss))
