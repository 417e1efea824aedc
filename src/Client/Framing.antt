-- ===== src/Client/Framing.antt =====
-- The parts of a message, as lines.
use zmqpp_pty.Base.{ℕ, ◌≡◌, refl, ap, ◌∙◌, false, List, [], ◌∷◌, ◌++◌, pop_back, Bytes, ok, ◌>>=◌}
use zmqpp_pty.Client.Reading.{parts_of, with_part}

-- A part that is not empty, and the char after it.
pub record Line : Type 0 where
  pub first : ℕ
  pub more : Bytes
  pub end : ℕ

abbrev pub part_of : Line → Bytes
part_of l = l.first ∷ l.more

abbrev pub line_of : Line → Bytes
line_of l = l.first ∷ (l.more ++ l.end ∷ [])

abbrev pub all_parts : List Line → List Bytes
all_parts [] = []
all_parts (l ∷ ls) = part_of l ∷ all_parts ls

abbrev pub all_lines : List Line → List Bytes → List Bytes
all_lines [] rest = rest
all_lines (l ∷ ls) rest = line_of l ∷ all_lines ls rest

pop_end : (xs : Bytes) (c : ℕ) → pop_back (xs ++ c ∷ []) ≡ xs
pop_end [] c = refl
pop_end (x ∷ []) c = refl
pop_end (x ∷ y ∷ xs) c = ap (◌∷◌ x) (pop_end (y ∷ xs) c)

parts_of-line :
    (c : ℕ) (more : Bytes) (z : ℕ) (lines : List Bytes)
    → parts_of false ((c ∷ (more ++ z ∷ [])) ∷ lines)
      ≡ (parts_of false lines >>= λ r. ok (with_part (c ∷ more) r))
unfolding parts_of
parts_of-line c [] z lines = refl
parts_of-line c (d ∷ ds) z lines =
    ap (λ p. parts_of false lines >>= λ r. ok (with_part p r)) (pop_end (c ∷ d ∷ ds) z)

parts_of_rest :
    (ls : List Line) (lines rest : List Bytes)
    → parts_of false lines ≡ ok ([], rest)
    → parts_of false (all_lines ls lines) ≡ ok (all_parts ls, rest)
parts_of_rest [] lines rest e = e
parts_of_rest (l ∷ ls) lines rest e =
    parts_of-line l.first l.more l.end (all_lines ls lines)
    ∙ ap (λ x. x >>= λ r. ok (with_part (part_of l) r)) (parts_of_rest ls lines rest e)

-- Without `singlepart`, lines of at least two chars, up to a line of one char or to the end of the
-- input, are read as the parts of one message: each line without its last char, whatever that char
-- is; the lines after the short one are left for the next message.
pub parts_of-lines :
    (ls : List Line) (z : ℕ) (rest : List Bytes)
    → (parts_of false (all_lines ls ((z ∷ []) ∷ rest)) ≡ ok (all_parts ls, rest))
      × (parts_of false (all_lines ls []) ≡ ok (all_parts ls, []))
unfolding parts_of
parts_of-lines ls z rest =
    (parts_of_rest ls ((z ∷ []) ∷ rest) rest refl, parts_of_rest ls [] [] refl)
