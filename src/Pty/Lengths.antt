-- ===== src/Pty/Lengths.antt =====
-- Where the helpers of zmq_pty_client.cpp stop in a string.
use zmqpp_pty.Base.{
  ℕ, zero, suc, ◌+◌, ◌≤◌, ◌<◌, ◌≡◌, ◌≢◌, ap, sym, ◌∙◌, inl, inr, some, Bytes, false, ◌==◌, length,
  get_elem?, get_elem?-lt, Bool-cases, Option-cases, ==_iff, arith,
}
use native.Mathlib.Decide.{dec_lt}
use zmqpp_pty.Pty.{scan, length_to_null, length_to_lf}

-- `n` is where the first `stop` stands, or the size if there is none.
pub record IsFirst (stop : ℕ) (s : Bytes) (n : ℕ) : Type 0 where
  pub within : n ≤ length s
  pub before : (j : ℕ) → j < n → get_elem? s j ≢ some stop
  pub there : n < length s → get_elem? s n ≡ some stop

extended :
    (stop : ℕ) (s : Bytes) (i : ℕ) {c : ℕ}
    → ((j : ℕ) → j < i → get_elem? s j ≢ some stop)
    → get_elem? s i ≡ some c
    → (c == stop) ≡ false
    → (j : ℕ) → j < i + 1
    → get_elem? s j ≢ some stop
extended stop s i {c} before here other j lt e = elim (dec_lt j i) [
  | yes earlier ↦ before j earlier e
  | no last ↦ differs (here' (omega arith))
]
  where
    here' : j ≡ i → some c ≡ some stop
    here' q = sym here ∙ ap (get_elem? s) (sym q) ∙ e

    differs : some c ≡ some stop → ⊥
    differs q = ground arith

scan-IsFirst :
    (left : ℕ) (s : Bytes) (stop i : ℕ)
    → i + left ≡ length s
    → ((j : ℕ) → j < i → get_elem? s j ≢ some stop)
    → IsFirst stop s (scan left s stop i)
unfolding scan
scan-IsFirst zero s stop i e before = record {
  within = omega arith;
  before = before;
  there = λ lt. absurd (omega arith);
}
scan-IsFirst (suc left) s stop i e before = elim (Option-cases (get_elem? s i)) [
  | inl gone ↦
      rw (gone, scan)
        (record {
          within = omega arith;
          before = before;
          there = λ lt. let (c, here) = get_elem?-lt s i lt in cc;
        })
  | inr (c, here) ↦ elim (Bool-cases (c == stop)) [
    | inl found ↦
        rw (here, scan, found)
          (record {
            within = omega arith;
            before = before;
            there = λ lt. here ∙ ap some ((==_iff c stop).0 found);
          })
    | inr other ↦
        rw (here, scan, other)
          (scan-IsFirst left s stop (i + 1) (omega arith) (extended stop s i before here other))
  ]
]

-- Each helper answers the position of the first NUL, or of the first line feed, and the size of the
-- string if there is none: no byte before it is the one that is looked for.
pub length_to-IsFirst :
    (s : Bytes) → IsFirst 0 s (length_to_null s) × IsFirst b'\n' s (length_to_lf s)
unfolding length_to_null length_to_lf
length_to-IsFirst s = (
  scan-IsFirst (length s) s 0 0 (omega arith) (λ j lt. absurd (omega arith)),
  scan-IsFirst (length s) s b'\n' 0 (omega arith) (λ j lt. absurd (omega arith)),
)
