-- ===== src/Common/Nibbles.antt =====
-- Half a byte and its char.
use zmqpp_pty.Base.{
  ℕ, ◌+◌, ◌-◌, ◌<◌, ◌≤◌, ◌≡◌, ◌&&◌, some, ltb, ◌==◌, if◌then◌else◌, arith, Bool-cases, inl, inr,
}
use zmqpp_pty.Common.{u8nct, rep_of, num_of, ctou8}

-- The lower-case hexadecimal digit.
unfoldable pub digit : ℕ → ℕ
digit d = if ltb d 10 then 48 + d else 87 + d

-- The value of a hexadecimal digit of either case, and 0 for any other char.
unfoldable pub value : ℕ → ℕ
value c =
    if ltb 47 c && ltb c 58
    then c - 48
    else if ltb 96 c && ltb c 103
    then c - 87
    else if ltb 64 c && ltb c 71
    then c - 55
    else 0

pub rep_of-digit : (d : ℕ) → d < 16 → rep_of 16 u8nct d ≡ some (digit d)
unfolding rep_of digit
rep_of-digit d h = ground arith

abbrev Agrees : ℕ → Type 0
Agrees c = ctou8 c ≡ (if c == 70 then 0 else value c)

ctou8_low : (c : ℕ) → c < 48 → Agrees c
unfolding ctou8 num_of value
ctou8_low c b = ground arith

ctou8_digits : (c : ℕ) → 48 ≤ c → c < 58 → Agrees c
unfolding ctou8 num_of value
ctou8_digits c a b = ground arith

ctou8_gap : (c : ℕ) → 58 ≤ c → c < 65 → Agrees c
unfolding ctou8 num_of value
ctou8_gap c a b = ground arith

ctou8_upper : (c : ℕ) → 65 ≤ c → c < 71 → Agrees c
unfolding ctou8 num_of value
ctou8_upper c a b = ground arith

ctou8_middle : (c : ℕ) → 71 ≤ c → c < 97 → Agrees c
unfolding ctou8 num_of value
ctou8_middle c a b = ground arith

ctou8_lower : (c : ℕ) → 97 ≤ c → c < 103 → Agrees c
unfolding ctou8 num_of value
ctou8_lower c a b = ground arith

ctou8_high : (c : ℕ) → 103 ≤ c → Agrees c
unfolding ctou8 num_of value
ctou8_high c a = ground arith

-- `ctou8` returns the value of every hexadecimal digit of either case except `F`, for which it
-- returns 0, as it does for every other char.
pub ctou8-value : (c : ℕ) → ctou8 c ≡ (if c == 70 then 0 else value c)
ctou8-value c = elim (Bool-cases (ltb c 48)) [
  | inl y ↦ ctou8_low c (ground arith)
  | inr n0 ↦ elim (Bool-cases (ltb c 58)) [
    | inl y ↦ ctou8_digits c (ground arith) (ground arith)
    | inr n1 ↦ elim (Bool-cases (ltb c 65)) [
      | inl y ↦ ctou8_gap c (ground arith) (ground arith)
      | inr n2 ↦ elim (Bool-cases (ltb c 71)) [
        | inl y ↦ ctou8_upper c (ground arith) (ground arith)
        | inr n3 ↦ elim (Bool-cases (ltb c 97)) [
          | inl y ↦ ctou8_middle c (ground arith) (ground arith)
          | inr n4 ↦ elim (Bool-cases (ltb c 103)) [
            | inl y ↦ ctou8_lower c (ground arith) (ground arith)
            | inr n5 ↦ ctou8_high c (ground arith)
          ]
        ]
      ]
    ]
  ]
]

pub ctou8-digit : (d : ℕ) → d < 16 → ctou8 (digit d) ≡ d
unfolding ctou8 num_of digit
ctou8-digit d h = ground arith
