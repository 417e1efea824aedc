-- ===== src/Zap/Metadata.antt =====
-- The metadata of a reply, against a decoder written from RFC 27.
use zmqpp_pty.Base.{
  ℕ, zero, suc, ◌^◌, ◌<◌, ◌≤◌, ◌≡◌, refl, ap, ◌∙◌, sym, true, List, [], ◌∷◌, ◌++◌, Bytes, Option,
  none, some, length, length-append, ltb, ok, arith,
}
use zmqpp_pty.Inet.Memory.{Order, be_bytes, be_value, be_value-be_bytes, length-be_bytes}
use zmqpp_pty.Inet.Wire.{store-htonl}
use zmqpp_pty.Zap.{serialize_pair, serialize_metadata}

-- The first `n` bytes and the rest.
unfoldable pub split_at : ℕ → Bytes → Option (Bytes × Bytes)
split_at zero bs = some ([], bs)
split_at (suc n) [] = none
split_at (suc n) (x ∷ bs) = elim (split_at n bs) [ none ↦ none | some p ↦ some (x ∷ p.0, p.1) ]

split_at-append : (xs ys : Bytes) → split_at (length xs) (xs ++ ys) ≡ some (xs, ys)
unfolding split_at
split_at-append [] ys = refl
split_at-append (x ∷ xs) ys = rw (split_at-append xs ys) refl

-- A name of up to 255 bytes, then a value whose length is four bytes in network order.
value_of : Bytes → Option (Bytes × Bytes) → Option ((Bytes × Bytes) × Bytes)
value_of name none = none
value_of name (some p) = some ((name, p.0), p.1)

length_of : Bytes → Option (Bytes × Bytes) → Option ((Bytes × Bytes) × Bytes)
unfolding value_of split_at be_value
length_of name none = none
length_of name (some p) = value_of name (split_at (be_value p.0) p.1)

name_of : Option (Bytes × Bytes) → Option ((Bytes × Bytes) × Bytes)
unfolding length_of split_at
name_of none = none
name_of (some p) = length_of p.0 (split_at 4 p.1)

decode_pair : Bytes → Option ((Bytes × Bytes) × Bytes)
unfolding name_of split_at
decode_pair [] = none
decode_pair (n ∷ bs) = name_of (split_at n bs)

decode_rest : Bytes × Bytes → Option (List (Bytes × Bytes)) → Option (List (Bytes × Bytes))
decode_rest p none = none
decode_rest p (some ps) = some (p ∷ ps)

-- Each pair takes at least five bytes, so the number of bytes is fuel enough.
decode_loop : ℕ → Bytes → Option (List (Bytes × Bytes))
unfolding decode_pair decode_rest
decode_loop k [] = some []
decode_loop zero (b ∷ bs) = none
decode_loop (suc k) (b ∷ bs) = elim (decode_pair (b ∷ bs)) [
  | none ↦ none
  | some p ↦ decode_rest p.0 (decode_loop k p.1)
]

unfoldable pub decode : Bytes → Option (List (Bytes × Bytes))
unfolding decode_loop
decode bs = decode_loop (length bs) bs

-- The lengths that the source asserts.
abbrev pub AllFit : List (Bytes × Bytes) → Type 0
AllFit [] = Unit
AllFit (p ∷ ps) = ((length p.0 < 256) × (length p.1 < 2 ^ 32)) × AllFit ps

abbrev pair_bytes : Bytes × Bytes → Bytes
pair_bytes p = length p.0 ∷ (p.0 ++ (be_bytes 4 (length p.1) ++ p.1))

abbrev encoded : List (Bytes × Bytes) → Bytes
encoded [] = []
encoded (p ∷ ps) = pair_bytes p ++ encoded ps

serialize_pair-bytes :
    (o : Order) (p : Bytes × Bytes)
    → length p.0 < 256
    → length p.1 < 2 ^ 32
    → serialize_pair o p ≡ ok (pair_bytes p)
unfolding serialize_pair
serialize_pair-bytes o p h l =
    let name : ltb (length p.0) 256 ≡ true = ground arith in
    let value : ltb (length p.1) (2 ^ 32) ≡ true = ground arith in
    rw (name, value, store-htonl o (length p.1)) refl

serialize_metadata-encoded :
    (o : Order) (ps : List (Bytes × Bytes)) → AllFit ps → serialize_metadata o ps ≡ ok (encoded ps)
unfolding serialize_metadata
serialize_metadata-encoded o [] h = refl
serialize_metadata-encoded o (p ∷ ps) h =
    rw (serialize_pair-bytes o p h.0.0 h.0.1, serialize_metadata-encoded o ps h.1) refl

append_four : (a b c d : Bytes) → (a ++ (b ++ c)) ++ d ≡ a ++ (b ++ (c ++ d))
append_four [] [] c d = refl
append_four [] (x ∷ b) c d = ap (◌∷◌ x) (append_four [] b c d)
append_four (x ∷ a) b c d = ap (◌∷◌ x) (append_four a b c d)

split_length :
    (n : ℕ) (rest : Bytes) → split_at 4 (be_bytes 4 n ++ rest) ≡ some (be_bytes 4 n, rest)
split_length n rest =
    ap (λ k. split_at k (be_bytes 4 n ++ rest)) (sym (length-be_bytes 4 n))
    ∙ split_at-append (be_bytes 4 n) rest

decode_pair-bytes :
    (p : Bytes × Bytes) (rest : Bytes)
    → length p.1 < 2 ^ 32
    → decode_pair (pair_bytes p ++ rest) ≡ some (p, rest)
unfolding decode_pair name_of length_of value_of
decode_pair-bytes p rest l =
    let value = be_value-be_bytes 4 (length p.1) l in
    rw
      (
        append_four p.0 (be_bytes 4 (length p.1)) p.1 rest,
        split_at-append p.0 (be_bytes 4 (length p.1) ++ (p.1 ++ rest)),
        split_length (length p.1) (p.1 ++ rest),
        value,
        split_at-append p.1 rest,
      )
      refl

length-encoded : (ps : List (Bytes × Bytes)) → length ps ≤ length (encoded ps)
length-encoded [] = omega arith
length-encoded (p ∷ ps) =
    let rest = length-encoded ps in omega (arith, length-append (pair_bytes p) (encoded ps), rest)

decode_loop-encoded :
    (k : ℕ) (ps : List (Bytes × Bytes))
    → length ps ≤ k
    → AllFit ps
    → decode_loop k (encoded ps) ≡ some ps
unfolding decode_loop decode_rest
decode_loop-encoded k [] h f = refl
decode_loop-encoded zero (p ∷ ps) h f = absurd (omega arith)
decode_loop-encoded (suc k) (p ∷ ps) h f =
    rw
      (
        decode_pair-bytes p (encoded ps) f.0.1,
        decode_loop,
        decode_loop-encoded k ps (omega arith) f.1,
      )
      refl

-- Metadata whose names are shorter than 256 bytes and whose values are shorter than 2^32 is
-- serialised without a failed assertion, on any host, to bytes that a decoder written from RFC 27
-- reads as the same pairs in the same order.
pub decode-serialize_metadata :
    (o : Order) (ps : List (Bytes × Bytes))
    → AllFit ps
    → (bs : Bytes) × (serialize_metadata o ps ≡ ok bs) × (decode bs ≡ some ps)
unfolding decode
decode-serialize_metadata o ps h = (
  encoded ps,
  serialize_metadata-encoded o ps h,
  decode_loop-encoded (length (encoded ps)) ps (length-encoded ps) h,
)
