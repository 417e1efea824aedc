-- ===== src/Socket/Options/RoundTrip.antt =====
-- Setting an option and reading it back.
use Prim.Native.String.{String}
use zmqpp_pty.Base.{
  ℕ, Bool, true, false, not, ◌&&◌, List, [], ◌∷◌, ℤ, pos, negsuc, Bytes, ◌==◌, ==_iff,
  if◌then◌else◌, ◌≡◌, refl, ◌∙◌, ok, arith, Bool-cases, inl, inr,
}
use zmqpp_pty.Message.Values.{until_nul}
use zmqpp_pty.Socket.Options.{SocketOption, Payload, Sort, sort_of, Setting}
use zmqpp_pty.Socket.Options.Enumeration.{every}
use zmqpp_pty.Socket.Options.Getters.{
  Source, filled, is_int_get, is_bool_get, is_uint64_get, is_int64_get, is_string_get, get_int,
  get_bool, get_uint64, get_int64, get_string, get_c_string, int_of, bool_of, uint64_of, int64_of,
  c_string_of,
}
use zmqpp_pty.Socket.Options.Setters.{
  Net, IntCase, int_case, is_bool_case, is_uint64_case, is_int64_case, is_string_case, set_int,
  set_bool, set_uint64, set_int64, set_string, set_int_case, set_boolean, call, refuse, is_tristate,
  is_negative,
}

-- libzmq answers what it was last given, when it is asked with the same C type.
abbrev pub AllKept : Source → List (SocketOption × Payload) → Type 0
AllKept src [] = Unit
AllKept src (c ∷ cs) = (src c.0 (sort_of c.1) ≡ filled c.1) × AllKept src cs

-- A setter that succeeds, and a libzmq that keeps what it was given.
abbrev pub IsKept : Source → Setting → Type 0
IsKept src s = (s.result ≡ ok tt) × AllKept src s.calls

-- The labels under which the overload for `int` calls another overload with a wider type.
is_wide : IntCase → Bool
is_wide IntCase.unsigned_64 = true
is_wide IntCase.signed_64 = true
is_wide _ = false

int_get_test : SocketOption → Bool
unfolding is_int_get int_case is_wide
int_get_test o = if is_int_get o then not (is_wide (int_case o)) else true

narrow : (o : SocketOption) → is_int_get o ≡ true → is_wide (int_case o) ≡ false
unfolding int_get_test
narrow o h = let t : int_get_test o ≡ true = every int_get_test refl o in ground arith

wide_test : SocketOption → Bool
unfolding is_uint64_case is_int64_case is_uint64_get is_int64_get
wide_test o =
    (if is_uint64_case o then is_uint64_get o else true)
    && (if is_int64_case o then is_int64_get o else true)

uint64_readable : (o : SocketOption) → is_uint64_case o ≡ true → is_uint64_get o ≡ true
unfolding wide_test
uint64_readable o h = let t : wide_test o ≡ true = every wide_test refl o in ground arith

int64_readable : (o : SocketOption) → is_int64_case o ≡ true → is_int64_get o ≡ true
unfolding wide_test
int64_readable o h = let t : wide_test o ≡ true = every wide_test refl o in ground arith

abbrev boolean_refusal : String
boolean_refusal = "attempting to set a boolean option with a non 0 or 1 integer"

module _ (net : Net) (src : Source) (o : SocketOption) where
  kept_if :
      (t : Bool) (p : Payload) (why : String)
      → IsKept src (if t then call net o p else refuse why)
      → (t ≡ true) × (src o (sort_of p) ≡ filled p)
  unfolding call
  kept_if true p why h = (refl, h.1.0)
  kept_if false p why h = ground arith

  kept_unless :
      (t : Bool) (p : Payload) (why : String)
      → IsKept src (if t then refuse why else call net o p)
      → src o (sort_of p) ≡ filled p
  unfolding call
  kept_unless true p why h = ground arith
  kept_unless false p why h = h.1.0

  neither : (t : Bool) (a b : String) → IsKept src (if t then refuse a else refuse b) → ⊥
  neither true a b h = ground arith
  neither false a b h = ground arith

  kept_bool :
      (b : Bool)
      → IsKept src (set_bool net o b)
      → src o Sort.int ≡ filled (Payload.int (if b then pos 1 else pos 0))
  unfolding set_bool
  kept_bool b h = (kept_if (is_bool_case o) _ _ h).1

  read_bool : (b : Bool) → bool_of (filled (Payload.int (if b then pos 1 else pos 0))) ≡ ok b
  unfolding bool_of
  read_bool true = refl
  read_bool false = refl

  -- If the setter for `bool` succeeds and libzmq keeps what it is given, the getter for `bool`
  -- returns it, on the options that this getter takes.
  pub get_bool-set_bool :
      (b : Bool) → IsKept src (set_bool net o b) → is_bool_get o ≡ true → get_bool src o ≡ ok b
  unfolding get_bool
  get_bool-set_bool b h g = rw (g, kept_bool b h) (read_bool b)

  -- If the setter for `bool` succeeds and libzmq keeps what it is given, the getter for `int`
  -- returns 1 or 0 for it, on the options that this getter takes.
  pub get_int-set_bool :
      (b : Bool)
      → IsKept src (set_bool net o b)
      → is_int_get o ≡ true
      → get_int src o ≡ ok (if b then pos 1 else pos 0)
  unfolding get_int int_of
  get_int-set_bool b h g = rw (g, kept_bool b h) refl

  kept_uint64 :
      (n : ℕ)
      → IsKept src (set_uint64 net o n)
      → (is_uint64_case o ≡ true) × (src o Sort.uint64 ≡ filled (Payload.uint64 n))
  unfolding set_uint64
  kept_uint64 n h = kept_if (is_uint64_case o) _ _ h

  kept_int64 :
      (z : ℤ)
      → IsKept src (set_int64 net o z)
      → (is_int64_case o ≡ true) × (src o Sort.int64 ≡ filled (Payload.int64 z))
  unfolding set_int64
  kept_int64 (pos n) h = kept_if (is_int64_case o) _ _ h
  kept_int64 (negsuc n) h = absurd (neither (is_int64_case o) _ _ h)

  kept_string :
      (bs : Bytes)
      → IsKept src (set_string net o bs)
      → (is_string_case o ≡ true) × (src o Sort.bytes ≡ filled (Payload.bytes bs))
  unfolding set_string
  kept_string bs h = kept_if (is_string_case o) _ _ h

  kept_boolean :
      (z : ℤ) → IsKept src (set_boolean net o z) → src o Sort.int ≡ filled (Payload.int z)
  unfolding set_boolean
  kept_boolean (negsuc n) h = ground arith
  kept_boolean (pos n) h = elim (Bool-cases (n == 0)) [
    | inl e ↦ rw ((==_iff n 0).0 e) (kept_bool false (rw e at h))
    | inr e ↦ elim (Bool-cases (n == 1)) [
      | inl d ↦ rw ((==_iff n 1).0 d) (kept_bool true (rw (e, d) at h))
      | inr d ↦ absurd (neither true boolean_refusal boolean_refusal (rw (e, d) at h))
    ]
  ]

  kept_int :
      (z : ℤ) (c : IntCase)
      → is_wide c ≡ false
      → IsKept src (set_int_case net o z c)
      → src o Sort.int ≡ filled (Payload.int z)
  unfolding set_int_case is_wide
  kept_int z IntCase.unsigned_64 w h = ground arith
  kept_int z IntCase.signed_64 w h = ground arith
  kept_int z IntCase.boolean w h = kept_boolean z h
  kept_int z IntCase.default_or_boolean w h = (kept_if (is_tristate z) _ _ h).1
  kept_int z IntCase.positive w h = kept_unless (is_negative z) _ _ h
  kept_int z IntCase.integer w h = (kept_if true _ "" h).1
  kept_int z IntCase.other w h = ground arith

  -- If the setter for `int` succeeds and libzmq keeps what it is given, then the getter for `int`
  -- returns it, on the options that it takes.
  pub get_int-set_int :
      (z : ℤ) → IsKept src (set_int net o z) → is_int_get o ≡ true → get_int src o ≡ ok z
  unfolding set_int get_int int_of
  get_int-set_int z h g = rw (g, kept_int z (int_case o) (narrow o g) h) refl

  -- If the setter for 64-bit unsigned integers succeeds and libzmq keeps what it is given, the
  -- getter of that type takes the option and returns the value.
  pub get_uint64-set_uint64 : (n : ℕ) → IsKept src (set_uint64 net o n) → get_uint64 src o ≡ ok n
  unfolding get_uint64 uint64_of
  get_uint64-set_uint64 n h = let k = kept_uint64 n h in rw (uint64_readable o k.0, k.1) refl

  -- If the setter for 64-bit signed integers succeeds and libzmq keeps what it is given, the getter
  -- of that type takes the option and returns the value.
  pub get_int64-set_int64 : (z : ℤ) → IsKept src (set_int64 net o z) → get_int64 src o ≡ ok z
  unfolding get_int64 int64_of
  get_int64-set_int64 z h = let k = kept_int64 z h in rw (int64_readable o k.0, k.1) refl

get_string_cut :
    (src : Source) (o : SocketOption)
    → is_string_get o ≡ true
    → get_string src o ≡ get_c_string src o
unfolding get_string is_string_get
get_string_cut src SocketOption.identity h = ground arith
get_string_cut src o h = refl

-- If the setter for strings succeeds and libzmq keeps what it is given, the getter for strings
-- returns the value up to its first NUL, on the options that it takes other than the identity.
pub get_string-set_string :
    (net : Net) (src : Source) (o : SocketOption) (bs : Bytes)
    → IsKept src (set_string net o bs)
    → is_string_get o ≡ true
    → get_string src o ≡ ok (until_nul bs)
unfolding get_c_string c_string_of
get_string-set_string net src o bs h g =
    get_string_cut src o g ∙ rw (g, (kept_string net src o bs h).1) refl
