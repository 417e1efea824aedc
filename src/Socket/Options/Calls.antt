-- ===== src/Socket/Options/Calls.antt =====
-- The calls of libzmq that the overloads of `set` and `get` make.
use Prim.Native.String.{String}
use zmqpp_pty.Base.{
  ℕ, Bool, true, false, ℤ, pos, negsuc, Bytes, ◌==◌, if◌then◌else◌, ◌≡◌, ◌≢◌, refl, ap, [], ◌∷◌, ok,
  err, Error, exception, zmq_internal, arith, Result,
}
use native.Mathlib.Decide.{ℕ_discrete}
use zmqpp_pty.Socket.Options.{SocketOption, Payload, Sort, sort_of, Setting}
use zmqpp_pty.Socket.Options.Getters.{
  Source, Filled, is_int_get, is_bool_get, is_uint64_get, is_int64_get, is_string_get, get_int,
  get_bool, get_uint64, get_int64, get_string, get_c_string, int_of, bool_of, uint64_of, int64_of,
  c_string_of, bytes_of,
}
use zmqpp_pty.Socket.Options.Setters.{
  Net, IntCase, int_case, is_bool_case, is_uint64_case, is_int64_case, is_string_case, set_int,
  set_bool, set_uint64, set_int64, set_string, set_int_case, set_boolean, set_unsigned, call,
  accept_or_throw, refuse, is_tristate, is_negative,
}
use zmqpp_pty.Socket.Options.Sorts.{
  sort, is_int_label, int_label-sort, bool_case-sort, uint64_case-sort, int64_case-sort,
  string_case-sort, int_get-sort, bool_get-sort, uint64_get-sort, int64_get-sort, string_get-sort,
}

-- Either an exception is thrown and libzmq is not called, or it is called once, for the option and
-- with a value of its C type. The call returns when libzmq answers 0, and throws any other answer.
pub data IsSetting (net : Net) (o : SocketOption) (s : Setting) : Type 0 where
  refused : (why : String) → s.calls ≡ [] → s.result ≡ err (exception why) → IsSetting net o s
  accepted :
      (p : Payload)
      → sort_of p ≡ sort o
      → s.calls ≡ (o, p) ∷ []
      → net o p ≡ 0
      → s.result ≡ ok tt
      → IsSetting net o s
  failed :
      (p : Payload)
      → sort_of p ≡ sort o
      → s.calls ≡ (o, p) ∷ []
      → net o p ≢ 0
      → s.result ≡ err (zmq_internal (net o p))
      → IsSetting net o s

refuse-IsSetting : (net : Net) (o : SocketOption) (why : String) → IsSetting net o (refuse why)
refuse-IsSetting net o why = refused why refl refl

call-IsSetting :
    (net : Net) (o : SocketOption) (p : Payload)
    → sort_of p ≡ sort o
    → IsSetting net o (call net o p)
unfolding call accept_or_throw
call-IsSetting net o p h = elim (ℕ_discrete (net o p) 0) [
  | yes e ↦ accepted p h refl e (ground arith)
  | no n ↦ failed p h refl n (ground arith)
]

module _ (net : Net) (o : SocketOption) where
  if-called :
      (t : Bool) (p : Payload) (why : String)
      → (t ≡ true → sort_of p ≡ sort o)
      → IsSetting net o (if t then call net o p else refuse why)
  if-called true p why h = call-IsSetting net o p (h refl)
  if-called false p why h = refuse-IsSetting net o why

  if-refused :
      (t : Bool) (p : Payload) (why : String)
      → sort_of p ≡ sort o
      → IsSetting net o (if t then refuse why else call net o p)
  if-refused true p why h = refuse-IsSetting net o why
  if-refused false p why h = call-IsSetting net o p h

  either-refused : (t : Bool) (a b : String) → IsSetting net o (if t then refuse a else refuse b)
  either-refused true a b = refuse-IsSetting net o a
  either-refused false a b = refuse-IsSetting net o b

  either :
      (t : Bool) (a b : Setting)
      → IsSetting net o a
      → IsSetting net o b
      → IsSetting net o (if t then a else b)
  either true a b x y = x
  either false a b x y = y

  set_bool-IsSetting : (b : Bool) → IsSetting net o (set_bool net o b)
  unfolding set_bool
  set_bool-IsSetting b = if-called (is_bool_case o) _ _ (bool_case-sort o)

  set_uint64-IsSetting : (n : ℕ) → IsSetting net o (set_uint64 net o n)
  unfolding set_uint64
  set_uint64-IsSetting n = if-called (is_uint64_case o) _ _ (uint64_case-sort o)

  set_int64-IsSetting : (z : ℤ) → IsSetting net o (set_int64 net o z)
  unfolding set_int64
  set_int64-IsSetting (pos n) = if-called (is_int64_case o) _ _ (int64_case-sort o)
  set_int64-IsSetting (negsuc n) = either-refused (is_int64_case o) _ _

  set_string-IsSetting : (bs : Bytes) → IsSetting net o (set_string net o bs)
  unfolding set_string
  set_string-IsSetting bs = if-called (is_string_case o) _ _ (string_case-sort o)

  set_boolean-IsSetting : (z : ℤ) → IsSetting net o (set_boolean net o z)
  unfolding set_boolean
  set_boolean-IsSetting (negsuc n) = refuse-IsSetting net o _
  set_boolean-IsSetting (pos n) =
      either (n == 0) _ _ (set_bool-IsSetting false)
        (either (n == 1) _ _ (set_bool-IsSetting true) (refuse-IsSetting net o _))

  set_unsigned-IsSetting : (z : ℤ) → IsSetting net o (set_unsigned net o z)
  unfolding set_unsigned
  set_unsigned-IsSetting (pos n) = set_uint64-IsSetting n
  set_unsigned-IsSetting (negsuc n) = refuse-IsSetting net o _

  set_int_case-IsSetting :
      (z : ℤ) (c : IntCase)
      → (is_int_label c ≡ true → Sort.int ≡ sort o)
      → IsSetting net o (set_int_case net o z c)
  unfolding set_int_case is_int_label
  set_int_case-IsSetting z IntCase.unsigned_64 h = set_unsigned-IsSetting z
  set_int_case-IsSetting z IntCase.signed_64 h = set_int64-IsSetting z
  set_int_case-IsSetting z IntCase.boolean h = set_boolean-IsSetting z
  set_int_case-IsSetting z IntCase.default_or_boolean h =
      if-called (is_tristate z) _ _ (λ e. h refl)
  set_int_case-IsSetting z IntCase.positive h = if-refused (is_negative z) _ _ (h refl)
  set_int_case-IsSetting z IntCase.integer h = call-IsSetting net o _ (h refl)
  set_int_case-IsSetting z IntCase.other h = refuse-IsSetting net o _

  set_int-IsSetting : (z : ℤ) → IsSetting net o (set_int net o z)
  unfolding set_int
  set_int-IsSetting z = set_int_case-IsSetting z (int_case o) (int_label-sort o)

  -- Every overload of `set`, for every option and value, either throws an exception without a call
  -- of libzmq, or calls it once, for that option with a value of the option's one C type. After a
  -- call it returns when libzmq answers 0, and throws the answer of libzmq when it is another.
  pub set-IsSetting :
      (z w : ℤ) (b : Bool) (n : ℕ) (bs : Bytes)
      → IsSetting net o (set_int net o z)
        × IsSetting net o (set_bool net o b)
        × IsSetting net o (set_uint64 net o n)
        × IsSetting net o (set_int64 net o w)
        × IsSetting net o (set_string net o bs)
  set-IsSetting z w b n bs = (
    set_int-IsSetting z,
    set_bool-IsSetting b,
    set_uint64-IsSetting n,
    set_int64-IsSetting w,
    set_string-IsSetting bs,
  )

module _ (src other : Source) (o : SocketOption) (same : src o (sort o) ≡ other o (sort o)) where
  if-same {ℓ} :
      {A : Type ℓ} (t : Bool) (f : Filled → Result A) (s : Sort) (e : Error)
      → (t ≡ true → s ≡ sort o)
      → (if t then f (src o s) else err e) ≡ (if t then f (other o s) else err e)
  if-same true f s e h = ap f (rw (h refl) same)
  if-same false f s e h = refl

  get_int-same : get_int src o ≡ get_int other o
  unfolding get_int
  get_int-same = if-same (is_int_get o) int_of Sort.int _ (int_get-sort o)

  get_bool-same : get_bool src o ≡ get_bool other o
  unfolding get_bool
  get_bool-same = if-same (is_bool_get o) bool_of Sort.int _ (bool_get-sort o)

  get_uint64-same : get_uint64 src o ≡ get_uint64 other o
  unfolding get_uint64
  get_uint64-same = if-same (is_uint64_get o) uint64_of Sort.uint64 _ (uint64_get-sort o)

  get_int64-same : get_int64 src o ≡ get_int64 other o
  unfolding get_int64
  get_int64-same = if-same (is_int64_get o) int64_of Sort.int64 _ (int64_get-sort o)

  get_c_string-same : get_c_string src o ≡ get_c_string other o
  unfolding get_c_string
  get_c_string-same = if-same (is_string_get o) c_string_of Sort.bytes _ (string_get-sort o)

identity-sort : Sort.bytes ≡ sort SocketOption.identity
unfolding is_uint64_case is_int64_case is_string_case
identity-sort = refl

get_string-same :
    (src other : Source) (o : SocketOption)
    → src o (sort o) ≡ other o (sort o)
    → get_string src o ≡ get_string other o
unfolding get_string
get_string-same src other SocketOption.identity same = ap bytes_of (rw (identity-sort) same)
get_string-same src other o same = get_c_string-same src other o same

-- What each overload of `get` returns or throws depends only on what libzmq answers for that
-- option when it is asked with the option's one C type.
pub get-same :
    (src other : Source) (o : SocketOption)
    → src o (sort o) ≡ other o (sort o)
    → (get_int src o ≡ get_int other o)
      × (get_bool src o ≡ get_bool other o)
      × (get_uint64 src o ≡ get_uint64 other o)
      × (get_int64 src o ≡ get_int64 other o)
      × (get_string src o ≡ get_string other o)
get-same src other o same = (
  get_int-same src other o same,
  get_bool-same src other o same,
  get_uint64-same src other o same,
  get_int64-same src other o same,
  get_string-same src other o same,
)
