-- ===== src/Socket/Options/Sorts.antt =====
-- The C types of the options: which calls of libzmq the overloads of `set` and `get` make.
use zmqpp_pty.Base.{Bool, true, false, ◌||◌, if◌then◌else◌, ◌≡◌, refl, arith}
use zmqpp_pty.Socket.Options.{SocketOption, Sort}
use zmqpp_pty.Socket.Options.Enumeration.{every}
use zmqpp_pty.Socket.Options.Getters.{
  is_int_get, is_bool_get, is_uint64_get, is_int64_get, is_string_get,
}
use zmqpp_pty.Socket.Options.Setters.{
  IntCase, int_case, is_bool_case, is_uint64_case, is_int64_case, is_string_case,
}

-- The C type of an option, by the overloads that take or return it.
abbrev pub sort : SocketOption → Sort
sort o =
    if is_uint64_case o
    then Sort.uint64
    else if is_int64_case o
    then Sort.int64
    else if is_string_case o || is_string_get o
    then Sort.bytes
    else Sort.int

same_sort : Sort → Sort → Bool
same_sort Sort.int Sort.int = true
same_sort Sort.uint64 Sort.uint64 = true
same_sort Sort.int64 Sort.int64 = true
same_sort Sort.bytes Sort.bytes = true
same_sort _ _ = false

same_sort_eq : (a b : Sort) → same_sort a b ≡ true → a ≡ b
unfolding same_sort
same_sort_eq Sort.int Sort.int h = refl
same_sort_eq Sort.uint64 Sort.uint64 h = refl
same_sort_eq Sort.int64 Sort.int64 h = refl
same_sort_eq Sort.bytes Sort.bytes h = refl
same_sort_eq _ _ h = ground arith

implies : Bool → Bool → Bool
implies a b = if a then b else true

implied : (a b : Bool) → implies a b ≡ true → a ≡ true → b ≡ true
unfolding implies
implied a b h e = ground arith

-- The labels under which the overload for `int` hands on an `int`.
unfoldable pub is_int_label : IntCase → Bool
is_int_label IntCase.boolean = true
is_int_label IntCase.default_or_boolean = true
is_int_label IntCase.positive = true
is_int_label IntCase.integer = true
is_int_label _ = false

-- Options with a test have a sort, once the test implies it of every one.
module _ (t : SocketOption → Bool) (s : Sort) where
  sort_test : SocketOption → Bool
  unfolding implies same_sort is_uint64_case is_int64_case is_string_case is_string_get
  sort_test o = implies (t o) (same_sort s (sort o))

  sorted : (o : SocketOption) → sort_test o ≡ true → t o ≡ true → s ≡ sort o
  unfolding sort_test
  sorted o h e = same_sort_eq s (sort o) (implied (t o) (same_sort s (sort o)) h e)

pub int_label-sort : (o : SocketOption) → is_int_label (int_case o) ≡ true → Sort.int ≡ sort o
unfolding sort_test is_int_label int_case
int_label-sort o =
    sorted (λ o. is_int_label (int_case o)) Sort.int o
      (every (sort_test (λ o. is_int_label (int_case o)) Sort.int) refl o)

pub bool_case-sort : (o : SocketOption) → is_bool_case o ≡ true → Sort.int ≡ sort o
unfolding sort_test is_bool_case
bool_case-sort o = sorted is_bool_case Sort.int o (every (sort_test is_bool_case Sort.int) refl o)

pub uint64_case-sort : (o : SocketOption) → is_uint64_case o ≡ true → Sort.uint64 ≡ sort o
unfolding sort_test is_uint64_case
uint64_case-sort o =
    sorted is_uint64_case Sort.uint64 o (every (sort_test is_uint64_case Sort.uint64) refl o)

pub int64_case-sort : (o : SocketOption) → is_int64_case o ≡ true → Sort.int64 ≡ sort o
unfolding sort_test is_int64_case
int64_case-sort o =
    sorted is_int64_case Sort.int64 o (every (sort_test is_int64_case Sort.int64) refl o)

pub string_case-sort : (o : SocketOption) → is_string_case o ≡ true → Sort.bytes ≡ sort o
unfolding sort_test is_string_case
string_case-sort o =
    sorted is_string_case Sort.bytes o (every (sort_test is_string_case Sort.bytes) refl o)

pub int_get-sort : (o : SocketOption) → is_int_get o ≡ true → Sort.int ≡ sort o
unfolding sort_test is_int_get
int_get-sort o = sorted is_int_get Sort.int o (every (sort_test is_int_get Sort.int) refl o)

pub bool_get-sort : (o : SocketOption) → is_bool_get o ≡ true → Sort.int ≡ sort o
unfolding sort_test is_bool_get
bool_get-sort o = sorted is_bool_get Sort.int o (every (sort_test is_bool_get Sort.int) refl o)

pub uint64_get-sort : (o : SocketOption) → is_uint64_get o ≡ true → Sort.uint64 ≡ sort o
unfolding sort_test is_uint64_get
uint64_get-sort o =
    sorted is_uint64_get Sort.uint64 o (every (sort_test is_uint64_get Sort.uint64) refl o)

pub int64_get-sort : (o : SocketOption) → is_int64_get o ≡ true → Sort.int64 ≡ sort o
unfolding sort_test is_int64_get
int64_get-sort o =
    sorted is_int64_get Sort.int64 o (every (sort_test is_int64_get Sort.int64) refl o)

pub string_get-sort : (o : SocketOption) → is_string_get o ≡ true → Sort.bytes ≡ sort o
unfolding sort_test is_string_get
string_get-sort o =
    sorted is_string_get Sort.bytes o (every (sort_test is_string_get Sort.bytes) refl o)
