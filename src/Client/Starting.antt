-- ===== src/Client/Starting.antt =====
-- What `main` does with the options.
use zmqpp_pty.Base.{
  ◌≡◌, refl, Bool, true, false, not, ◌&&◌, ◌||◌, List, [], ◌∷◌, Option, none, some, if◌then◌else◌,
  Bool-cases, inl, inr, Bytes, ◌=ˢ◌,
}
use zmqpp_pty.Client.{
  SocketType, Variables, socket_types, find_type, is_unknown, type_of, or_pair, is_given,
  options_of, process_command_line, Modes, modes_of, Start, shows_version, shows_usage, unsupported,
  runs, run_or_fail, start,
}

-- A socket that toggles either sends or receives.
abbrev pub is_alternating : Modes → Bool
is_alternating m = if m.toggles then (if m.can_send then not m.can_recv else m.can_recv) else true

-- The client does not stop at the default case of the `switch`, and runs with modes that alternate.
abbrev pub is_supported : Start → Bool
is_supported shows_version = true
is_supported (shows_usage help) = true
is_supported unsupported = false
is_supported (runs m) = is_alternating m

abbrev runs_well : SocketType → Bool
runs_well t = is_supported (run_or_fail (modes_of t))

abbrev AllRun : List (Bytes × SocketType) → Type 0
AllRun [] = Unit
AllRun (e ∷ es) = (runs_well e.1 ≡ true) × AllRun es

found_runs :
    (es : List (Bytes × SocketType)) (name : Bytes)
    → AllRun es
    → is_given (find_type es name) ≡ true
    → runs_well (or_pair (find_type es name)) ≡ true
unfolding find_type
found_runs [] name a g = cc
found_runs (e ∷ es) name a g = elim (Bool-cases (e.0 =ˢ name)) [
  | inl m ↦ rw m (a.0)
  | inr m ↦ rw m (found_runs es name a.1 (rw m at g))
]

all_types : AllRun socket_types
unfolding modes_of
all_types = (refl, (refl, (refl, (refl, (refl, (refl, (refl, (refl, (refl, (refl, tt))))))))))

named_runs :
    (name : Bytes) (u h : Bool)
    → is_supported (
        if (is_unknown (some name) || u) || h
        then shows_usage h
        else run_or_fail (modes_of (type_of (some name))))
      ≡ true
unfolding is_unknown type_of
named_runs name u h = elim (Bool-cases (is_given (find_type socket_types name))) [
  | inl g ↦ rw g (by_flags u h (found_runs socket_types name all_types g))
  | inr g ↦ rw g refl
]
  where
    by_flags :
        (u h : Bool)
        → runs_well (or_pair (find_type socket_types name)) ≡ true
        → is_supported (
            if u || h
            then shows_usage h
            else run_or_fail (modes_of (or_pair (find_type socket_types name))))
          ≡ true
    by_flags true h e = refl
    by_flags false true e = refl
    by_flags false false e = e

starts :
    (version : Bool) (o : Option Bytes) (u h : Bool)
    → is_supported (
        if version
        then shows_version
        else if (is_unknown o || (not (is_given o) || u)) || h
        then shows_usage h
        else run_or_fail (modes_of (type_of o)))
      ≡ true
unfolding is_unknown
starts true o u h = refl
starts false none u h = refl
starts false (some name) u h = named_runs name u h

-- Whatever the command line is: the client prints its version or its usage, or it runs with a type
-- of socket that it supports, and then a socket that changes between sending and receiving starts
-- with exactly one of the two; the default case of the `switch` on the type is never reached.
pub start_supported : (r : Option Variables) → is_supported (start (process_command_line r)) ≡ true
unfolding start process_command_line options_of type_of is_unknown
start_supported none = refl
start_supported (some vm) =
    starts vm.version vm.type_name
      (vm.help || (not (is_given vm.connect) && not (is_given vm.bind))) vm.help
