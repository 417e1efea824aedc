-- ===== src/Common/Jobs.antt =====
-- common.c: the states of a job, and the children that `sigchld_handler` and `process_start` wait for.
-- What `fork` and `waitpid` answer is an argument.
use mathlib.Core.Logic.{◌↔◌}
use zmqpp_pty.Base.{
  ℕ, ◌≡◌, ◌≢◌, ◌⊎◌, refl, ◌&&◌, List, [], ◌∷◌, ◌++◌, map, Option, none, some, ◌==◌, if◌then◌else◌,
  ℤ, pos, negsuc, arith,
}

pub record Process : Type 0 where
  pub pid : ℤ
  pub completed : ℕ
  pub stopped : ℕ
  pub status : ℕ

-- The loops over the list of processes.
unfoldable pub job_is_stopped : List Process → ℕ
job_is_stopped [] = 1
job_is_stopped (p ∷ ps) = if p.completed == 0 && p.stopped == 0 then 0 else job_is_stopped ps

unfoldable pub job_is_completed : List Process → ℕ
job_is_completed [] = 1
job_is_completed (p ∷ ps) = if p.completed == 0 then 0 else job_is_completed ps

abbrev pub AllCompleted : List Process → Type 0
AllCompleted [] = Unit
AllCompleted (p ∷ ps) = (p.completed ≢ 0) × AllCompleted ps

abbrev pub AllHalted : List Process → Type 0
AllHalted [] = Unit
AllHalted (p ∷ ps) = ((p.completed ≢ 0) ⊎ (p.stopped ≢ 0)) × AllHalted ps

completed_all : (ps : List Process) → job_is_completed ps ≡ 1 → AllCompleted ps
unfolding job_is_completed
completed_all [] e = tt
completed_all (p ∷ ps) e = ground (arith, completed_all ps)

all_completed : (ps : List Process) → AllCompleted ps → job_is_completed ps ≡ 1
unfolding job_is_completed
all_completed [] h = refl
all_completed (p ∷ ps) h = ground (arith, all_completed ps h.1)

halted_all : (ps : List Process) → job_is_stopped ps ≡ 1 → AllHalted ps
unfolding job_is_stopped
halted_all [] e = tt
halted_all (p ∷ ps) e = ground (arith, halted_all ps)

all_halted : (ps : List Process) → AllHalted ps → job_is_stopped ps ≡ 1
unfolding job_is_stopped
all_halted [] h = refl
all_halted (p ∷ ps) h = ground (arith, all_halted ps h.1)

-- `job_is_completed` answers 1 exactly if all processes of the job have completed, and
-- `job_is_stopped` exactly if each has completed or stopped.
pub job_states :
    (ps : List Process)
    → ((job_is_completed ps ≡ 1) ↔ AllCompleted ps) × ((job_is_stopped ps ≡ 1) ↔ AllHalted ps)
job_states ps = ((completed_all ps, all_completed ps), (halted_all ps, all_halted ps))

-- What `waitpid` answers: a child and its status, 0, or an error, which is left in `errno`.
pub data Waited : Type 0 where
  reaped : ℕ → ℕ → Waited
  none_yet : Waited
  failed : ℕ → Waited

-- The two flags that the handler writes, and `errno`.
pub record Flags : Type 0 where
  pub pid : ℕ
  pub status : ℕ
  pub errno : ℕ

-- The loop, call after call; `none` if it is still going on when the answers end.
unfoldable pub reap : List Waited → Flags → Option Flags
reap [] f = none
reap (reaped pid status ∷ later) f = reap later (record f { pid = pid; status = status })
reap (none_yet ∷ later) f = some f
reap (failed e ∷ later) f = some (record f { errno = e })

abbrev with_errno : ℕ → Option Flags → Option Flags
with_errno serrno none = none
with_errno serrno (some f) = some (record f { errno = serrno })

unfoldable pub sigchld_handler : List Waited → Flags → Option Flags
unfolding reap
sigchld_handler answers f = with_errno f.errno (reap answers f)

abbrev pub Child : Type 0
Child = ℕ × ℕ

-- The last of the children, or what the flags were.
abbrev pub last_child : Child → List Child → Child
last_child c [] = c
last_child c (d ∷ ds) = last_child d ds

abbrev pub Ends : Waited → Type 0
Ends (reaped pid status) = ⊥
Ends none_yet = Unit
Ends (failed e) = Unit

abbrev pub all_reaped : List Child → List Waited
all_reaped cs = map (λ c. reaped c.0 c.1) cs

-- The handler waits for all the children that have ended, up to the first answer that names none; it
-- reports the last of them alone, leaves the flags if there was none, and restores `errno`, also after
-- an error.
pub sigchld_handler-last :
    (cs : List Child) (stop : Waited) (later : List Waited) (f : Flags)
    → Ends stop
    → let c = last_child (f.pid, f.status) cs in
      sigchld_handler (all_reaped cs ++ stop ∷ later) f
      ≡ some (record { pid = c.0; status = c.1; errno = f.errno })
unfolding sigchld_handler
sigchld_handler-last [] (reaped pid status) later f h = absurd h
sigchld_handler-last [] none_yet later f h = refl
sigchld_handler-last [] (failed e) later f h = refl
sigchld_handler-last (c ∷ cs) stop later f h =
    sigchld_handler-last cs stop later (record f { pid = c.0; status = c.1 }) h

-- What `fork` answers, and where `process_start` gets to: the child leaves when the shell could not
-- be executed.
pub data Forked : Type 0 where
  in_child : Forked
  in_parent : ℕ → Forked
  not_forked : Forked

pub data Started : Type 0 where
  child_exits : Started
  returns : Process → ℤ → Started

await : ℕ → Waited → Process → Started
await pid (reaped child status) ps =
    if child == pid
    then returns (record ps { status = status }) (pos 0)
    else returns (record ps { status = status }) (negsuc 0)
await pid none_yet ps = returns ps (negsuc 0)
await pid (failed e) ps = returns ps (negsuc 0)

unfoldable pub process_start : Forked → Waited → Process → Started
unfolding await
process_start in_child waited ps = child_exits
process_start (in_parent pid) waited ps = await pid waited (record ps { pid = pos pid })
process_start not_forked waited ps = returns (record ps { pid = negsuc 0 }) (negsuc 0)
