-- ===== src/Pty.antt =====
-- zmq_pty_client.cpp, built as it stands: DEBUG is 1 and SUPPORT_RAW_DATA is 0. `poll_messages` is a
-- loop over rounds, of which each brings what `zmq_poll` and `zmq_msg_recv` answer; when they end the
-- client is still waiting. A lock of the mutex by the thread that holds it is undefined behaviour.
-- What is printed of the messages is kept in order.
pub mod Lengths
pub mod Watching
pub mod Listening
pub mod Keeping
pub mod Messages
pub mod Main
pub mod Server
use Prim.Native.Nat.{bit_or}
use zmqpp_pty.Base.{
  ℕ, zero, suc, ◌+◌, Bool, true, false, List, [], ◌∷◌, ◌++◌, Option, none, some, Bytes, ◌==◌,
  if◌then◌else◌, length, get_elem?, Result, ok, err, undefined,
}
use zmqpp_pty.Inet.Memory.{Order}
use zmqpp_pty.Message
use zmqpp_pty.Message.{Message}
use zmqpp_pty.Message.Values.{Value, Kind}
use zmqpp_pty.Poller
use zmqpp_pty.Poller.{Poller, Run, Answer, poll_in, poll_error}
use zmqpp_pty.Socket.Transfer.{RecvAnswer, RecvRun, Call, returned, waiting, receive}

-- `while ( i < s.size() && s[i] != stop ) { i++; }`, `left` bytes before the end.
scan : ℕ → Bytes → ℕ → ℕ → ℕ
scan zero s stop i = i
scan (suc left) s stop i =
    let rest = scan left s stop (i + 1) in
    elim (get_elem? s i) [ none ↦ i | some c ↦ if c == stop then i else rest ]

unfoldable pub length_to_null : Bytes → ℕ
unfolding scan
length_to_null s = scan (length s) s 0 0

unfoldable pub length_to_lf : Bytes → ℕ
unfolding scan
length_to_lf s = scan (length s) s b'\n' 0

-- What `poll_messages` shares with `main`: the messages, their number, and the mutex.
pub record Shared : Type 0 where
  pub buff : List Bytes
  pub new_msg : ℕ
  pub locked : Bool

abbrev pub Step : Type 0
Step = Shared × Result (Unit {0})

abbrev and_then : Step → (Shared → Step) → Step
and_then (s, ok done) next = next s
and_then (s, err e) next = (s, err e)

-- `lock_guard<std::mutex>`, in the one thread of this build.
abbrev lock : Shared → Step
lock s = (record s { locked = true }, if s.locked then err undefined else ok tt)

-- The block that keeps a message: both guards lock the mutex, and unlock it at the end.
unfoldable pub keep : Bytes → Shared → Step
keep text s = and_then (lock s) λ held.
    and_then (lock (record held { buff = held.buff ++ text ∷ []; new_msg = held.new_msg + 1 }))
      λ twice. (record twice { locked = false }, ok tt)

-- The variables of `poll_messages`.
pub record Listener : Type 0 where
  pub poller : Poller
  pub message : Message
  pub shared : Shared
  pub printed : List (ℕ × Bytes)

pub record Round : Type 0 where
  pub answer : Answer
  pub arrivals : List RecvAnswer

-- How a round ends.
pub data Flow : Type 0 where
  goes_on : Flow
  leaves : Result (Unit {0}) → Flow
  blocks : Flow

abbrev pub poll_none : ℕ
poll_none = 0

abbrev after {ℓ} : {A : Type ℓ} → Poller × Result A → (Poller → Run Bool) → Run Bool
after (p, ok done) next = next p
after (p, err e) next = (p, err e)

-- `poller.check_for(stdin, …)` takes `true` for a descriptor, which is then 1.
unfoldable pub look : ℕ → Bool → Poller → Answer → Run Bool
unfolding Poller.check_for_socket Poller.check_for_fd Poller.poll
look s stdin p answer =
    after (Poller.check_for_socket p s (if stdin then poll_in else poll_none)) λ p₁.
      after (if stdin then Poller.check_for_fd p₁ 1 poll_in else (p₁, ok tt))
        λ p₂. Poller.poll p₂ answer

abbrev text_of : Value → Bytes
text_of (Value.string t) = t
text_of v = []

abbrev flow_of : Result (Unit {0}) → Flow
flow_of (ok done) = goes_on
flow_of (err e) = leaves (err e)

kept : Step → Listener → Listener × Flow
kept (s, r) l = (record l { shared = s }, flow_of r)

-- The text is printed with its size, and kept if it is not empty.
unfoldable pub show : Bytes → Listener → Listener × Flow
unfolding kept keep length_to_null
show t l =
    let l₁ = record l { printed = l.printed ++ (length_to_null t, t) ∷ [] } in
    if length_to_null t == 0 then (l₁, goes_on) else kept (keep t l₁.shared) l₁

-- `msg_zmq >> msg_str`, after `receive`.
unfoldable pub on_text : Result Value × Message → Listener → Listener × Flow
unfolding show
on_text (err e, m) l = (record l { message = m }, leaves (err e))
on_text (ok v, m) l = show (text_of v) (record l { message = m })

unfoldable pub on_received : Order → Call Bool → Message → Listener → Listener × Flow
unfolding on_text Message.read
on_received o waiting m l = (record l { message = m }, blocks)
on_received o (returned (err e)) m l = (record l { message = m }, leaves (err e))
on_received o (returned (ok got)) m l = on_text (Message.read o Kind.string m) l

unfoldable pub on_look : Order → Run Bool → List RecvAnswer → Listener → Listener × Flow
unfolding on_received receive
on_look o (p, err e) arrivals l = (record l { poller = p }, leaves (err e))
on_look o (p, ok false) arrivals l = (record l { poller = p }, goes_on)
on_look o (p, ok true) arrivals l =
    let run = receive arrivals l.message in
    on_received o run.result run.message (record l { poller = p })

unfoldable pub turn : Order → ℕ → Bool → Round → Listener → Listener × Flow
unfolding on_look look
turn o s stdin r l = on_look o (look s stdin l.poller r.answer) r.arrivals l

unfoldable pub go_on : Listener × Flow → (Listener → Listener × Flow) → Listener × Flow
go_on (l, goes_on) next = next l
go_on (l, leaves r) next = (l, leaves r)
go_on (l, blocks) next = (l, blocks)

-- The loop `while ( s )`, whose body does not close the socket.
unfoldable pub listen : Order → ℕ → Bool → List Round → Listener → Listener × Flow
unfolding turn go_on
listen o s stdin [] l = (l, if s == 0 then leaves (ok tt) else blocks)
listen o s stdin (r ∷ rounds) l =
    if s == 0 then (l, leaves (ok tt)) else go_on (turn o s stdin r l) (listen o s stdin rounds)

abbrev pub watching : ℕ → Bool → Poller
watching s stdin =
    let p = Poller.add_socket Poller.empty s poll_in in
    if stdin then Poller.add_fd p 1 (bit_or poll_in poll_error) else p

unfoldable pub poll_messages : Order → ℕ → Bool → List Round → Shared → Listener × Flow
unfolding listen Poller.add_socket Poller.add_fd
poll_messages o s stdin rounds shared =
    listen o s stdin rounds
      (record { poller = watching s stdin; message = Message.empty; shared = shared; printed = [] })
