-- ===== src/Pty/Main.antt =====
-- `main` of zmq_pty_client.cpp: the type of the socket, the calls that open it, `poll_messages`, and
-- the loop that would send lines. A line comes with what libzmq answers to its `send`; when they end
-- the loop waits for the next line. Outside `poll_messages` the mutex is held by another thread or free.
pub mod Lines
pub mod Outcomes
use zmqpp_pty.Base.{
  ℕ, zero, suc, ◌+◌, ◌-◌, Bool, true, false, List, [], ◌∷◌, ◌++◌, Option, none, some, Bytes, ltb,
  if◌then◌else◌, ◌=ˢ◌, get_elem?, pop_back, Result, ok, err, Error, undefined, ◌>>◌,
}
use zmqpp_pty.Inet.Memory.{Order}
use zmqpp_pty.Message
use zmqpp_pty.Message.{Message}
use zmqpp_pty.Message.Values.{Value}
use zmqpp_pty.Socket.Transfer.{SendAnswer, SendRun, Transmission, send}
use zmqpp_pty.Socket.Endpoints.{call_endpoint}
use zmqpp_pty.Client.{
  SocketType, push, pull, publish, subscribe, pair, push_name, pull_name, pub_name, sub_name,
}
use zmqpp_pty.Pty.{Shared, Listener, Round, Flow, goes_on, leaves, blocks, poll_messages}

-- "pair"
abbrev pub pair_name : Bytes
pair_name = b'p' ∷ b'a' ∷ b'i' ∷ b'r' ∷ []

-- "tcp://localhost:4242"
abbrev pub default_endpoint : Bytes
default_endpoint =
    b't' ∷ b'c' ∷ b'p' ∷ b':' ∷ b'/' ∷ b'/' ∷ b'l' ∷ b'o' ∷ b'c' ∷ b'a' ∷ b'l' ∷ b'h' ∷ b'o' ∷ b's'
    ∷ b't' ∷ b':' ∷ b'4' ∷ b'2' ∷ b'4' ∷ b'2' ∷ []

-- The chain of comparisons of `stype`; `none` is the error.
unfoldable pub type_of : Bytes → Option SocketType
type_of name =
    if name =ˢ pub_name
    then some publish
    else if name =ˢ sub_name
    then some subscribe
    else if name =ˢ push_name
    then some push
    else if name =ˢ pull_name
    then some pull
    else if name =ˢ pair_name
    then some pair
    else none

-- The calls of the socket before it is used.
pub data SetupCall : Type 0 where
  subscribes : Bytes → SetupCall
  binds : Bytes → SetupCall
  connects : Bytes → SetupCall

unfoldable pub setup_calls : SocketType → Bytes → List SetupCall
setup_calls subscribe endpoint = subscribes [] ∷ connects endpoint ∷ []
setup_calls pull endpoint = binds endpoint ∷ connects endpoint ∷ []
setup_calls _ endpoint = connects endpoint ∷ []

-- By the error that libzmq answers to a call, if there is one.
unfoldable pub set_up : (SetupCall → Option ℕ) → List SetupCall → Result (Unit {0})
unfolding call_endpoint
set_up failure [] = ok tt
set_up failure (c ∷ calls) = call_endpoint (failure c) >> set_up failure calls

-- The variables of the loop, what it has shown of the buffer, and what was sent.
pub record Talker : Type 0 where
  pub shared : Shared
  pub tx_msg : Message
  pub shown : List Bytes
  pub sent : List Transmission

pub record Line : Type 0 where
  pub text : Bytes
  pub net : ℕ → SendAnswer

-- `rx_buff[new_msg-1]` is shown and the last message popped.
show_last : Option Bytes → Talker → Talker × Flow
show_last none t = (t, leaves (err undefined))
show_last (some bs) t = (
  record t {
    shared = record t.shared { buff = pop_back t.shared.buff; new_msg = t.shared.new_msg - 1 };
    shown = t.shown ++ bs ∷ [];
  },
  goes_on,
)

unfoldable pub show_latest : Talker → Talker × Flow
unfolding show_last
show_latest t =
    if ltb 0 t.shared.new_msg
    then if t.shared.locked
      then (t, goes_on)
      else show_last (get_elem? t.shared.buff (t.shared.new_msg - 1)) t
    else (t, goes_on)

flow_after : Result Bool → Flow
flow_after (ok accepted) = goes_on
flow_after (err e) = leaves (err e)

on_sent : SendRun → Talker → Talker × Flow
unfolding flow_after
on_sent run t = (record t { tx_msg = run.message; sent = t.sent ++ run.out }, flow_after run.result)

-- The line is added to the message, which is sent.
unfoldable pub say : Order → Line → Talker → Talker × Flow
unfolding on_sent Message.write
say o line t = on_sent (send line.net (Message.write o t.tx_msg (Value.string line.text)) false) t

abbrev pub next : Talker × Flow → (Talker → Talker × Flow) → Talker × Flow
next (t, goes_on) rest = rest t
next (t, leaves r) rest = (t, leaves r)
next (t, blocks) rest = (t, blocks)

unfoldable pub talk : Order → List Line → Talker → Talker × Flow
unfolding show_latest say
talk o [] t = next (show_latest t) (λ t'. (t', blocks))
talk o (line ∷ lines) t = next (next (show_latest t) (say o line)) (λ t'. talk o lines t')

-- How far `main` comes.
pub data MainRun : Type 0 where
  unknown_type : MainRun
  not_set_up : Error → MainRun
  listening : Listener × Flow → MainRun
  talking : Talker × Flow → MainRun

-- What `main` meets: its socket, the answers to the calls that open it, the rounds of
-- `poll_messages`, and the lines.
pub record World : Type 0 where
  pub socket : ℕ
  pub failure : SetupCall → Option ℕ
  pub rounds : List Round
  pub lines : List Line

abbrev pub no_messages : Shared
no_messages = record { buff = []; new_msg = 0; locked = false }

-- The loop is reached when `poll_messages` has returned.
after_listening : Order → World → Listener × Flow → MainRun
unfolding talk
after_listening o w (l, leaves (ok done)) =
    talking
      (talk o w.lines (record { shared = l.shared; tx_msg = Message.empty; shown = []; sent = [] }))
after_listening o w (l, leaves (err e)) = listening (l, leaves (err e))
after_listening o w (l, goes_on) = listening (l, goes_on)
after_listening o w (l, blocks) = listening (l, blocks)

after_setup : Order → World → Result (Unit {0}) → MainRun
unfolding after_listening poll_messages
after_setup o w (err e) = not_set_up e
after_setup o w (ok done) = after_listening o w (poll_messages o w.socket true w.rounds no_messages)

with_type : Order → World → Bytes → Option SocketType → MainRun
unfolding after_setup set_up setup_calls
with_type o w endpoint none = unknown_type
with_type o w endpoint (some t) = after_setup o w (set_up w.failure (setup_calls t endpoint))

-- The arguments after the program's name.
unfoldable pub main : Order → World → List Bytes → MainRun
unfolding with_type type_of
main o w [] = with_type o w default_endpoint (type_of push_name)
main o w (stype ∷ []) = with_type o w default_endpoint (type_of stype)
main o w (stype ∷ endpoint ∷ args) = with_type o w endpoint (type_of stype)
