-- ===== src/Pty/Server.antt =====
-- The loop of `main` in zmq_pty_server.cpp: a message is received into a new variable, its first part
-- printed, and a string sent back. What libzmq answers to both calls is given for each round.
use zmqpp_pty.Base.{
  ℕ, ◌≡◌, refl, ap, ◌∙◌, Bool, false, ◌||◌, List, [], ◌∷◌, ◌++◌, Bytes, ◌==◌, Result, ok, err,
  zmq_internal, arith,
}
use zmqpp_pty.Inet.Memory.{Order}
use zmqpp_pty.Message
use zmqpp_pty.Message.{Message}
use zmqpp_pty.Message.Values.{Value, Kind}
use zmqpp_pty.Socket.Transfer.{
  RecvAnswer, SendAnswer, refused, Call, returned, waiting, receive, send_raw, eagain, eintr,
}
use zmqpp_pty.Socket.Receiving.{arriving, receive-arriving}
use zmqpp_pty.Pty.{Flow, goes_on, leaves, blocks, text_of}

pub record Exchange : Type 0 where
  pub arrivals : List RecvAnswer
  pub reply : SendAnswer

-- What was printed, and how the round or the loop ends.
abbrev pub Output : Type 0
Output = List Bytes × Flow

flow_of_reply : Result Bool → Flow
flow_of_reply (ok sent) = goes_on
flow_of_reply (err e) = leaves (err e)

print_text : SendAnswer → Result Value → Output
unfolding flow_of_reply send_raw
print_text reply (err e) = ([], leaves (err e))
print_text reply (ok v) = (text_of v ∷ [], flow_of_reply (send_raw reply))

decompose : Order → SendAnswer → Call Bool → Message → Output
unfolding print_text Message.read
decompose o reply waiting m = ([], blocks)
decompose o reply (returned (err e)) m = ([], leaves (err e))
decompose o reply (returned (ok got)) m = print_text reply (Message.read o Kind.string m).0

unfoldable pub exchange : Order → Exchange → Output
unfolding decompose receive
exchange o x =
    let run = receive x.arrivals Message.empty in decompose o x.reply run.result run.message

abbrev pub chain : Output → Output → Output
chain (shown, goes_on) later = (shown ++ later.0, later.1)
chain (shown, leaves r) later = (shown, leaves r)
chain (shown, blocks) later = (shown, blocks)

unfoldable pub serve : Order → List Exchange → Output
unfolding exchange
serve o [] = ([], blocks)
serve o (x ∷ xs) = chain (exchange o x) (serve o xs)

-- A message comes in the round, and its first part.
abbrev pub Brings : Exchange → Bytes → Type 0
Brings x t =
    (rest : List (ℕ × Bytes)) × (later : List RecvAnswer) × (x.arrivals ≡ arriving t rest later)

exchange_lem :
    (o : Order) (x : Exchange) (t : Bytes)
    → Brings x t
    → exchange o x ≡ (t ∷ [], flow_of_reply (send_raw x.reply))
unfolding exchange decompose print_text Message.read
exchange_lem o x t (rest, later, e) =
    rw (e, exchange, receive-arriving t rest later Message.empty) refl

-- Rounds in which a message comes and the reply is accepted or cannot be sent now.
pub data Answered : List Exchange → List Bytes → Type 0 where
  start : Answered [] []
  round :
      {xs : List Exchange} {ts : List Bytes} (x : Exchange) (t : Bytes)
      → Brings x t
      → (sent : Bool) → send_raw x.reply ≡ ok sent
      → Answered xs ts
      → Answered (x ∷ xs) (t ∷ ts)

thrown : (e : ℕ) → (e == eagain || e == eintr) ≡ false → send_raw (refused e) ≡ err (zmq_internal e)
unfolding send_raw
thrown e h = ground arith

-- The server prints the first part of each message in order while its replies are accepted, or cannot
-- be sent for now. With the first reply that libzmq refuses for another reason it prints the text of
-- that round and leaves by the exception.
pub serve-Answered :
    (o : Order) {xs : List Exchange} {ts : List Bytes}
    → Answered xs ts
    → (x : Exchange) (t : Bytes) (e : ℕ) (more : List Exchange) → Brings x t
    → x.reply ≡ refused e
    → (e == eagain || e == eintr) ≡ false
    → serve o (xs ++ x ∷ more) ≡ (ts ++ t ∷ [], leaves (err (zmq_internal e)))
unfolding serve
serve-Answered o start x t e more b r h =
    ap (λ out. chain out (serve o more))
      (exchange_lem o x t b ∙ ap (λ a. (t ∷ [], flow_of_reply a)) (ap send_raw r ∙ thrown e h))
serve-Answered o (round {xs} {ts} y u c sent k a) x t e more b r h =
    ap (λ out. chain out (serve o (xs ++ x ∷ more)))
      (exchange_lem o y u c ∙ ap (λ s. (u ∷ [], flow_of_reply s)) k)
    ∙ ap (λ later. (u ∷ later.0, later.1)) (serve-Answered o a x t e more b r h)
