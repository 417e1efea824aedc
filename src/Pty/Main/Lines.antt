-- ===== src/Pty/Main/Lines.antt =====
-- What the last loop of `main` in zmq_pty_client.cpp does with lines and messages.
use mathlib.Core.List.{append_assoc, append-nil, map-append, reverse, reverse-append}
use zmqpp_pty.Base.{
  ℕ, zero, suc, ◌-◌, ◌<◌, ◌≡◌, ◌⊎◌, inl, inr, refl, sym, ap, ◌∙◌, Bool, true, false, ◌||◌, List, [],
  ◌∷◌, ◌++◌, map, Bytes, some, ◌==◌, if◌then◌else◌, length, get_elem?, pop_back, length-append,
  length-pop_back, Bool-cases, ok, err, zmq_internal, arith,
}
use mathlib.Core.Path.{subst}
use native.Mathlib.Decide.{dec_lt}
use zmqpp_pty.Inet.Memory.{Order}
use zmqpp_pty.Message
use zmqpp_pty.Message.{Message, parts}
use zmqpp_pty.Message.Frames.{Frame, frame}
use zmqpp_pty.Message.Values.{Value}
use zmqpp_pty.Socket.Transfer.{SendAnswer, SendRun, accepted, refused, eagain, eintr, send}
use zmqpp_pty.Socket.Sending.{AllUnsent, Interrupted, accepted_bytes, bytes_of, send-Sends}
use zmqpp_pty.Socket.Refusals.{send-refused_first}
use zmqpp_pty.Pty.{goes_on, blocks}
use zmqpp_pty.Pty.Main.{Talker, Line, say, show_latest, talk, next, flow_after}

-- libzmq takes a message whole, or refuses its first part for now.
abbrev pub IsPlain : (ℕ → SendAnswer) → Type 0
IsPlain net =
    ((i : ℕ) → net i ≡ accepted)
    ⊎ ((e : ℕ) × (net 0 ≡ refused e) × ((e == eagain || e == eintr) ≡ true))

abbrev pub contents : Message → List Bytes
contents m = map (λ f. f.contents) m.frames

AllUnsent-append : (fs : List Frame) (bs : Bytes) → AllUnsent fs → AllUnsent (fs ++ frame bs ∷ [])
AllUnsent-append [] bs u = (refl, tt)
AllUnsent-append (f ∷ fs) bs u = (u.0, AllUnsent-append fs bs u.1)

all_accepted : (net : ℕ → SendAnswer) (n i : ℕ) → ((j : ℕ) → net j ≡ accepted) → Interrupted net n i
all_accepted net zero i h = tt
all_accepted net (suc n) i h = (inl (h i), all_accepted net n (suc i) h)

accepted_bytes_all :
    (net : ℕ → SendAnswer) (fs : List Frame) (i : ℕ)
    → ((j : ℕ) → net j ≡ accepted)
    → accepted_bytes net fs i ≡ map (λ f. f.contents) fs
accepted_bytes_all net [] i h = refl
accepted_bytes_all net (f ∷ fs) i h =
    rw (h i) (ap (◌∷◌ f.contents) (accepted_bytes_all net fs (suc i) h))

-- What was handed to `send` and not lost: what is sent, then what still waits in the message.
abbrev pub outgoing : Talker → List Bytes
outgoing t = bytes_of t.sent ++ contents t.tx_msg

-- The messages shown, then those in the buffer from its end.
abbrev pub displayed : Talker → List Bytes
displayed t = t.shown ++ reverse t.shared.buff

pub record IsTalking (t : Talker) : Type 0 where
  pub counted : t.shared.new_msg ≡ length t.shared.buff
  pub unsent : AllUnsent t.tx_msg.frames

-- A step that goes on, and the lines that it adds.
pub record Talks (t : Talker) (lines : List Bytes) (t' : Talker) : Type 0 where
  pub keeps_lines : outgoing t' ≡ outgoing t ++ lines
  pub keeps_messages : displayed t' ≡ displayed t
  pub still : IsTalking t'

-- `send` lost no part: it has sent them, or they are still in the message.
record Keeps (m : Message) (run : SendRun) : Type 0 where
  pub answer : Bool
  pub returned : run.result ≡ ok answer
  pub parts_kept : bytes_of run.out ++ contents run.message ≡ contents m
  pub unsent : AllUnsent run.message.frames

send-Keeps :
    (net : ℕ → SendAnswer) (m : Message)
    → 0 < parts m
    → AllUnsent m.frames
    → IsPlain net
    → Keeps m (send net m false)
send-Keeps net m some_part u (inl all) =
    let s = send-Sends net m false some_part u (all_accepted net (parts m) 0 all) in
    record {
      answer = true;
      returned = s.returned;
      parts_kept =
          ap (λ c. bytes_of (send net m false).out ++ contents c) s.cleared
          ∙ append-nil _
          ∙ s.wire
          ∙ accepted_bytes_all net m.frames 0 all;
      unsent = rw s.cleared tt;
    }
send-Keeps net m some_part u (inr (e, r, h)) =
    let run = send-refused_first net m false e (omega arith) r in
    record {
      answer = false;
      returned = ap (λ x. x.result) run ∙ ap (λ b. if b then ok false else err (zmq_internal e)) h;
      parts_kept = ap (λ x. bytes_of x.out ++ contents x.message) run;
      unsent = subst (λ x. AllUnsent x.message.frames) (sym run) u;
    }

module _ (o : Order) (line : Line) (t : Talker) where
  written : Message
  unfolding Message.write
  written = Message.write o t.tx_msg (Value.string line.text)

  contents_written : contents written ≡ contents t.tx_msg ++ line.text ∷ []
  unfolding written
  contents_written = map-append _ _ _

  say-Talks :
      IsTalking t
      → IsPlain line.net
      → (t' : Talker) × (say o line t ≡ (t', goes_on)) × Talks t (line.text ∷ []) t'
  unfolding say written
  say-Talks i plain =
      let run = send line.net written false in
      let k =
        send-Keeps line.net written
          (omega (arith, length-append t.tx_msg.frames (frame line.text ∷ [])))
          (AllUnsent-append t.tx_msg.frames line.text i.unsent) plain in
      (
        record t { tx_msg = run.message; sent = t.sent ++ run.out },
        ap (λ r. (record t { tx_msg = run.message; sent = t.sent ++ run.out }, flow_after r))
            k.returned,
        record {
          keeps_lines =
              ap (λ x. x ++ contents run.message) (map-append _ t.sent run.out)
              ∙ append_assoc (bytes_of t.sent) (bytes_of run.out) (contents run.message)
              ∙ ap (◌++◌ (bytes_of t.sent)) (k.parts_kept ∙ contents_written)
              ∙ sym (append_assoc (bytes_of t.sent) (contents t.tx_msg) (line.text ∷ []));
          keeps_messages = refl;
          still = record { counted = i.counted; unsent = k.unsent };
        },
      )

split_last {ℓ} :
    {A : Type ℓ} (xs : List A)
    → 0 < length xs
    → (x : A) × (get_elem? xs (length xs - 1) ≡ some x) × (xs ≡ pop_back xs ++ x ∷ [])
split_last [] h = absurd (omega arith)
split_last (x ∷ []) h = (x, refl, refl)
split_last (x ∷ y ∷ xs) h =
    let (z, last, split) = split_last (y ∷ xs) (omega arith) in
    let further : suc (suc (length xs)) - 1 ≡ suc (suc (length xs) - 1) = omega arith in
    (z, ap (get_elem? (x ∷ y ∷ xs)) further ∙ last, ap (◌∷◌ x) split)

show_latest-Talks :
    (t : Talker) → IsTalking t → (t' : Talker) × (show_latest t ≡ (t', goes_on)) × Talks t [] t'
unfolding show_latest
show_latest-Talks t i = elim (dec_lt 0 t.shared.new_msg) [
  | no none_left ↦ (t, ground arith, unchanged)
  | yes some_left ↦ elim (Bool-cases t.shared.locked) [
    | inl held ↦ (t, ground arith, unchanged)
    | inr free ↦
        let (x, last, split) = split_last t.shared.buff (omega (arith, i.counted)) in
        let there : get_elem? t.shared.buff (t.shared.new_msg - 1) ≡ some x =
          ap (λ n. get_elem? t.shared.buff (n - 1)) i.counted ∙ last in
        let shown = t.shown ++ x ∷ [] in
        let t' = record t {
          shared = record t.shared {
            buff = pop_back t.shared.buff;
            new_msg = t.shared.new_msg - 1;
          };
          shown = shown;
        } in
        (
          t',
          ground (arith, there),
          record {
            keeps_lines = sym (append-nil (outgoing t));
            keeps_messages =
                append_assoc t.shown (x ∷ []) (reverse (pop_back t.shared.buff))
                ∙ ap (◌++◌ t.shown) (
                    sym (reverse-append (pop_back t.shared.buff) (x ∷ []))
                    ∙ ap reverse (sym split));
            still = record {
              counted = omega (arith, i.counted, length-pop_back t.shared.buff);
              unsent = i.unsent;
            };
          },
        )
  ]
]
  where
    unchanged : Talks t [] t
    unchanged = record {
      keeps_lines = sym (append-nil (outgoing t));
      keeps_messages = refl;
      still = i;
    }

Talks-trans :
    {t u v : Talker} {xs ys : List Bytes} → Talks t xs u → Talks u ys v → Talks t (xs ++ ys) v
Talks-trans {t} {xs} {ys} a b = record {
  keeps_lines = b.keeps_lines ∙ ap (λ x. x ++ ys) a.keeps_lines ∙ append_assoc (outgoing t) xs ys;
  keeps_messages = b.keeps_messages ∙ a.keeps_messages;
  still = b.still;
}

abbrev pub AllPlain : List Line → Type 0
AllPlain [] = Unit
AllPlain (line ∷ lines) = IsPlain line.net × AllPlain lines

abbrev pub texts : List Line → List Bytes
texts lines = map (λ line. line.text) lines

-- When libzmq takes every message whole or refuses its first part for now, the loop goes on until
-- the lines end and loses none of them: those sent and those that wait in the message are the old
-- ones and then the new ones, in order. Nor does it lose a message of the buffer: those that it has
-- shown are from the end of the buffer backwards, and the rest is still there.
pub talk-Talks :
    (o : Order) (lines : List Line) (t : Talker)
    → IsTalking t
    → AllPlain lines
    → (t' : Talker) × (talk o lines t ≡ (t', blocks)) × Talks t (texts lines) t'
unfolding talk
talk-Talks o [] t i plain =
    let (u, e, a) = show_latest-Talks t i in (u, ap (λ out. next out (λ t'. (t', blocks))) e, a)
talk-Talks o (line ∷ lines) t i plain =
    let (u, e, a) = show_latest-Talks t i in
    let (v, f, b) = say-Talks o line u a.still plain.0 in
    let (w, g, c) = talk-Talks o lines v b.still plain.1 in
    (
      w,
      ap (λ out. next (next out (say o line)) (talk o lines)) e
          ∙ ap (λ out. next out (talk o lines)) f
          ∙ g,
      Talks-trans (Talks-trans a b) c,
    )
