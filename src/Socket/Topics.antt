-- ===== src/Socket/Topics.antt =====
-- zmqpp/socket.hpp and socket.cpp: the helpers over the options and the small calls: subscriptions,
-- `has_more_parts`, `join`, `monitor` and `unmonitor`, and `track_message`.
use zmqpp_pty.Base.{
  ℕ, ◌≡◌, ◌≢◌, refl, Bool, true, false, List, [], ◌∷◌, ◌++◌, map, Option, none, some, Bytes, ◌==◌,
  if◌then◌else◌, Result, ok, err, zmq_internal, assertion, arith,
}
use zmqpp_pty.Socket.Options.{SocketOption, Payload, Setting}
use zmqpp_pty.Socket.Options.Setters.{Net, set_string, call, accept_or_throw}
use zmqpp_pty.Socket.Options.Getters.{Source, get_bool}
use zmqpp_pty.Socket.Endpoints.{call_endpoint}

unfoldable pub subscribe : Net → Bytes → Setting
unfolding set_string
subscribe net topic = set_string net SocketOption.subscribe topic

unfoldable pub unsubscribe : Net → Bytes → Setting
unfolding set_string
unsubscribe net topic = set_string net SocketOption.unsubscribe topic

-- A call, and the calls after it unless it throws.
abbrev pub then_set : Setting → Setting → Setting
then_set first later = record {
  calls = first.calls ++ after first.result later.calls;
  result = result_of first.result later.result;
}
  where
    after : Result (Unit {0}) → List (SocketOption × Payload) → List (SocketOption × Payload)
    after (ok done) calls = calls
    after (err e) calls = []

    result_of : Result (Unit {0}) → Result (Unit {0}) → Result (Unit {0})
    result_of (ok done) r = r
    result_of (err e) r = err e

-- The loop of the overloads for two iterators.
unfoldable pub each_topic : (Bytes → Setting) → List Bytes → Setting
each_topic f [] = record { calls = []; result = ok tt }
each_topic f (t ∷ ts) = then_set (f t) (each_topic f ts)

unfoldable pub subscribe_all : Net → List Bytes → Setting
unfolding each_topic subscribe
subscribe_all net ts = each_topic (subscribe net) ts

unfoldable pub unsubscribe_all : Net → List Bytes → Setting
unfolding each_topic unsubscribe
unsubscribe_all net ts = each_topic (unsubscribe net) ts

unfoldable pub has_more_parts : Source → Result Bool
unfolding get_bool
has_more_parts net = get_bool net SocketOption.receive_more

-- `join`: only a dish socket may; by the error of the call.
unfoldable pub join : Bool → Option ℕ → Result Bool
join is_dish none = if is_dish then ok true else err assertion
join is_dish (some e) = if is_dish then ok false else err assertion

unfoldable pub monitor : Option ℕ → Result (Unit {0})
unfolding call_endpoint
monitor failure = call_endpoint failure

unfoldable pub unmonitor : Option ℕ → Result (Unit {0})
unfolding call_endpoint
unmonitor failure = call_endpoint failure

-- `should_delete` afterwards.
unfoldable pub track_message : ℕ → Bool → Bool
track_message parts should_delete = if parts == 0 then true else should_delete

-- libzmq accepts the option for each of the topics.
abbrev pub AllAccepted : Net → SocketOption → List Bytes → Type 0
AllAccepted net o [] = Unit
AllAccepted net o (t ∷ ts) = (net o (Payload.bytes t) ≡ 0) × AllAccepted net o ts

abbrev pub topic_calls : SocketOption → List Bytes → List (SocketOption × Payload)
topic_calls o ts = map (λ t. (o, Payload.bytes t)) ts

refused_code : (code : ℕ) → code ≢ 0 → accept_or_throw code ≡ err (zmq_internal code)
unfolding accept_or_throw
refused_code code h = ground arith

-- The topics were accepted in order; and where one is refused, the calls end with it.
abbrev pub Topics : Net → SocketOption → (List Bytes → Setting) → Type 0
Topics net o f =
    (ts : List Bytes) (t : Bytes) (later : List Bytes)
    → AllAccepted net o ts
    → net o (Payload.bytes t) ≢ 0
    → (f ts ≡ record { calls = topic_calls o ts; result = ok tt })
      × (f (ts ++ t ∷ later) ≡ record {
        calls = topic_calls o (ts ++ t ∷ []);
        result = err (zmq_internal (net o (Payload.bytes t)));
      })

each_topic_lem :
    (net : Net) (o : SocketOption) (f : Bytes → Setting)
    → ((t : Bytes) → f t ≡ call net o (Payload.bytes t))
    → Topics net o (each_topic f)
unfolding each_topic call accept_or_throw
each_topic_lem net o f same [] t later a h = (refl, rw (same t, refused_code _ h) refl)
each_topic_lem net o f same (u ∷ us) t later a h =
    let (all, stops) = each_topic_lem net o f same us t later a.1 h in
    (rw (same u, a.0, all) refl, rw (same u, a.0, stops) refl)

-- While libzmq accepts the topics, the overloads of `subscribe` and `unsubscribe` for two iterators make
-- one call for each, in order; at the first that is refused they throw, and do not try those after it.
pub subscribe_all-Topics :
    (net : Net)
    → Topics net SocketOption.subscribe (subscribe_all net)
      × Topics net SocketOption.unsubscribe (unsubscribe_all net)
unfolding subscribe_all unsubscribe_all
subscribe_all-Topics net = (
  each_topic_lem net SocketOption.subscribe (subscribe net) (λ t. refl),
  each_topic_lem net SocketOption.unsubscribe (unsubscribe net) (λ t. refl),
)
