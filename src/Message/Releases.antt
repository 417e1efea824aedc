-- ===== src/Message/Releases.antt =====
-- message.cpp: `move`, `release_callback`, `remove`, `pop_front` and `pop_back`, and frame.cpp: the move
-- assignment and the destructor of a frame. A part of user memory is the memory's number and that of
-- the `callback_releaser` that was allocated for it. libzmq calls the callback once, when the part is
-- closed for the last time: by the message, or by libzmq after it has taken the part to send it.
pub mod Balance
use mathlib.Core.Path.{subst}
use zmqpp_pty.Base.{
  ℕ, ◌+◌, ◌<◌, ◌≤◌, ◌≡◌, refl, sym, ap, ◌∙◌, Bool, true, false, List, [], ◌∷◌, ◌++◌, ◌==◌,
  if◌then◌else◌, Bool-cases, inl, inr, Result, ok, err, undefined, arith,
}
use zmqpp_pty.Socket.Endpoints.{remove}
use zmqpp_pty.Socket.Endpoints.Ownership.{count, count-remove}

pub data Part : Type 0 where
  copied : Part
  borrowed : ℕ → ℕ → Part

pub record Memory : Type 0 where
  pub parts : List Part
  -- the parts that libzmq has taken to send them
  pub in_flight : List Part
  -- the parts that were overwritten without being closed
  pub lost : List Part
  -- the releasers that are allocated, and the number of the next one
  pub releasers : List ℕ
  pub next : ℕ
  -- the memory given to `move`, and that given to the release functions
  pub moved : List ℕ
  pub released : List ℕ

abbrev pub nothing : Memory
nothing = record {
  parts = [];
  in_flight = [];
  lost = [];
  releasers = [];
  next = 0;
  moved = [];
  released = [];
}

-- `message::move`.
unfoldable pub move : ℕ → Memory → Memory
move d s = record s {
  parts = s.parts ++ borrowed d s.next ∷ [];
  releasers = s.next ∷ s.releasers;
  next = s.next + 1;
  moved = d ∷ s.moved;
}

abbrev pub is_live : ℕ → List ℕ → Bool
is_live h [] = false
is_live h (g ∷ releasers) = if h == g then true else is_live h releasers

-- `release_callback`: the releaser is called and deleted.
unfoldable pub release_callback : ℕ → ℕ → Memory → Result Memory
unfolding remove
release_callback d h s =
    if is_live h s.releasers
    then ok (record s { released = d ∷ s.released; releasers = remove h s.releasers })
    else err undefined

-- `zmq_msg_close`.
unfoldable pub close : Part → Memory → Result Memory
unfolding release_callback
close copied s = ok s
close (borrowed d h) s = release_callback d h s

-- `std::move` of the later parts onto the removed one, which `vector::erase` does: the parts that stay,
-- those that are overwritten, and the one in the last slot. The move assignment of a frame initialises
-- the target's message again without closing it, and leaves the source empty.
unfoldable pub shift_down : Part → List Part → List Part × List Part × Part
shift_down p [] = ([], [], p)
shift_down p (q ∷ qs) = let rest = shift_down copied qs in (q ∷ rest.0, p ∷ rest.1, rest.2)

-- `_parts.erase` of the part `p` between `xs` and `ys`: then the last slot is destroyed.
unfoldable pub erase : List Part → Part → List Part → Memory → Result Memory
unfolding shift_down close
erase xs p ys s =
    let shifted = shift_down p ys in
    close shifted.2 (record s { parts = xs ++ shifted.0; lost = shifted.1 ++ s.lost })

-- What happens to the parts of a message: memory is moved in or data copied in, a part is removed, or
-- taken by libzmq, which closes it some time later; and the destructor closes one part after the other.
pub data Step : Memory → Memory → Type 0 where
  moves : (s : Memory) (d : ℕ) → Step s (move d s)
  adds : (s : Memory) → Step s (record s { parts = s.parts ++ copied ∷ [] })
  removes :
      (s t : Memory) (xs ys : List Part) (p : Part)
      → s.parts ≡ xs ++ p ∷ ys
      → erase xs p ys s ≡ ok t
      → Step s t
  destroys :
      (s t : Memory) (ys : List Part) (p : Part)
      → s.parts ≡ p ∷ ys
      → close p (record s { parts = ys }) ≡ ok t
      → Step s t
  takes :
      (s : Memory) (xs ys : List Part) (p : Part)
      → s.parts ≡ xs ++ p ∷ ys
      → Step s (record s { parts = xs ++ copied ∷ ys; in_flight = p ∷ s.in_flight })
  finishes :
      (s t : Memory) (xs ys : List Part) (p : Part)
      → s.in_flight ≡ xs ++ p ∷ ys
      → close p (record s { in_flight = xs ++ ys }) ≡ ok t
      → Step s t

pub data Steps : Memory → Memory → Type 0 where
  stays : (s : Memory) → Steps s s
  then_step : (s t u : Memory) → Steps s t → Step t u → Steps s u
