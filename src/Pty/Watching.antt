-- ===== src/Pty/Watching.antt =====
-- The poller of `poll_messages` in zmq_pty_client.cpp: no call of it throws.
use zmqpp_pty.Base.{
  ℕ, suc, ◌<◌, ◌≡◌, ◌≢◌, refl, ap, true, false, List, [], ◌∷◌, some, length, set, get_elem?-lt,
  length-set, ok, arith,
}
use zmqpp_pty.Poller
use zmqpp_pty.Poller.{Poller, Run, Answer, failed, polled, PollItem, eintr, set_revents, poll_in}
use zmqpp_pty.Pty.{look, watching}

-- The socket and the terminal are in the poller.
pub record Watches (s : ℕ) (p : Poller) : Type 0 where
  pub socket : p.index s ≡ some 0
  pub terminal : p.fdindex 1 ≡ some 1
  pub items : 1 < length p.items

length-set_revents : (xs : List PollItem) (rs : List ℕ) → length (set_revents xs rs) ≡ length xs
unfolding set_revents
length-set_revents [] rs = refl
length-set_revents (x ∷ xs) [] = refl
length-set_revents (x ∷ xs) (r ∷ rs) = ap suc (length-set_revents xs rs)

pub watching-Watches : (s : ℕ) → s ≢ 0 → Watches s (watching s true)
unfolding Poller.add_socket Poller.add_fd
watching-Watches s h = record {
  socket = ground arith;
  terminal = ground arith;
  items = ground arith;
}

check_socket :
    (p : Poller) (s e : ℕ)
    → Watches s p
    → (q : Poller) × (Poller.check_for_socket p s e ≡ (q, ok tt)) × Watches s q
unfolding Poller.check_for_socket
check_socket p s e w =
    let (x, here) = get_elem?-lt p.items 0 (omega (arith, w.items)) in
    (
      record p { items = set p.items 0 (record x { events = e }) },
      ground (arith, w.socket, here),
      record {
        socket = w.socket;
        terminal = w.terminal;
        items = omega (arith, w.items, length-set p.items 0 (record x { events = e }));
      },
    )

check_terminal :
    (p : Poller) (s e : ℕ)
    → Watches s p
    → (q : Poller) × (Poller.check_for_fd p 1 e ≡ (q, ok tt)) × Watches s q
unfolding Poller.check_for_fd
check_terminal p s e w =
    let (x, here) = get_elem?-lt p.items 1 w.items in
    (
      record p { items = set p.items 1 (record x { events = e }) },
      ground (arith, w.terminal, here),
      record {
        socket = w.socket;
        terminal = w.terminal;
        items = omega (arith, w.items, length-set p.items 1 (record x { events = e }));
      },
    )

-- Neither `check_for` throws.
pub look-poll :
    (s : ℕ) (p : Poller) (a : Answer)
    → Watches s p
    → (q : Poller) × (look s true p a ≡ Poller.poll q a) × Watches s q
unfolding look
look-poll s p a w =
    let (p₁, first, w₁) = check_socket p s poll_in w in
    let (p₂, second, w₂) = check_terminal p₁ s poll_in w₁ in (p₂, rw (first, look, second) refl, w₂)

pub polled-Watches :
    {s : ℕ} (p : Poller) (rs : List ℕ)
    → Watches s p
    → Watches s (record p { items = set_revents p.items rs })
polled-Watches p rs w = record {
  socket = w.socket;
  terminal = w.terminal;
  items = omega (arith, w.items, length-set_revents p.items rs);
}

-- A round in which nothing is reported.
abbrev pub IsQuiet : Answer → Type 0
IsQuiet (failed e) = e ≡ eintr
IsQuiet (polled rs n) = n ≡ 0

pub poll_quiet :
    {s : ℕ} (p : Poller) (a : Answer)
    → Watches s p
    → IsQuiet a
    → (q : Poller) × (Poller.poll p a ≡ (q, ok false)) × Watches s q
unfolding Poller.poll
poll_quiet p (failed e) w h = (p, ground arith, w)
poll_quiet p (polled rs n) w h =
    (record p { items = set_revents p.items rs }, ground arith, polled-Watches p rs w)

pub poll_some :
    (p : Poller) (rs : List ℕ) (n : ℕ)
    → Poller.poll p (polled rs (suc n)) ≡ (record p { items = set_revents p.items rs }, ok true)
unfolding Poller.poll
poll_some p rs n = ground arith
