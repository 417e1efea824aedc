-- ===== src/Reactor/Flushing.antt =====
-- What the removals that were put off take out of a reactor and its poller.
use zmqpp_pty.Base.{
  ℕ, ◌≡◌, refl, sym, ap, ◌∙◌, Bool, ◌||◌, List, [], ◌∷◌, none, if◌then◌else◌, Bool-cases, inl, inr,
  arith,
}
use zmqpp_pty.Poller.{PollItem}
use zmqpp_pty.Poller.Index.{Key, sock, file, same, key, view}
use zmqpp_pty.Poller.Remove.{remove-Removed}
use zmqpp_pty.Loop.{is_socket, is_fd, each}
use zmqpp_pty.Loop.Removal.{
  without, any_of, without-nothing, without-without, without-same, erase_if-without,
}
use zmqpp_pty.Reactor.{Reactor, Ran, remove_socket, remove_fd, flush_remove_later}
use zmqpp_pty.Reactor.Wellformed.{
  IsSound, Quietly, followed_ok, remove_socket-IsSound, remove_fd-IsSound, each-Quietly,
}

-- The items with these keys, and no other, are taken out of the reactor and of its poller.
pub record Took (gone : Key → Bool) (r after : Reactor) : Type 0 where
  pub items : after.items ≡ without (λ e. gone (key e.item)) r.items
  pub views : (k : Key) → view after.poller k ≡ (if gone k then none else view r.poller k)

-- The keys whose removal was put off.
abbrev pub put_off : Reactor → Key → Bool
put_off r k =
    any_of (λ d. same k (file d)) r.fd_later || any_of (λ s. same k (sock s)) r.socket_later

Took-then :
    (g h : Key → Bool) (r a b : Reactor) → Took g r a → Took h a b → Took (λ k. g k || h k) r b
Took-then g h r a b x y = record {
  items = y.items ∙ ap (without (λ e. h (key e.item))) x.items ∙ without-without _ _ r.items;
  views = λ k. y.views k ∙ elim (Bool-cases (g k)) [
    | inl t ↦ rw (x.views k, t) (elim (Bool-cases (h k)) [ inl u ↦ rw u refl | inr u ↦ rw u refl ])
    | inr t ↦ rw (x.views k, t) refl
  ];
}

is_socket-same : (s : ℕ) (item : PollItem) → is_socket s item ≡ same (key item) (sock s)
is_socket-same s item = ground arith

is_fd-same : (d : ℕ) (item : PollItem) → is_fd d item ≡ same (key item) (file d)
is_fd-same d item = ground arith

remove_socket-Took :
    (r : Reactor) (s : ℕ) → IsSound r → Took (λ k. same k (sock s)) r (remove_socket r s).0
unfolding remove_socket
remove_socket-Took r s i = rw (i.idle) (record {
  items =
      erase_if-without (is_socket s) r.items
      ∙ without-same _ _ r.items (λ e. is_socket-same s e.item);
  views = (remove-Removed r.poller (sock s) i.indexed).reads;
})

remove_fd-Took : (r : Reactor) (d : ℕ) → IsSound r → Took (λ k. same k (file d)) r (remove_fd r d).0
unfolding remove_fd
remove_fd-Took r d i = rw (i.idle) (record {
  items = erase_if-without (is_fd d) r.items ∙ without-same _ _ r.items (λ e. is_fd-same d e.item);
  views = (remove-Removed r.poller (file d) i.indexed).reads;
})

each-Took :
    (f : Reactor → ℕ → Ran (Unit {0})) (key_of : ℕ → Key)
    → ((r : Reactor) (x : ℕ) → IsSound r → Quietly r (f r x))
    → ((r : Reactor) (x : ℕ) → IsSound r → Took (λ k. same k (key_of x)) r (f r x).0)
    → (xs : List ℕ) (r : Reactor) → IsSound r
    → Took (λ k. any_of (λ x. same k (key_of x)) xs) r (each f xs r).0
unfolding each any_of
each-Took f key_of quiet took [] r i = record {
  items = sym (without-nothing r.items);
  views = λ k. refl;
}
each-Took f key_of quiet took (x ∷ xs) r i =
    let one = quiet r x i in
    let rest = each-Took f key_of quiet took xs (f r x).0 one.1 in
    rw (followed_ok (f r x) (λ r'. each f xs r') one.0)
      (Took-then (λ k. same k (key_of x)) _ r (f r x).0 _ (took r x i) rest)

pub flush-Took : (r : Reactor) → IsSound r → Took (put_off r) r (flush_remove_later r).0
unfolding flush_remove_later
flush-Took r i =
    let fds = each-Quietly remove_fd remove_fd-IsSound r.fd_later r i in
    let after = (each remove_fd r.fd_later r).0 in
    let sockets = each-Quietly remove_socket remove_socket-IsSound r.socket_later after fds.1 in
    let took =
      Took-then _ _ r after (each remove_socket r.socket_later after).0
        (each-Took remove_fd file remove_fd-IsSound remove_fd-Took r.fd_later r i)
        (each-Took remove_socket sock remove_socket-IsSound remove_socket-Took r.socket_later after
          fds.1) in
    rw
      (
        followed_ok (each remove_fd r.fd_later r) _ fds.0,
        followed_ok (each remove_socket r.socket_later after) _ sockets.0,
      )
      (record { items = took.items; views = took.views })
