-- ===== src/Message/Releases/Balance.antt =====
-- Memory that is moved into a message is released once, by a releaser that is still there, or is lost.
use mathlib.Core.Path.{subst}
use zmqpp_pty.Base.{
  ℕ, ◌+◌, ◌<◌, ◌≤◌, ◌≡◌, refl, sym, ap, ◌∙◌, true, List, [], ◌∷◌, ◌++◌, ◌==◌, if◌then◌else◌,
  Bool-cases, inl, inr, Result, ok, err, arith,
}
use zmqpp_pty.Socket.Endpoints.{remove}
use zmqpp_pty.Socket.Endpoints.Ownership.{count, count-remove}
use zmqpp_pty.Message.Releases.{
  Part, copied, borrowed, Memory, nothing, move, is_live, release_callback, close, shift_down,
  erase, Step, moves, adds, removes, destroys, takes, finishes, Steps, stays, then_step,
}

-- How often parts use a releaser, and memory.
abbrev pub uses : ℕ → Part → ℕ
uses h copied = 0
uses h (borrowed d g) = if h == g then 1 else 0

abbrev pub holds : ℕ → Part → ℕ
holds d copied = 0
holds d (borrowed c g) = if d == c then 1 else 0

abbrev pub total : (Part → ℕ) → List Part → ℕ
total w [] = 0
total w (p ∷ ps) = w p + total w ps

total-append : (w : Part → ℕ) (xs ys : List Part) → total w (xs ++ ys) ≡ total w xs + total w ys
total-append w [] ys = omega arith
total-append w (x ∷ xs) ys = omega (arith, total-append w xs ys)

total-middle :
    (w : Part → ℕ) (xs ys : List Part) (p : Part)
    → total w (xs ++ p ∷ ys) ≡ total w (xs ++ ys) + w p
total-middle w xs ys p = omega (arith, total-append w xs (p ∷ ys), total-append w xs ys)

-- Each allocated releaser belongs to one part that is not closed, and each piece of memory moved in is
-- in a part that is open or lost, or was released.
pub record IsBalanced (s : Memory) : Type 0 where
  pub live :
      (h : ℕ)
      → total (uses h) s.parts + total (uses h) s.in_flight + total (uses h) s.lost
        ≡ count h s.releasers
  pub once : (h : ℕ) → count h s.releasers ≤ 1
  pub fresh : (h : ℕ) → s.next ≤ h → count h s.releasers ≡ 0
  pub kept :
      (d : ℕ)
      → count d s.moved
        ≡ count d s.released
          + total (holds d) s.parts
          + total (holds d) s.in_flight
          + total (holds d) s.lost

move-IsBalanced : (s : Memory) (d : ℕ) → IsBalanced s → IsBalanced (move d s)
unfolding move count
move-IsBalanced s d b = record {
  live = λ h. ground (arith, b.live h, total-append (uses h) s.parts (borrowed d s.next ∷ []));
  once = λ h. ground (arith, b.once h, b.fresh h);
  fresh = λ h above. ground (arith, b.fresh h);
  kept = λ c. ground (arith, b.kept c, total-append (holds c) s.parts (borrowed d s.next ∷ []));
}

-- The same while `p` is being closed: it stands in no list.
record IsClosing (p : Part) (s : Memory) : Type 0 where
  pub live :
      (h : ℕ)
      → total (uses h) s.parts + total (uses h) s.in_flight + total (uses h) s.lost + uses h p
        ≡ count h s.releasers
  pub once : (h : ℕ) → count h s.releasers ≤ 1
  pub fresh : (h : ℕ) → s.next ≤ h → count h s.releasers ≡ 0
  pub kept :
      (d : ℕ)
      → count d s.moved
        ≡ count d s.released
          + total (holds d) s.parts
          + total (holds d) s.in_flight
          + total (holds d) s.lost
          + holds d p

is_live-count : (h : ℕ) (releasers : List ℕ) → 0 < count h releasers → is_live h releasers ≡ true
unfolding count
is_live-count h [] c = absurd (omega arith)
is_live-count h (g ∷ releasers) c = elim (Bool-cases (h == g)) [
  | inl e ↦ rw e refl
  | inr d ↦ rw d (is_live-count h releasers (rw (d, count) at c))
]

count-cons : (b d g : ℕ) (xs : List ℕ) → count b (d ∷ xs) ≡ count b xs + holds b (borrowed d g)
unfolding count
count-cons b d g xs = ground arith

-- The callback finds its releaser.
close_lem :
    (p : Part) (s : Memory) → IsClosing p s → (t : Memory) × (close p s ≡ ok t) × IsBalanced t
unfolding close release_callback
close_lem copied s c = (
  s,
  refl,
  record {
    live = λ h. omega (arith, c.live h);
    once = c.once;
    fresh = c.fresh;
    kept = λ d. omega (arith, c.kept d);
  },
)
close_lem (borrowed d g) s c =
    let mine : uses g (borrowed d g) ≡ 1 = ground arith in
    let there : 0 < count g s.releasers = omega (arith, c.live g, mine) in
    (
      record s { released = d ∷ s.released; releasers = remove g s.releasers },
      rw (is_live-count g s.releasers there) refl,
      record {
        live = λ h. omega (arith, c.live h, count-remove h g s.releasers there);
        once = λ h. omega (arith, c.once h, count-remove h g s.releasers there);
        fresh = λ h above. omega (arith, c.fresh h above, count-remove h g s.releasers there);
        kept = λ b. omega (arith, c.kept b, count-cons b d g s.released);
      },
    )

destroys-IsClosing :
    (s : Memory) (ys : List Part) (p : Part)
    → s.parts ≡ p ∷ ys
    → IsBalanced s
    → IsClosing p (record s { parts = ys })
destroys-IsClosing s ys p e b = record {
  live = λ h. omega (arith, b.live h, ap (total (uses h)) e);
  once = b.once;
  fresh = b.fresh;
  kept = λ d. omega (arith, b.kept d, ap (total (holds d)) e);
}

-- Moving the later parts up keeps them and empties their slots, so that only the part that is removed
-- is overwritten while it holds memory; and it is not overwritten if it is the last one.
shift_down-keeps : (p : Part) (ys : List Part) → (shift_down p ys).0 ≡ ys
unfolding shift_down
shift_down-keeps p [] = refl
shift_down-keeps p (q ∷ qs) = ap (◌∷◌ q) (shift_down-keeps copied qs)

shift_down-total :
    (w : Part → ℕ) (p : Part) (ys : List Part)
    → w copied ≡ 0
    → total w (shift_down p ys).1 + w (shift_down p ys).2 ≡ w p
unfolding shift_down
shift_down-total w p [] z = omega arith
shift_down-total w p (q ∷ qs) z = omega (arith, z, shift_down-total w copied qs z)

-- The memory while the last slot is destroyed.
abbrev shifted : List Part → Part → List Part → Memory → Memory
shifted xs p ys s = record s {
  parts = xs ++ (shift_down p ys).0;
  lost = (shift_down p ys).1 ++ s.lost;
}

shifted-total :
    (w : Part → ℕ) (s : Memory) (xs ys : List Part) (p : Part)
    → w copied ≡ 0
    → s.parts ≡ xs ++ p ∷ ys
    → total w (shifted xs p ys s).parts + total w (shifted xs p ys s).lost + w (shift_down p ys).2
      ≡ total w s.parts + total w s.lost
shifted-total w s xs ys p z e = omega (
  arith,
  ap (total w) e,
  ap (λ zs. total w (xs ++ zs)) (shift_down-keeps p ys),
  total-middle w xs ys p,
  total-append w (shift_down p ys).1 s.lost,
  shift_down-total w p ys z,
)

removes-IsClosing :
    (s : Memory) (xs ys : List Part) (p : Part)
    → s.parts ≡ xs ++ p ∷ ys
    → IsBalanced s
    → IsClosing (shift_down p ys).2 (shifted xs p ys s)
removes-IsClosing s xs ys p e b = record {
  live = λ h. omega (arith, b.live h, shifted-total (uses h) s xs ys p refl e);
  once = b.once;
  fresh = b.fresh;
  kept = λ d. omega (arith, b.kept d, shifted-total (holds d) s xs ys p refl e);
}

finishes-IsClosing :
    (s : Memory) (xs ys : List Part) (p : Part)
    → s.in_flight ≡ xs ++ p ∷ ys
    → IsBalanced s
    → IsClosing p (record s { in_flight = xs ++ ys })
finishes-IsClosing s xs ys p e b = record {
  live = λ h. omega (arith, b.live h, ap (total (uses h)) e, total-middle (uses h) xs ys p);
  once = b.once;
  fresh = b.fresh;
  kept = λ d. omega (arith, b.kept d, ap (total (holds d)) e, total-middle (holds d) xs ys p);
}

closed : (p : Part) (s t : Memory) → IsClosing p s → close p s ≡ ok t → IsBalanced t
closed p s t c e = let (u, f, b) = close_lem p s c in subst IsBalanced (from_ok (sym f ∙ e)) b
  where
    from_ok : {u v : Memory} → ok u ≡ ok v → u ≡ v
    from_ok q = cc

Step-IsBalanced : (s t : Memory) → Step s t → IsBalanced s → IsBalanced t
unfolding erase
Step-IsBalanced s t (moves u d) b = move-IsBalanced u d b
Step-IsBalanced s t (adds u) b = record {
  live = λ h. omega (arith, b.live h, total-append (uses h) u.parts (copied ∷ []));
  once = b.once;
  fresh = b.fresh;
  kept = λ d. omega (arith, b.kept d, total-append (holds d) u.parts (copied ∷ []));
}
Step-IsBalanced s t (removes u v xs ys p e c) b =
    closed (shift_down p ys).2 (shifted xs p ys u) v (removes-IsClosing u xs ys p e b) c
Step-IsBalanced s t (destroys u v ys p e c) b =
    closed p (record u { parts = ys }) v (destroys-IsClosing u ys p e b) c
Step-IsBalanced s t (takes u xs ys p e) b = record {
  live = λ h. omega (
    arith,
    b.live h,
    ap (total (uses h)) e,
    total-middle (uses h) xs ys p,
    total-middle (uses h) xs ys copied,
  );
  once = b.once;
  fresh = b.fresh;
  kept = λ d. omega (
    arith,
    b.kept d,
    ap (total (holds d)) e,
    total-middle (holds d) xs ys p,
    total-middle (holds d) xs ys copied,
  );
}
Step-IsBalanced s t (finishes u v xs ys p e c) b =
    closed p (record u { in_flight = xs ++ ys }) v (finishes-IsClosing u xs ys p e b) c

pub Steps-IsBalanced : (s t : Memory) → Steps s t → IsBalanced s → IsBalanced t
Steps-IsBalanced s t (stays u) b = b
Steps-IsBalanced s t (then_step u v w before step) b =
    Step-IsBalanced v w step (Steps-IsBalanced u v before b)

nothing-IsBalanced : IsBalanced nothing
unfolding count
nothing-IsBalanced = record {
  live = λ h. refl;
  once = λ h. omega arith;
  fresh = λ h above. refl;
  kept = λ d. refl;
}

-- The part that is overwritten when one is removed.
abbrev pub overwritten : Part → List Part → List Part
overwritten p [] = []
overwritten p (q ∷ qs) = p ∷ []

shift_down-overwritten :
    (w : Part → ℕ) (p : Part) (ys : List Part)
    → w copied ≡ 0
    → total w (shift_down p ys).1 ≡ total w (overwritten p ys)
unfolding shift_down
shift_down-overwritten w p [] z = refl
shift_down-overwritten w p (q ∷ qs) z = omega (arith, z, shift_down-total w copied qs z)

parts_of : Result Memory → List Part
parts_of (ok m) = m.parts
parts_of (err x) = []

lost_of : Result Memory → List Part
lost_of (ok m) = m.lost
lost_of (err x) = []

close-same : (p : Part) (s t : Memory) → close p s ≡ ok t → (t.parts ≡ s.parts) × (t.lost ≡ s.lost)
unfolding close release_callback parts_of lost_of
close-same copied s t e = (ap parts_of (sym e), ap lost_of (sym e))
close-same (borrowed d h) s t e = elim (Bool-cases (is_live h s.releasers)) [
  | inl l ↦ (ap parts_of (sym (rw l at e)), ap lost_of (sym (rw l at e)))
  | inr n ↦ cc
]

-- Whatever happened to a message before, removing a part returns, leaves the other parts in order, and
-- loses the memory of the part for ever if another part stands after it, and of no other part.
pub erase_reachable :
    (s : Memory) (xs ys : List Part) (p : Part) (d : ℕ)
    → Steps nothing s
    → s.parts ≡ xs ++ p ∷ ys
    → (t : Memory) × (erase xs p ys s ≡ ok t)
      × (t.parts ≡ xs ++ ys)
      × (total (holds d) t.lost ≡ total (holds d) (overwritten p ys) + total (holds d) s.lost)
unfolding erase
erase_reachable s xs ys p d steps e =
    let b = Steps-IsBalanced nothing s steps nothing-IsBalanced in
    let (t, run, after) =
      close_lem (shift_down p ys).2 (shifted xs p ys s) (removes-IsClosing s xs ys p e b) in
    let (parts, lost) = close-same (shift_down p ys).2 (shifted xs p ys s) t run in
    (
      t,
      run,
      parts ∙ ap (λ zs. xs ++ zs) (shift_down-keeps p ys),
      omega (
        arith,
        ap (total (holds d)) lost,
        total-append (holds d) (shift_down p ys).1 s.lost,
        shift_down-overwritten (holds d) p ys refl,
      ),
    )

-- When all parts of a message are gone, removed, destroyed or sent, after any sequence of steps from an
-- empty message, each piece of memory that was moved in has been given to its release function once
-- for each time that it was moved in, except for those parts that a removal has overwritten without
-- closing them: their memory is never released, and exactly their releasers are still allocated.
pub steps-released :
    (s : Memory) (d : ℕ)
    → Steps nothing s
    → s.parts ≡ []
    → s.in_flight ≡ []
    → (count d s.released + total (holds d) s.lost ≡ count d s.moved)
      × (count d s.releasers ≡ total (uses d) s.lost)
steps-released s d steps none_left none_sent =
    let b = Steps-IsBalanced nothing s steps nothing-IsBalanced in
    (
      omega (arith, b.kept d, ap (total (holds d)) none_left, ap (total (holds d)) none_sent),
      omega (arith, b.live d, ap (total (uses d)) none_left, ap (total (uses d)) none_sent),
    )
