-- ===== src/Loop/Removal.antt =====
-- What a series of removals leaves of the items, in the loop and in the reactor.
use zmqpp_pty.Base.{
  ℕ, ◌≡◌, refl, sym, ap, ◌∙◌, Bool, false, ◌||◌, List, [], ◌∷◌, ◌==◌, if◌then◌else◌, Bool-cases,
  inl, inr, Result, ok, err,
}
use mathlib.Core.Path.{subst}
use zmqpp_pty.Poller.{PollItem}
use zmqpp_pty.Loop.{Entry, erase_if, followed_by, each}
use zmqpp_pty.Loop.Timers.{Timer, erase_timer}

-- The elements that fail a test, in order.
unfoldable pub without {ℓ} : {A : Type ℓ} → (A → Bool) → List A → List A
without t [] = []
without t (x ∷ xs) = if t x then without t xs else x ∷ without t xs

unfoldable pub any_of : (ℕ → Bool) → List ℕ → Bool
any_of t [] = false
any_of t (x ∷ xs) = t x || any_of t xs

pub without-nothing {ℓ} : {A : Type ℓ} → (xs : List A) → without (λ x. false) xs ≡ xs
unfolding without
without-nothing [] = refl
without-nothing (x ∷ xs) = ap (◌∷◌ x) (without-nothing xs)

pub without-same {ℓ} :
    {A : Type ℓ}
    → (s t : A → Bool) (xs : List A) → ((x : A) → s x ≡ t x)
    → without s xs ≡ without t xs
unfolding without
without-same s t [] e = refl
without-same s t (x ∷ xs) e =
    rw (e x) (ap (λ ys. if t x then ys else x ∷ ys) (without-same s t xs e))

pub without-without {ℓ} :
    {A : Type ℓ}
    → (s t : A → Bool) (xs : List A) → without s (without t xs) ≡ without (λ x. t x || s x) xs
unfolding without
without-without s t [] = refl
without-without s t (x ∷ xs) = elim (Bool-cases (t x)) [
  | inl a ↦ rw a (without-without s t xs)
  | inr a ↦ elim (Bool-cases (s x)) [
    | inl b ↦ rw (a, without, b) (without-without s t xs)
    | inr b ↦ rw (a, without, b) (ap (◌∷◌ x) (without-without s t xs))
  ]
]

pub erase_if-without :
    (t : PollItem → Bool) (es : List Entry) → erase_if t es ≡ without (λ e. t e.item) es
unfolding erase_if without
erase_if-without t [] = refl
erase_if-without t (e ∷ es) = elim (Bool-cases (t e.item)) [
  | inl a ↦ rw a (erase_if-without t es)
  | inr a ↦ rw a (ap (◌∷◌ e) (erase_if-without t es))
]

pub erase_timer-without :
    (id : ℕ) (ts : List Timer) → erase_timer id ts ≡ without (λ t. t.id == id) ts
unfolding erase_timer without
erase_timer-without id [] = refl
erase_timer-without id (t ∷ ts) = elim (Bool-cases (t.id == id)) [
  | inl a ↦ rw a (erase_timer-without id ts)
  | inr a ↦ rw a (ap (◌∷◌ t) (erase_timer-without id ts))
]

pub followed_inv :
    {S : Type 0}
    → (ran : S × Result (Unit {0})) (next : S → S × Result (Unit {0})) (s : S)
    → followed_by ran next ≡ (s, ok tt)
    → next ran.0 ≡ (s, ok tt)
followed_inv (l, ok u) next s e = e
followed_inv (l, err x) next s e = cc

-- A series of removals that returned has taken out the items that pass the test of one of them.
pub each-without :
    {S : Type 0}
    → (f : S → ℕ → S × Result (Unit {0})) (items : S → List Entry) (Fine : S → Type 0)
    → (test : ℕ → PollItem → Bool)
    → ((s : S) (x : ℕ) → Fine s → (items (f s x).0 ≡ erase_if (test x) (items s)) × Fine (f s x).0)
    → (xs : List ℕ) (s s' : S) → Fine s
    → each f xs s ≡ (s', ok tt)
    → (items s' ≡ without (λ e. any_of (λ x. test x e.item) xs) (items s)) × Fine s'
unfolding each any_of
each-without f items Fine test one [] s s' fine e = (
  ap (λ r. items r.0) (sym e) ∙ sym (without-nothing (items s)),
  subst Fine (ap (λ r. r.0) e) fine,
)
each-without f items Fine test one (x ∷ xs) s s' fine e =
    let (first, fine') = one s x fine in
    let (rest, fine'') =
      each-without f items Fine test one xs (f s x).0 s' fine'
        (followed_inv (f s x) (λ r. each f xs r) s' e) in
    (
      rest
          ∙ ap (without (λ e. any_of (λ x. test x e.item) xs))
              (first ∙ erase_if-without (test x) (items s))
          ∙ without-without _ _ (items s),
      fine'',
    )
