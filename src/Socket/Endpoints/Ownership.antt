-- ===== src/Socket/Endpoints/Ownership.antt =====
-- The objects of a program and the handles that are open in libzmq, over any sequence of calls.
use zmqpp_pty.Base.{
  ℕ, suc, ◌+◌, ◌≤◌, ◌<◌, ◌≡◌, refl, ◌∙◌, List, [], ◌∷◌, ◌++◌, Option, none, some, if◌then◌else◌,
  ◌==◌, arith, Bool-cases, inl, inr,
}
use zmqpp_pty.Socket.Endpoints.{
  Handle, opened, create, close, destroy, remove, move_construct, move_assign,
}

-- The objects that live, and the handles that are open.
pub record Sockets : Type 0 where
  pub objects : List Handle
  pub handles : List ℕ

abbrev pub sockets : List Handle → List ℕ → Sockets
sockets objects handles = record { objects = objects; handles = handles }

-- How often a handle is open, and how many objects own it.
unfoldable pub count : ℕ → List ℕ → ℕ
count h [] = 0
count h (g ∷ handles) = if h == g then suc (count h handles) else count h handles

abbrev pub owns : ℕ → Handle → ℕ
owns h none = 0
owns h (some g) = if h == g then 1 else 0

unfoldable pub owners : ℕ → List Handle → ℕ
owners h [] = 0
owners h (o ∷ objects) = owns h o + owners h objects

-- One call on one object, or on two. libzmq answers with a handle that is not open, and closes the
-- handles that are.
pub data Step : Sockets → Sockets → Type 0 where
  creates :
      (objects : List Handle) (handles : List ℕ) (h : ℕ)
      → count h handles ≡ 0
      → Step (sockets objects handles) (sockets (some h ∷ objects) (create handles (opened h)).0)
  closes :
      (xs ys : List Handle) (o : Handle) (handles : List ℕ) (failure : Option ℕ)
      → Step
          (sockets (xs ++ o ∷ ys) handles)
          (sockets (xs ++ (close handles o failure).1.0 ∷ ys) (close handles o failure).0)
  destroys :
      (xs ys : List Handle) (o : Handle) (handles : List ℕ)
      → Step (sockets (xs ++ o ∷ ys) handles) (sockets (xs ++ ys) (destroy handles o none).0)
  moves :
      (xs ys : List Handle) (o : Handle) (handles : List ℕ)
      → Step
          (sockets (xs ++ o ∷ ys) handles)
          (sockets ((move_construct o).0 ∷ (xs ++ (move_construct o).1 ∷ ys)) handles)
  assigns :
      (xs ys zs : List Handle) (o p : Handle) (handles : List ℕ)
      → Step
          (sockets (xs ++ o ∷ (ys ++ p ∷ zs)) handles)
          (sockets (xs ++ (move_assign o p).0 ∷ (ys ++ (move_assign o p).1 ∷ zs)) handles)

-- Some number of calls.
pub data Steps : Sockets → Sockets → Type 0 where
  stays : (s : Sockets) → Steps s s
  then_step : (s t u : Sockets) → Steps s t → Step t u → Steps s u

-- Each open handle is open once and has one owner, and no other handle has an owner.
pub record IsOwned (s : Sockets) : Type 0 where
  pub owned : (h : ℕ) → owners h s.objects ≡ count h s.handles
  pub once : (h : ℕ) → count h s.handles ≤ 1

owners-append : (h : ℕ) (xs ys : List Handle) → owners h (xs ++ ys) ≡ owners h xs + owners h ys
unfolding owners
owners-append h [] ys = omega arith
owners-append h (x ∷ xs) ys = omega (arith, owners-append h xs ys)

pub count-remove :
    (h g : ℕ) (handles : List ℕ)
    → 0 < count g handles
    → count h (remove g handles) + owns h (some g) ≡ count h handles
unfolding count remove
count-remove h g [] p = absurd (omega arith)
count-remove h g (k ∷ handles) p = elim (Bool-cases (g == k)) [
  | inl e ↦ ground arith
  | inr d ↦ ground (arith, count-remove h g handles (ground arith))
]

-- The owners are the same, or one of them is gone with its handle.
same_owners :
    (objects objects' : List Handle) (handles : List ℕ)
    → ((h : ℕ) → owners h objects' ≡ owners h objects)
    → IsOwned (sockets objects handles)
    → IsOwned (sockets objects' handles)
same_owners objects objects' handles e i = record { owned = λ h. e h ∙ i.owned h; once = i.once }

one_owner_less :
    (objects objects' : List Handle) (handles : List ℕ) (g : ℕ)
    → ((h : ℕ) → owners h objects' + owns h (some g) ≡ owners h objects)
    → IsOwned (sockets objects handles)
    → IsOwned (sockets objects' (remove g handles))
one_owner_less objects objects' handles g e i =
    let mine : owns g (some g) ≡ 1 = ground arith in
    let there : 0 < count g handles = omega (arith, e g, i.owned g, mine) in
    record {
      owned = λ h. omega (arith, e h, i.owned h, count-remove h g handles there);
      once = λ h. omega (arith, i.once h, count-remove h g handles there);
    }

middle :
    (h : ℕ) (xs ys : List Handle) (o : Handle)
    → owners h (xs ++ o ∷ ys) ≡ owners h xs + owns h o + owners h ys
unfolding owners
middle h xs ys o = omega (arith, owners-append h xs (o ∷ ys))

closes-IsOwned :
    (xs ys : List Handle) (o : Handle) (handles : List ℕ) (failure : Option ℕ)
    → IsOwned (sockets (xs ++ o ∷ ys) handles)
    → IsOwned (sockets (xs ++ (close handles o failure).1.0 ∷ ys) (close handles o failure).0)
unfolding close
closes-IsOwned xs ys none handles failure i = i
closes-IsOwned xs ys (some g) handles none i =
    one_owner_less _ _ handles g (λ h. omega (arith, middle h xs ys none, middle h xs ys (some g)))
      i
closes-IsOwned xs ys (some g) handles (some e) i = i

destroys-IsOwned :
    (xs ys : List Handle) (o : Handle) (handles : List ℕ)
    → IsOwned (sockets (xs ++ o ∷ ys) handles)
    → IsOwned (sockets (xs ++ ys) (destroy handles o none).0)
unfolding destroy
destroys-IsOwned xs ys none handles i =
    same_owners _ _ handles (λ h. omega (arith, middle h xs ys none, owners-append h xs ys)) i
destroys-IsOwned xs ys (some g) handles i =
    one_owner_less _ _ handles g
      (λ h. omega (arith, middle h xs ys (some g), owners-append h xs ys)) i

Step-IsOwned : (s t : Sockets) → Step s t → IsOwned s → IsOwned t
unfolding create move_construct move_assign owners count
Step-IsOwned s t (creates objects handles g fresh) i = record {
  owned = λ h. ground (arith, i.owned h);
  once = λ h. elim (Bool-cases (h == g)) [
    | inl e ↦ ground (arith, fresh)
    | inr d ↦ ground (arith, i.once h)
  ];
}
Step-IsOwned s t (closes xs ys o handles failure) i = closes-IsOwned xs ys o handles failure i
Step-IsOwned s t (destroys xs ys o handles) i = destroys-IsOwned xs ys o handles i
Step-IsOwned s t (moves xs ys o handles) i =
    same_owners _ _ handles (λ h. omega (arith, middle h xs ys o, middle h xs ys none)) i
Step-IsOwned s t (assigns xs ys zs o p handles) i =
    same_owners _ _ handles
      (λ h. omega (
        arith,
        middle h xs (ys ++ p ∷ zs) o,
        middle h ys zs p,
        middle h xs (ys ++ o ∷ zs) p,
        middle h ys zs o,
      ))
      i

-- After any sequence of constructions, closes, moves and destructions that starts without objects,
-- when libzmq answers with handles that are not open and a destructor's close succeeds: each handle
-- that is open is open once and has exactly one object that owns it, and no object owns a handle that
-- is not open.
pub steps-IsOwned : (s : Sockets) → Steps (sockets [] []) s → IsOwned s
unfolding owners count
steps-IsOwned s steps =
    go (sockets [] []) s steps (record { owned = λ h. refl; once = λ h. omega arith })
  where
    go : (s t : Sockets) → Steps s t → IsOwned s → IsOwned t
    go s t (stays u) i = i
    go s t (then_step u v w before step) i = Step-IsOwned v w step (go u v before i)
