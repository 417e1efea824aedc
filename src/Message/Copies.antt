-- ===== src/Message/Copies.antt =====
-- Copies, moves and the queue operations.
use zmqpp_pty.Base.{
  ℕ, suc, ◌≡◌, refl, ap, true, false, List, [], ◌∷◌, ◌++◌, map, Bytes, some, length, get_elem?, set,
  erase_at, pop_back, ok, err, assertion, ltb, ◌==◌, arith, get_elem?-set_self, get_elem?-set_ne,
  get_elem?-some-lt, length-append, ◌≢◌,
}
use zmqpp_pty.Message.Frames
use zmqpp_pty.Message.Frames.{Frame, frame, mark_sent}
use zmqpp_pty.Message.{
  Message, parts, copy, copy_from, pop_front, pop_last, push_front, remove, add_raw, sent,
}
use zmqpp_pty.Inet.Memory.{Order}
use zmqpp_pty.Message.Values.{Value}

map-copy : (fs : List Frame) → map Frames.copy fs ≡ fs
unfolding Frames.copy
map-copy [] = refl
map-copy (f ∷ fs) = ap (◌∷◌ f) (map-copy fs)

-- A copy has the parts of its source, sent flags included. `copy()` starts a new message with its
-- cursor at 0, and `copy(source)` leaves the cursor of the message that it overwrites.
pub copy_lem :
    (this source : Message)
    → (copy_from this source ≡ record { frames = source.frames; read_cursor = this.read_cursor })
      × (copy source ≡ record { frames = source.frames; read_cursor = 0 })
unfolding copy copy_from
copy_lem this source = (rw (map-copy source.frames), rw (map-copy source.frames))

pop_back-append : {A : Type 0} (xs : List A) (x : A) → pop_back (xs ++ x ∷ []) ≡ xs
pop_back-append [] x = refl
pop_back-append (y ∷ []) x = refl
pop_back-append (y ∷ z ∷ xs) x = ap (◌∷◌ y) (pop_back-append (z ∷ xs) x)

erase_at-append : {A : Type 0} (xs : List A) (x : A) → erase_at (xs ++ x ∷ []) (length xs) ≡ xs
erase_at-append [] x = refl
erase_at-append (y ∷ xs) x = ap (◌∷◌ y) (erase_at-append xs x)

-- `pop_front` undoes `push_front`, `pop_back` undoes `push_back`, and `remove` at the end is
-- `pop_back`.
pub pops :
    (o : Order) (m : Message) (v : Value) (bs : Bytes)
    → (pop_front (push_front o m v) ≡ ok m)
      × (pop_last (add_raw m bs) ≡ ok m)
      × (remove (add_raw m bs) (parts m) ≡ ok m)
unfolding pop_front pop_last push_front remove add_raw
pops o m v bs =
    let some_back : (length (m.frames ++ frame bs ∷ []) == 0) ≡ false =
      ground (arith, length-append m.frames (frame bs ∷ [])) in
    let in_range : ltb (parts m) (length (m.frames ++ frame bs ∷ [])) ≡ true =
      ground (arith, length-append m.frames (frame bs ∷ [])) in
    let front : (suc (length m.frames) == 0) ≡ false = ground arith in
    (
      rw front,
      rw (some_back, pop_back-append m.frames (frame bs)),
      rw (in_range, erase_at-append m.frames (frame bs)),
    )

-- A frame not sent before is marked as sent, with its contents kept and every other frame as it
-- was; marking it again fails the assertion.
pub sent-unsent :
    (m : Message) (i : ℕ) (f : Frame)
    → get_elem? m.frames i ≡ some f
    → f.is_sent ≡ false
    → (m' : Message) × (sent m i ≡ ok m')
      × (get_elem? m'.frames i ≡ some (record f { is_sent = true }))
      × ((j : ℕ) → i ≢ j → get_elem? m'.frames j ≡ get_elem? m.frames j)
      × (sent m' i ≡ err assertion)
unfolding sent
sent-unsent m i f e s =
    let marked = get_elem?-set_self m.frames i (mark_sent f) (get_elem?-some-lt m.frames i e) in
    (
      record m { frames = set m.frames i (mark_sent f) },
      rw (e, sent, s),
      marked,
      λ j n. get_elem?-set_ne m.frames i j _ n,
      rw (marked, sent),
    )
