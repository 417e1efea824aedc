-- ===== src/Message/Stream.antt =====
-- Writing and reading messages part by part, across hosts.
use zmqpp_pty.Base.{
  ℕ, suc, ◌+◌, ◌-◌, ◌%◌, ◌≤◌, ◌<◌, ◌≡◌, ◌≢◌, refl, ap, ◌∙◌, ◌⊎◌, List, [], ◌∷◌, ◌++◌, map, some,
  length, length-append, get_elem?, get_elem?-append_at, get_elem?-none, Result, ok, err, exception,
  assertion, arith,
}
use mathlib.Core.List.{append_assoc, append-nil}
use zmqpp_pty.Inet.Memory.{Order}
use zmqpp_pty.Message.Frames.{Frame, frame}
use zmqpp_pty.Message.Values.{
  Value, Kind, stream_bytes, width, from_bytes, kind, as_read, IsInRange, wire,
}
use zmqpp_pty.Message.Codec.{
  front_bytes-stream_bytes, stream_bytes-wire, from_bytes-wire, length-wire,
}
use zmqpp_pty.Message.{
  Message, empty, add_raw, parts, size_mod, get, write, add, push_front, read, remaining,
}

-- A part that is there and has the asserted size is converted.
pub get-part :
    (o : Order) (k : Kind) (m : Message) (i : ℕ) (f : Frame)
    → get_elem? m.frames i ≡ some f
    → (k ≡ Kind.string) ⊎ (length f.contents ≡ width k)
    → get o k m i ≡ ok (from_bytes o k f.contents)
unfolding get
get-part o Kind.string m i f e h = rw e
get-part o _ m i f e h = ground arith

-- Past the last part every overload of `get` throws.
pub get-past_end :
    (o : Order) (k : Kind) (m : Message) (i : ℕ)
    → parts m ≤ i
    → get o k m i ≡ err (exception "attempting to request a message part outside the valid range")
unfolding get
get-past_end o Kind.string m i h = rw (get_elem?-none m.frames i h)
get-past_end o _ m i h = rw (get_elem?-none m.frames i h)

-- Every overload of `get` but the one for strings fails its assertion on a part that has another
-- size than its type.
pub get-wrong_size :
    (o : Order) (k : Kind) (m : Message) (i : ℕ) (f : Frame)
    → get_elem? m.frames i ≡ some f
    → k ≢ Kind.string
    → length f.contents ≢ width k
    → get o k m i ≡ err assertion
unfolding get
get-wrong_size o Kind.string m i f e s w = absurd (s refl)
get-wrong_size o _ m i f e s w = ground arith

pub as_wire :
    (o p : Order) (v : Value) (m : Message) (i : ℕ)
    → IsInRange v
    → get_elem? m.frames i ≡ some (frame (stream_bytes o v))
    → get p (kind v) m i ≡ ok (as_read v)
as_wire o p v m i h e =
    get-part p (kind v) m i (frame (wire v))
      (e ∙ ap (λ bs. some (frame bs)) (stream_bytes-wire o v h)) (length-wire v)
    ∙ ap ok (from_bytes-wire p v h)

-- A value in range that one host writes is what any host reads from the part that was added.
pub get-write :
    (o p : Order) (m : Message) (v : Value)
    → IsInRange v
    → get p (kind v) (write o m v) (parts m) ≡ ok (as_read v)
unfolding write
get-write o p m v h = as_wire o p v _ (parts m) h (get_elem?-append_at m.frames _ [])

-- A value in range that one host puts in front is what any host reads from part 0, and the
-- earlier parts have moved up by one.
pub get-push_front :
    (o p : Order) (m : Message) (v : Value)
    → IsInRange v
    → (get p (kind v) (push_front o m v) 0 ≡ ok (as_read v))
      × ((k : Kind) (i : ℕ) → get p k (push_front o m v) (suc i) ≡ get p k m i)
unfolding push_front get
get-push_front o p m v h =
    (as_wire o p v _ 0 h (rw (front_bytes-stream_bytes o v)), λ k i. shift k i)
  where
    shift : (k : Kind) (i : ℕ) → get p k (push_front o m v) (suc i) ≡ get p k m i
    shift Kind.string i = refl
    shift _ i = refl

-- A chain of `>>`, which stops at the first exception.
then_read : Result Value → Result (List Value) × Message → Message → Result (List Value) × Message
then_read (err e) (rs, m') m = (err e, m)
then_read (ok v) (ok vs, m') m = (ok (v ∷ vs), m')
then_read (ok v) (err e, m') m = (err e, m')

unfoldable pub read_all : Order → List Kind → Message → Result (List Value) × Message
unfolding read then_read
read_all o [] m = (ok [], m)
read_all o (k ∷ ks) m = let (r, m') = read o k m in then_read r (read_all o ks m') m'

abbrev pub AreInRange : List Value → Type 0
AreInRange [] = Unit
AreInRange (v ∷ vs) = IsInRange v × AreInRange vs

unfoldable pub frames_of : Order → List Value → List Frame
frames_of o vs = map (λ v. frame (stream_bytes o v)) vs

pub add-frames :
    (o : Order) (m : Message) (vs : List Value)
    → add o m vs ≡ record m { frames = m.frames ++ frames_of o vs }
unfolding add write add_raw frames_of
add-frames o m [] = rw append-nil
add-frames o m (v ∷ vs) = add-frames o (write o m v) vs ∙ rw append_assoc refl

read_all_from :
    (o p : Order) (vs : List Value) (fs : List Frame) (c : ℕ) (pre : List Frame)
    → AreInRange vs
    → fs ≡ pre ++ frames_of o vs
    → c ≡ length pre
    → c + length vs < size_mod
    → read_all p (map kind vs) (record { frames = fs; read_cursor = c })
      ≡ (ok (map as_read vs), record { frames = fs; read_cursor = c + length vs })
unfolding read_all read frames_of
read_all_from o p [] fs c pre h e l b = ground arith
read_all_from o p (v ∷ vs) fs c pre h e l b =
    let first =
      as_wire o p v (record { frames = fs; read_cursor = c }) c h.0
        (rw (e, l) (get_elem?-append_at pre _ (frames_of o vs))) in
    let moved : (c + 1) % size_mod ≡ suc c = omega arith in
    let longer : suc c ≡ length (pre ++ frame (stream_bytes o v) ∷ []) =
      omega (arith, length-append pre (frame (stream_bytes o v) ∷ [])) in
    let rest =
      read_all_from o p vs fs (suc c) (pre ++ frame (stream_bytes o v) ∷ []) h.1 (rw append_assoc e)
        longer (omega arith) in
    rw (first, moved, rest) (ground arith)

pub length-frames_of : (o : Order) (vs : List Value) → length (frames_of o vs) ≡ length vs
unfolding frames_of
length-frames_of o [] = refl
length-frames_of o (v ∷ vs) = ap suc (length-frames_of o vs)

-- Fewer than 2^64 values in range that one host writes into an empty message come back in order, on
-- any host, by as many reads; the cursor ends at the number of parts, so none is left.
pub read_all-add :
    (o p : Order) (vs : List Value)
    → AreInRange vs
    → length vs < size_mod
    → let (r, m) = read_all p (map kind vs) (add o empty vs) in
      (r ≡ ok (map as_read vs)) × (remaining m ≡ 0)
unfolding remaining
read_all-add o p vs h b =
    let run = read_all_from o p vs (frames_of o vs) 0 [] h refl refl (omega arith) in
    rw (add-frames o empty vs, run) (refl, omega (arith, length-frames_of o vs))

-- When every part has been read, `remaining` is 0. One more read throws, yet moves the cursor, and
-- from then on `remaining` is 2^64 - 1, if the message has fewer than 2^64 - 1 parts.
pub remaining-read_past_end :
    (o : Order) (k : Kind) (m : Message)
    → parts m + 1 < size_mod
    → m.read_cursor ≡ parts m
    → (remaining m ≡ 0)
      × ((read o k m).0
          ≡ err (exception "attempting to request a message part outside the valid range"))
      × (remaining (read o k m).1 ≡ size_mod - 1)
unfolding remaining read
remaining-read_past_end o k m b h =
    (omega arith, get-past_end o k m m.read_cursor (omega arith), omega arith)
