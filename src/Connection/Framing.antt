-- ===== src/Connection/Framing.antt =====
-- Frames on a connection: what the encoder wrote on one side is read, frame by frame, on the other.
use hmmp_python_sdk.Base.{
  ℕ, zero, suc, ◌≤◌, ◌<◌, ◌≡◌, refl, ◌∙◌, [], ◌∷◌, ◌++◌, append_assoc, List, Bytes, length, Option,
  none, Result, Raised, err, cancelled_error, length-append, take, drop, take-append, drop-append,
  true, some, ok, connection_closed_error, arith, le→ltb,
}
use hmmp_python_sdk.Constants.{header_size}
use hmmp_python_sdk.Frame.Header.{from_bytes}
use hmmp_python_sdk.Frame.Metadata.{MsgPack}
use hmmp_python_sdk.Frame.Decoder.{Frame, decode}
use hmmp_python_sdk.Connection.Stream.{
  Connection, ConnectionState, disconnected, closes, is_connected, close, leave, read_frame,
  read_frame_loop, after_read, after_handler,
}

-- Bytes that are one whole frame: they decode to it, and the header says how many they are.
pub record IsFrame (mp : MsgPack) (f : Frame) (bs : Bytes) : Type 0 where
  pub header : Bytes
  pub rest : Bytes
  pub parts : bs ≡ header ++ rest
  pub header_fits : length header ≡ header_size
  pub header_parses : from_bytes header ≡ ok f.header
  pub size : length rest ≡ f.header.payload_length
  pub decodes : decode mp bs ≡ ok f

module _ (mp : MsgPack) where
  take-append_eq : (n : ℕ) (xs ys : Bytes) → length xs ≡ n → take n (xs ++ ys) ≡ xs
  take-append_eq n xs ys h = rw (← h) (take-append xs ys)

  drop-append_eq : (n : ℕ) (xs ys : Bytes) → length xs ≡ n → drop n (xs ++ ys) ≡ ys
  drop-append_eq n xs ys h = rw (← h) (drop-append xs ys)

  -- One frame is read off the front of the stream.
  read_frame-IsFrame :
      (f : Frame) (bs more : Bytes) (c : Connection)
      → IsFrame mp f bs
      → c.reader ≡ some (bs ++ more)
      → read_frame mp c ≡ (record c { reader = some more }, ok f)
  unfolding read_frame
  read_frame-IsFrame f bs more c v r =
      let bytes = v.header ++ (v.rest ++ more) in
      let enough : header_size ≤ length bytes =
        omega (arith, length-append v.header (v.rest ++ more), v.header_fits) in
      let payload : f.header.payload_length ≤ length (v.rest ++ more) =
        omega (arith, length-append v.rest more, v.size) in
      rw (r, v.parts, append_assoc v.header v.rest more)
        (rw
          (
            le→ltb (length bytes) header_size enough,
            take-append_eq header_size v.header (v.rest ++ more) v.header_fits,
            drop-append_eq header_size v.header (v.rest ++ more) v.header_fits,
          )
          (rw v.header_parses (
            rw
              (
                le→ltb (length (v.rest ++ more)) f.header.payload_length payload,
                take-append_eq f.header.payload_length v.rest more v.size,
                drop-append_eq f.header.payload_length v.rest more v.size,
                ← v.parts,
              )
              (rw v.decodes refl))))

  -- The bytes of frames, one behind the other, with `tail'` behind the last.
  pub data AreFrames : List Frame → Bytes → Type 0 where
    no_more : AreFrames [] []
    one_more :
        {f : Frame} {fs : List Frame} {bs more : Bytes}
        → IsFrame mp f bs
        → AreFrames fs more
        → AreFrames (f ∷ fs) (bs ++ more)

  at_end :
      (c : Connection)
      → c.reader ≡ some []
      → c.ends ≡ closes
      → read_frame mp c ≡ (close c, err connection_closed_error)
  unfolding read_frame
  at_end c r e = rw (r, e) refl

  close_down : (c : Connection) → (close c).state ≡ disconnected
  unfolding close
  close_down c = ground arith

  -- What the handler makes of frames, one behind the other, until it raises.
  module _ {S : Type 0} (on_frame : Frame → S → S × Result (Unit {0})) where
    abbrev pub unless_raised : S × Result (Unit {0}) → (S → S × Option Raised) → S × Option Raised
    unless_raised (s, ok u) next = next s
    unless_raised (s, err e) next = (s, some e)

    unfoldable pub handled : List Frame → S → S × Option Raised
    handled [] s = (s, none)
    handled (f ∷ fs) s = unless_raised (on_frame f s) (handled fs)

    loop_up :
        (c : Connection) (fuel : ℕ) (s : S)
        → is_connected c.state ≡ true
        → read_frame_loop mp on_frame (suc fuel) c s
          ≡ after_read mp on_frame (read_frame mp c) s (read_frame_loop mp on_frame fuel)
    unfolding read_frame_loop
    loop_up c fuel s up = ground (arith, up)

  -- The state in which the loop leaves a connection: after ConnectionClosedError and a cancellation of
  -- the handler it is the one before.
  abbrev pub left_in : Option Raised → ConnectionState → ConnectionState
  left_in (some connection_closed_error) before = before
  left_in (some cancelled_error) before = before
  left_in _ before = disconnected

  module _ {S : Type 0} (on_frame : Frame → S → S × Result (Unit {0})) where
    abbrev Leaves : Option (Connection × S) → S × Option Raised → ConnectionState → Type 0
    Leaves looped (s, raised) before =
        (d : Connection) × (looped ≡ some (d, s)) × (d.state ≡ left_in raised before)

    leave_state : (e : Raised) (c : Connection) → (leave e c).state ≡ left_in (some e) c.state
    leave_state connection_closed_error c = refl
    leave_state cancelled_error c = refl
    leave_state e c = close_down c

    after_handler-Leaves :
        (p : S × Result (Unit {0})) (c : Connection) (next : S → Option (Connection × S))
        (later : S → S × Option Raised)
        → ((s : S) → Leaves (next s) (later s) c.state)
        → Leaves (after_handler mp on_frame p c next) (unless_raised on_frame p later) c.state
    after_handler-Leaves (s, ok u) c next later h = h s
    after_handler-Leaves (s, err e) c next later h = (leave e c, refl, leave_state e c)

    -- While the connection is up and the peer closes it behind the last frame, the read loop hands the
    -- frames to the handler, each one once and in the order of the stream, up to the first one at which
    -- the handler raises. It leaves the handler's state as these calls do, and the connection closed,
    -- except that after ConnectionClosedError and a cancellation out of the handler the connection stays
    -- in its state. One round more than there are frames is enough. (What closing starts, the close
    -- handler, is no part of this, and the handler does not touch the connection.)
    pub read_frame_loop-AreFrames :
        (fs : List Frame) (bs : Bytes) (c : Connection) (s : S) (fuel : ℕ)
        → AreFrames fs bs
        → is_connected c.state ≡ true
        → c.reader ≡ some bs
        → c.ends ≡ closes
        → length fs < fuel
        → let (s', raised) = handled on_frame fs s in
          (d : Connection) × (read_frame_loop mp on_frame fuel c s ≡ some (d, s'))
          × (d.state ≡ left_in raised c.state)
    unfolding handled
    read_frame_loop-AreFrames fs bs c s zero v up r e enough = absurd (omega arith)
    read_frame_loop-AreFrames [] [] c s (suc fuel) no_more up r e enough =
        (close c, loop_up on_frame c fuel s up ∙ rw (at_end c r e) refl, close_down c)
    read_frame_loop-AreFrames [] (_ ∷ _) c s (suc fuel) v up r e enough = elim v [ ]
    read_frame_loop-AreFrames (f ∷ fs) bs c s (suc fuel) (one_more {bs = b} {more} v vs) up r e
          enough =
        let next = record c { reader = some more } in
        let (d, looped, left) =
          after_handler-Leaves (on_frame f s) next (read_frame_loop mp on_frame fuel next)
            (handled on_frame fs)
            (λ s. read_frame_loop-AreFrames fs more next s fuel vs up refl e (omega arith)) in
        (d, loop_up on_frame c fuel s up ∙ rw (read_frame-IsFrame f b more c v r) looped, left)
