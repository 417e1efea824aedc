-- ===== src/Message/Frames.antt =====
-- zmqpp/frame.hpp and frame.cpp: the bytes of one zmq message and the flag `_sent`. libzmq's
-- `zmq_msg_move` leaves its source empty and `zmq_msg_copy` makes the contents equal.
use zmqpp_pty.Base.{Bool, true, false, [], Bytes}

pub record Frame : Type 0 where
  pub contents : Bytes
  pub is_sent : Bool

-- The constructors from a buffer; the default one is `frame []`.
abbrev pub frame : Bytes → Frame
frame bs = record { contents = bs; is_sent = false }

unfoldable pub mark_sent : Frame → Frame
mark_sent f = record f { is_sent = true }

-- `frame(frame&& other)`: the new frame, and what is left of the other.
unfoldable pub move_construct : Frame → Frame × Frame
move_construct other = (other, frame [])

-- `operator=(frame&& other)`: the flags are swapped.
unfoldable pub move_assign : Frame → Frame → Frame × Frame
move_assign this other = (other, record { contents = []; is_sent = this.is_sent })

unfoldable pub copy : Frame → Frame
copy f = record { contents = f.contents; is_sent = f.is_sent }
