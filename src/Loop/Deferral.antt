-- ===== src/Loop/Deferral.antt =====
-- A removal that is put off, and one that is done at once.
use zmqpp_pty.Base.{ℕ, ◌≡◌, refl, true, false, [], ok}
use zmqpp_pty.Poller
use zmqpp_pty.Loop.{
  Loop, remove_timer, remove_socket, remove_fd, each, each_timer, flush_remove_later, remove_later,
}
use zmqpp_pty.Loop.Passes.{undispatched}

-- A loop with no removal left to do whose poller is to be rebuilt, outside of a dispatch and in one.
abbrev pub at_rest : Loop → Loop
at_rest l = record l {
  dispatching = false;
  rebuild = true;
  fd_later = [];
  socket_later = [];
  timer_later = [];
}

abbrev pub at_work : Loop → Loop
at_work l = record (at_rest l) { dispatching = true }

-- In a loop with no other removal to do, whose poller is to be rebuilt, when the poller's removals do
-- not throw: removing a socket, a descriptor or a timer during a dispatch, and doing what was put off
-- after it, gives the loop that the removal outside of a dispatch gives; during the dispatch the
-- items and the timers stay as they were.
pub put_off-remove :
    (l : Loop) (s d id : ℕ)
    → (Poller.remove_socket l.poller s).1 ≡ ok tt
    → (Poller.remove_fd l.poller d).1 ≡ ok tt
    → (flush_remove_later (undispatched (remove_socket (at_work l) s).0)
        ≡ remove_socket (at_rest l) s)
      × (flush_remove_later (undispatched (remove_fd (at_work l) d).0) ≡ remove_fd (at_rest l) d)
      × (flush_remove_later (undispatched (remove_timer (at_work l) id))
          ≡ (remove_timer (at_rest l) id, ok tt))
      × ((remove_socket (at_work l) s).0.items ≡ l.items)
      × ((remove_fd (at_work l) d).0.items ≡ l.items)
      × ((remove_timer (at_work l) id).timers ≡ l.timers)
unfolding remove_timer remove_socket remove_fd each each_timer flush_remove_later remove_later
put_off-remove l s d id hs hd = (rw hs refl, rw hd refl, refl, refl, refl, refl)
