-- ===== src/Select/Reactor/Registered.antt =====
-- select/src/select_reactor.cpp: what handle() leaves for a handler that is not empty.
use cosec_examples.Prelude.{◌<◌, ◌≡◌, refl, Bool, true, some, arith}
use cosec_examples.Select.Reactor.{
  Fd, Task, read, Side, Reactor, fd_setsize, ok, find, with_side, register, handle,
}
use cosec_examples.Select.Reactor.Sides.{find-insert}

register-some :
    (fd : Fd) (h : Task) (s : Side)
    → (find fd (register fd (some h) s).0.events ≡ some (some h))
      × ((register fd (some h) s).0.fd_set fd ≡ true)
unfolding register
register-some fd h s = (ground (arith, find-insert fd fd (some h) s.events), ground arith)

-- In the side of the operation the fd has the handler and is in the set; the other side stays.
pub handle-read :
    (fd : Fd) (h : Task) (r : Reactor)
    → fd < fd_setsize
    → (r' : Reactor) × (wake : Bool) × (handle fd read (some h) r ≡ ok (r', wake))
      × (find fd r'.reading.events ≡ some (some h))
      × (r'.reading.fd_set fd ≡ true)
      × (r'.writing ≡ r.writing)
unfolding handle
handle-read fd h r small =
    let (a, b) = register-some fd h r.reading in
    (
      with_side read (register fd (some h) r.reading).0 r,
      (register fd (some h) r.reading).1,
      ground (arith, small),
      a,
      b,
      refl,
    )
