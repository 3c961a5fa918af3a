-- ===== src/Select/AsyncFileDescriptor/Tests.antt =====
-- select/src/async_file_descriptor.hpp: a write of the fd 5 that blocks once.
use cosec_examples.Prelude.{◌≡◌, true, false, none, some, [], ◌∷◌, ◌++◌, arith}
use cosec_examples.Select.Reactor.{find, init}
use cosec_examples.Select.Reactor.Sides.{Inv, init-Inv}
use cosec_examples.Select.ThreadPool.{post, dispatch}
use cosec_examples.Select.AsyncFileDescriptor.{
  transferred, failed, would_block, async_write_some_impl, async_read_some, async_write_some,
}
use cosec_examples.Select.AsyncFileDescriptor.Waits.{
  has_transferred, blocks, async_write_some_impl_waits, async_some-Ready,
}

async_write_some_impl_waits_example :
    ((async_write_some_impl 5 50 (failed would_block) post (init 3)).callback ≡ none)
    × Inv (async_write_some_impl 5 50 (failed would_block) post (init 3)).reactor
    × (find 5 (async_write_some_impl 5 50 (failed would_block) post (init 3)).reactor.reading.events
        ≡ some (some 50))
    × ((async_write_some_impl 5 50 (failed would_block) post (init 3)).reactor.reading.fd_set 5
        ≡ true)
    × ((async_write_some_impl 5 50 (failed would_block) post (init 3)).reactor.writing
        ≡ (init 3).writing)
async_write_some_impl_waits_example =
    async_write_some_impl_waits 5 50 post (init 3) (omega arith) (unfold init in omega arith)
      (init-Inv 3 (omega arith))

async_some-Ready_example :
    (async_read_some 5 50 (blocks (init 3 ∷ []) ++ ((transferred 8, init 3) ∷ []))
      ≡ some (record { kind = dispatch; moved_from = false; exception = none; count = 8 }))
    × (async_write_some 5 50 (blocks (init 3 ∷ []) ++ ((transferred 8, init 3) ∷ []))
        ≡ some (record { kind = dispatch; moved_from = false; exception = none; count = 8 }))
async_some-Ready_example =
    async_some-Ready 5 50 (init 3 ∷ []) (transferred 8) none 8 (init 3) [] (omega arith)
      (has_transferred 8)
