-- ===== src/Libcontainer/Process/Pipes.antt =====
-- What `InitializeIO` of libcontainer/process_nabla.go leaves open.
use runnc.Base.{◌≡◌, ℕ, ◌∷◌, arith}
use runnc.Go.{err, GoError, done, failed}
use runnc.Os.{Os, World, Event, called, pipe, close}
use runnc.Libcontainer.Process.{Process, initialize_io, close_all, undo, or_undo}

abbrev pub closing : ℕ → Event
closing fd = called (close fd)

module _ ⦃os : Os⦄ where
  -- When the second or the third pipe cannot be made, the descriptors of the pipes before it are
  -- closed, both ends of each, and the error is returned.
  pub initialize_io_undo :
      (p : Process) (uid gid : ℕ) (w : World) {r0 w0 : ℕ} {s1 s2 : os.Sys} {e : GoError}
      → os.answer pipe w.sys ≡ (done (r0, w0), s1)
      → ((os.answer pipe s1 ≡ (failed e, s2))
          → ((initialize_io p uid gid w).0 ≡ err e)
            × ((initialize_io p uid gid w).1.trace
                ≡ closing w0 ∷ closing r0 ∷ called pipe ∷ called pipe ∷ w.trace))
        × ((r1 w1 : ℕ) (s3 : os.Sys)
            → os.answer pipe s1 ≡ (done (r1, w1), s2)
            → os.answer pipe s2 ≡ (failed e, s3)
            → ((initialize_io p uid gid w).0 ≡ err e)
              × ((initialize_io p uid gid w).1.trace
                  ≡ closing w1
                    ∷ closing r1
                    ∷ closing w0
                    ∷ closing r0
                    ∷ called pipe
                    ∷ called pipe
                    ∷ called pipe
                    ∷ w.trace))
  unfolding initialize_io or_undo undo close_all
  initialize_io_undo p uid gid w h = (λ k. ground arith, λ r1 w1 s3 k l. ground arith)
