-- ===== src/Llcli/Runner/PidFile.antt =====
-- When the pid file of llcli/util_runner.go appears under its name.
use runnc.Base.{
  ℕ, ◌≡◌, ◌≢◌, refl, ◌⊎◌, inl, inr, String, ◌<>◌, List, [], ◌∷◌, itoa, join, base_name, dir_name,
  arith,
}
use runnc.Go.{Outcome, ok, err, stop, Reply, done, failed}
use runnc.Os.{Os, World, Event, called, handed, Call, Ret, create_exclusive, write, close, rename}
use runnc.Libcontainer.Process.{Process, pid_of}
use runnc.Llcli.Runner.{create_pid_file}

-- The files that were renamed, the newest first.
abbrev renamed_by : {r : Ret} → Call r → List (String × String) → List (String × String)
renamed_by (rename old new) rest = (old, new) ∷ rest
renamed_by _ rest = rest

abbrev pub renamed : List Event → List (String × String)
renamed [] = []
renamed (called c ∷ events) = renamed_by c (renamed events)
renamed (handed h ∷ events) = renamed events

abbrev pub temporary : String → String
temporary path = join (dir_name path) ("." <> base_name path)

module _ ⦃os : Os⦄ (path : String) (p : Process) where
  -- The record of a run that came to the renaming.
  abbrev pub full_trace : ℕ → ℕ → World → List Event
  full_trace f pid w =
      called (rename (temporary path) path)
      ∷ called (close f)
      ∷ called (write f (itoa pid))
      ∷ called (create_exclusive (temporary path))
      ∷ w.trace

  abbrev pub Written : World → Type 0
  Written w =
      let r = create_pid_file path p w in
      ((r.0 ≢ ok tt) × (renamed r.1.trace ≡ renamed w.trace))
      ⊎ ((f : ℕ) × (pid : ℕ) × (s : os.Sys) × (pid_of p ≡ ok pid)
          × (os.answer (create_exclusive (temporary path)) w.sys ≡ (done f, s))
          × ((os.answer (write f (itoa pid)) s).0 ≡ done tt)
          × (r.1.trace ≡ full_trace f pid w))

  written :
      (w : World) (pid f : ℕ) (s : os.Sys) (q : Reply (Unit {0}))
      → pid_of p ≡ ok pid
      → os.answer (create_exclusive (temporary path)) w.sys ≡ (done f, s)
      → (os.answer (write f (itoa pid)) s).0 ≡ q
      → Written w
  unfolding create_pid_file
  written w pid f s (done tt) at made h = inr (f, pid, s, at, made, h, ground arith)
  written w pid f s (failed e) at made h = inl ((λ x. ground arith), ground arith)

  made :
      (w : World) (pid : ℕ) (q : Reply ℕ × os.Sys)
      → pid_of p ≡ ok pid
      → os.answer (create_exclusive (temporary path)) w.sys ≡ q
      → Written w
  unfolding create_pid_file
  made w pid (done f, s) at h = written w pid f s _ at h refl
  made w pid (failed e, s) at h = inl ((λ x. ground arith), ground arith)

  of_pid : (w : World) (o : Outcome ℕ) → pid_of p ≡ o → Written w
  unfolding create_pid_file
  of_pid w (ok pid) at = made w pid _ at refl
  of_pid w (err e) at = inl ((λ x. ground arith), ground arith)
  of_pid w (stop s) at = inl ((λ x. ground arith), ground arith)

  -- The pid file gets its name by a renaming that is the last call, after the whole pid was written
  -- without an error to a file that was opened as a new one, in the directory of the path and under
  -- a dot and the path's last element, and that was closed; where it does not come to this, nothing
  -- is renamed, and an error is returned or the process ends.
  pub create_pid_file_lem : (w : World) → Written w
  create_pid_file_lem w = of_pid w _ refl
