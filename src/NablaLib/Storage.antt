-- ===== src/NablaLib/Storage.antt =====
-- nabla-lib/storage/storage_linux.go
use runnc.Base.{String, Option, none, some, [], ◌∷◌}
use runnc.Os.{Os, M, ask, must, wrapping, pure, ◌>>=◌, ◌>>◌, temp_file, close, abs, run_command}

module _ ⦃os : Os⦄ where
  -- `CreateDummy`
  unfoldable pub create_dummy : M String
  create_dummy = do (f, name) ← must (ask temp_file); pure name

  -- The image's name: that of a new temporary file, or the absolute target.
  iso_name : Option String → M String
  iso_name none = do (f, name) ← must (ask temp_file); must (ask (close f)); pure name
  iso_name (some target) = wrapping "Unable to resolve abs target path" (must (ask (abs target)))

  -- `CreateIso`
  unfoldable pub create_iso : String → Option String → M String
  unfolding iso_name
  create_iso dir target = do
    fname ← iso_name target
    abs_dir ← wrapping "Unable to resolve abs dir path" (must (ask (abs dir)))
    wrapping "Unable to run geniso command" (
        must (
          ask (
            run_command (
              "genisoimage" ∷ "-m" ∷ "dev" ∷ "-m" ∷ "sys" ∷ "-m" ∷ "proc" ∷ "-l" ∷ "-r" ∷ "-o"
              ∷ fname ∷ abs_dir ∷ []))))
    pure fname
