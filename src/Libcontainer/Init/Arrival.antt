-- ===== src/Libcontainer/Init/Arrival.antt =====
-- How the init process (libcontainer/init_nabla.go) takes up what `start` (container_nabla.go) hands to
-- it: two numbers in its environment, and a message in a pipe.
use runnc.Base.{ℕ, ◌+◌, ◌<◌, ◌≡◌, String, ◌<>◌, some, [], ◌∷◌, itoa, atoi-itoa, arith}
use runnc.Go.{done}
use runnc.Os.{Os, World, ask, finally, called, getenv, read_all, clearenv, close}
use runnc.Llif.{RunllcHandler}
use runnc.Libcontainer.Process.{Process}
use runnc.Libcontainer.State.{InitConfig, Container, Codec}
use runnc.Libcontainer.Container.{init_config}
use runnc.Libcontainer.Container.Launch.{
  init_command, child_file, pipe_number, init_command_env, init_command_files,
}
use runnc.Libcontainer.Factory.Load.{forget}
use runnc.Libcontainer.Init.{run_container, init_nabla}

-- What the init process reads of the message: objects in memory are not written.
abbrev pub received : Container → InitConfig
received c =
    let sent = init_config c in
    record sent {
      fs_state = forget sent.fs_state;
      network_state = forget sent.network_state;
      exec_state = forget sent.exec_state;
    }

module _ ⦃os : Os⦄ where
  module _ (marshal : ℕ → String → String → String) (llc : RunllcHandler) ⦃codec : Codec⦄ where
    takes_up :
        (m n : ℕ) (message : String) (config : InitConfig) (w : World) {s₁ s₂ s₃ s₄ : os.Sys}
        → m < 9223372036854775808
        → n < 9223372036854775808
        → codec.decode_init message ≡ done (some config)
        → os.answer (getenv "_LIBCONTAINER_INITPIPE") w.sys ≡ (itoa m, s₁)
        → os.answer (getenv "_LIBCONTAINER_STATEDIR") s₁ ≡ (itoa n, s₂)
        → os.answer (read_all m) s₂ ≡ (done message, s₃)
        → os.answer clearenv s₃ ≡ (tt, s₄)
        → let r = run_container marshal llc config n (record {
          sys = s₄;
          trace =
              called clearenv
              ∷ called (read_all m)
              ∷ called (getenv "_LIBCONTAINER_STATEDIR")
              ∷ called (getenv "_LIBCONTAINER_INITPIPE")
              ∷ w.trace;
        }) in
          init_nabla marshal llc w ≡ finally r.0 (ask (close m)) r.1
    unfolding init_nabla
    takes_up m n message config w lm ln d h₁ h₂ h₃ h₄ =
        ground (arith, atoi-itoa m lm, atoi-itoa n ln)

    -- What `start` hands over is what the init process takes up. The environment of the command names
    -- two numbers, under which the new process has its end of the pipe and the container's directory
    -- open; and where these are within an int64, the process finds them in its environment, it reads
    -- from the pipe the message that `start` writes, and the message reads as the configuration that
    -- was sent, up to objects in memory: `initNabla` runs the container with this configuration and
    -- this directory, and when that returns closes its end of the pipe.
    pub init_nabla-init_command :
        (c : Container) (p : Process) (child dir : ℕ) (w : World) {s₁ s₂ s₃ s₄ : os.Sys}
        → pipe_number p + 1 < 9223372036854775808
        → codec.decode_init (codec.encode_init (init_config c)) ≡ done (some (received c))
        → let m = pipe_number p in
          let n = pipe_number p + 1 in
          os.answer (getenv "_LIBCONTAINER_INITPIPE") w.sys ≡ (itoa m, s₁)
          → os.answer (getenv "_LIBCONTAINER_STATEDIR") s₁ ≡ (itoa n, s₂)
          → os.answer (read_all m) s₂ ≡ (done (codec.encode_init (init_config c)), s₃)
          → os.answer clearenv s₃ ≡ (tt, s₄)
          → let cmd = init_command c p child dir in
            let r = run_container marshal llc (received c) n (record {
              sys = s₄;
              trace =
                  called clearenv
                  ∷ called (read_all m)
                  ∷ called (getenv "_LIBCONTAINER_STATEDIR")
                  ∷ called (getenv "_LIBCONTAINER_INITPIPE")
                  ∷ w.trace;
            }) in
            (cmd.env
              ≡ ("_LIBCONTAINER_INITPIPE=" <> itoa m) ∷ ("_LIBCONTAINER_STATEDIR=" <> itoa n) ∷ [])
            × (child_file cmd m ≡ some child)
            × (child_file cmd n ≡ some dir)
            × (init_nabla marshal llc w ≡ finally r.0 (ask (close m)) r.1)
    init_nabla-init_command c p child dir w lt d h₁ h₂ h₃ h₄ =
        let (pipe, directory) = init_command_files c p child dir in
        (
          init_command_env c p child dir,
          pipe,
          directory,
          takes_up (pipe_number p) (pipe_number p + 1) _ (received c) w (omega arith) lt d h₁ h₂ h₃
              h₄,
        )
