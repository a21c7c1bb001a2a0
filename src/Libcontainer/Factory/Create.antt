-- ===== src/Libcontainer/Factory/Create.antt =====
-- `Create` of libcontainer/factory_nabla.go: what a new container is, and what an error leaves.
use runnc.Base.{
  ℕ, ◌≡◌, ◌≢◌, ◌⊎◌, String, ◌<>◌, str_eq_iff, Bool-cases, inl, inr, Option, none, some, [], ◌∷◌,
  true, str_eq, if◌then◌else◌, join, arith,
}
use runnc.Go.{ok, err, GoError, text, wrap, done}
use runnc.Os.{Os, World, called, handed, umask, mkfifo, stat, network_create, FileInfo, >>=-eq-ok}
use runnc.Configs.{Config}
use runnc.Llif.{LlState, RunllcHandler}
use runnc.Libcontainer.State.{stopped, Container, pause_nabla_name}
use runnc.Libcontainer.Container.{empty_state}
use runnc.Libcontainer.Factory.{
  is_pause_container, apply_pause_hack, validate_id, create_input, make_fifo, prepare_root,
  create_fs, create_states, create_container,
}

-- A container's record agrees with its state.
pub record IsCoherent (c : Container) : Type 0 where
  pub id_agrees : c.state.id ≡ c.id
  pub config_agrees : c.state.config ≡ c.config

-- What `Create` gives: a stopped container without a process, in the directory of its id.
pub record IsNew (root id : String) (config : Config) (c : Container) : Type 0 where
  pub has_id : c.id ≡ id
  pub has_root : c.root ≡ join root id
  pub no_pid : c.state.init_process_pid ≡ 0
  pub is_stopped : c.state.status ≡ stopped
  pub coherent : IsCoherent c
  pub has_config : c.config ≡ (
      if is_pause_container config then record config { args = pause_nabla_name ∷ [] } else config)

module _ ⦃os : Os⦄ where
  -- The fifo is made under the mask 0, and whether or not that succeeds the call after it sets the
  -- mask back to the old one; no call is made beside these three.
  make_fifo_umask :
      (path : String) (w : World) {old : ℕ} {s : os.Sys}
      → os.answer (umask 0) w.sys ≡ (old, s)
      → (make_fifo path w).1.trace
        ≡ called (umask old) ∷ called (mkfifo path 402) ∷ called (umask 0) ∷ w.trace
  unfolding make_fifo
  make_fifo_umask path w h = ground arith

  module _ (llc : RunllcHandler) where
    -- Without a root directory, or with an id that is not valid, nothing is done at all.
    create_container_invalid :
        (root id : String) (config : Config) (w : World) {e : GoError}
        → ((root ≡ "") × (e ≡ text "invalid root")) ⊎ ((root ≢ "") × (validate_id id ≡ err e))
        → create_container llc root id config w ≡ (err e, w)
    unfolding create_container
    create_container_invalid root id config w h = ground (arith, str_eq_iff root "")

    -- If the directory of the id exists, the call that found it is the only one made.
    create_container_exists :
        (root id : String) (config : Config) (w : World) {info : FileInfo} {s : os.Sys}
        → root ≢ ""
        → validate_id id ≡ ok tt
        → os.answer (stat (join root id)) w.sys ≡ (done info, s)
        → create_container llc root id config w ≡ (
          err (text ("container with id exists: " <> id)),
          record { sys = s; trace = called (stat (join root id)) ∷ w.trace },
        )
    unfolding create_container
    create_container_exists root id config w r v h = ground (arith, str_eq_iff root "")

    create_states-IsNew :
        (root id : String) (config : Config) (w : World) {c : Container}
        → (create_states llc (join root id) id config w).0 ≡ ok c
        → IsNew root id config c
    unfolding create_states apply_pause_hack is_pause_container
    create_states-IsNew root id config w h = ground arith

    -- A container that `Create` returns is new: stopped, without a process, in the directory of its
    -- id, and with the given configuration, or for a pause container with the arguments replaced.
    pub create_container-IsNew :
        (root id : String) (config : Config) (w : World) {c : Container}
        → (create_container llc root id config w).0 ≡ ok c
        → IsNew root id config c
    unfolding create_container
    create_container-IsNew root id config w h = elim (Bool-cases (str_eq root "")) [
      | inl empty ↦ ground arith
      | inr given ↦
          let (_, _, rest) = >>=-eq-ok (λ w. (validate_id id, w)) _ w (rw given at h) in
          let (_, _, made) = >>=-eq-ok (prepare_root id (join root id) 0 0) _ w rest in
          create_states-IsNew root id config _ made
    ]

    -- If the network handler fails, the error is returned and the world is as that handler left it:
    -- neither the directory nor the file system state is taken back.
    create_network_fails :
        (root id : String) (config : Config) (w : World) {fs : Option LlState} {config' : Config}
        {e : GoError}
        → (create_fs llc root id config w).0 ≡ ok (config', fs)
        → let v = (create_fs llc root id config w).1 in
          let r =
            llc.network_h.network_create_func
              (create_input root id config' fs (some empty_state))
              (record v { trace = handed network_create ∷ v.trace }) in
          r.0 ≡ err e
          → create_states llc root id config w
            ≡ (err (wrap "Error running NetworkCreateFunc" e), r.1)
    unfolding create_states
    create_network_fails root id config w h k = ground arith

    -- The file system handler does not run for a pause container.
    create_fs_pause :
        (root id : String) (config : Config) (w : World)
        → is_pause_container config ≡ true
        → create_fs llc root id config w
          ≡ (ok (record config { args = pause_nabla_name ∷ [] }, none), w)
    unfolding create_fs apply_pause_hack
    create_fs_pause root id config w h = ground arith
