-- ===== src/Libcontainer/Factory/Abandoned.antt =====
-- What `Create` of libcontainer/factory_nabla.go has handed over to the handlers when it ends, at
-- whichever step that is.
use runnc.Base.{
  ◌≡◌, refl, String, Option, some, List, [], ◌∷◌, ◌++◌, inl, inr, Bool, true, false, Bool-cases,
  str_eq, join, arith,
}
use runnc.Go.{ok, text}
use runnc.Os.{
  Os, World, M, pure, ◌>>=◌, ◌>>◌, hand_over, Event, called, handed, Call, Ret, HandlerCall, remove,
  remove_all, fs_create, network_create, exec_create, Leaves, quiet, single, chain, chain_quiet,
  refusal,
}
use runnc.Configs.{Config, host_uid, host_gid}
use runnc.Llif.{LlState, GenericInput, RunllcHandler}
use runnc.Libcontainer.State.{Container}
use runnc.Libcontainer.Container.{empty_state}
use runnc.Libcontainer.Factory.{
  is_pause_container, apply_pause_hack, validate_id, lift_outcome, create_input, new_container,
  prepare_root, create_fs, create_network, create_exec, create_states, create_container,
}

-- What is watched: the handovers, to create and to destroy, and the removal of a file or directory.
pub data Footprint : Type 0 where
  hands : HandlerCall → Footprint
  removes : String → Footprint

abbrev removal : {r : Ret} → Call r → List Footprint → List Footprint
removal (remove path) rest = removes path ∷ rest
removal (remove_all path) rest = removes path ∷ rest
removal _ rest = rest

abbrev pub footprints : List Event → List Footprint
footprints [] = []
footprints (called c ∷ events) = removal c (footprints events)
footprints (handed h ∷ events) = hands h ∷ footprints events

abbrev fs_footprints : Bool → List Footprint
fs_footprints true = []
fs_footprints false = hands fs_create ∷ []

-- The handovers of a whole `Create`, the newest first: a pause container has no file system.
abbrev pub all_footprints : Bool → List Footprint
all_footprints pause = hands exec_create ∷ hands network_create ∷ fs_footprints pause

module _ ⦃os : Os⦄ where
  prepares :
      (id root : String) (uid gid : _) (w : World)
      → Leaves footprints (prepare_root id root uid gid) [] w
  unfolding prepare_root
  prepares id root uid gid w = quiet footprints _ w (ground arith)

  hands_over : (h : HandlerCall) (w : World) → Leaves footprints (hand_over h) (hands h ∷ []) w
  hands_over h w = single footprints _ _ w refl

  module _ (llc : RunllcHandler) where
    -- Handlers that remove nothing and hand over to no other handler.
    pub record IsKeeping : Type 0 where
      pub fs_keeps :
          (i : GenericInput) (w : World)
          → footprints (llc.fs_h.fs_create_func i w).1.trace ≡ footprints w.trace
      pub network_keeps :
          (i : GenericInput) (w : World)
          → footprints (llc.network_h.network_create_func i w).1.trace ≡ footprints w.trace
      pub exec_keeps :
          (i : GenericInput) (w : World)
          → footprints (llc.exec_h.exec_create_func i w).1.trace ≡ footprints w.trace

    module _ (keeping : IsKeeping) where
      makes_exec :
          (root id : String) (config : Config) (fs network : Option LlState) (w : World)
          → Leaves footprints (create_exec llc root id config fs network) (hands exec_create ∷ []) w
      unfolding create_exec
      makes_exec root id config fs network w = single footprints _ _ w (keeping.exec_keeps _ _)

      makes_network :
          (root id : String) (config : Config) (fs : Option LlState) (w : World)
          → Leaves footprints (create_network llc root id config fs) (hands network_create ∷ []) w
      unfolding create_network
      makes_network root id config fs w = single footprints _ _ w (keeping.network_keeps _ _)

      fs_trace :
          (root id : String) (config : Config) (w : World)
          → is_pause_container config ≡ false
          → footprints (create_fs llc root id config w).1.trace
            ≡ hands fs_create ∷ footprints w.trace
      unfolding create_fs
      fs_trace root id config w n = ground (
        arith,
        keeping.fs_keeps (create_input root id config (some empty_state) (some empty_state))
            (hand_over fs_create w).1,
      )

      makes_fs :
          (root id : String) (config : Config) (b : Bool) (w : World)
          → is_pause_container config ≡ b
          → Leaves footprints (create_fs llc root id config) (fs_footprints b) w
      unfolding create_fs apply_pause_hack
      makes_fs root id config true w y = quiet footprints _ w (ground arith)
      makes_fs root id config false w n = single footprints _ _ w (fs_trace root id config w n)

      abbrev from_network : String → String → Config × Option LlState → M Container
      from_network root id (config, fs) = do
        network ← create_network llc root id config fs
        exec_s ← create_exec llc root id config fs network
        pure (new_container root id config fs network exec_s)

      -- After the file system.
      abbrev last_footprints : List Footprint
      last_footprints = hands exec_create ∷ hands network_create ∷ []

      makes_rest :
          (root id : String) (made : Config × Option LlState) (w : World)
          → Leaves footprints (from_network root id made) last_footprints w
      makes_rest root id (config, fs) w =
          let m = create_network llc root id config fs in
          let k : Option LlState → M (Option LlState) = create_exec llc root id config fs in
          chain footprints m
            (λ network. k network >>= λ x. pure (new_container root id config fs network x))
            (hands network_create ∷ []) (hands exec_create ∷ []) w
            (makes_network root id config fs w)
            λ network _.
              chain footprints (k network) (λ x. pure (new_container root id config fs network x))
                (hands exec_create ∷ []) [] (m w).1 (makes_exec root id config fs network (m w).1)
                λ x _. quiet footprints _ (k network (m w).1).1 refl

      makes_states :
          (root id : String) (config : Config) (w : World)
          → Leaves footprints
              (create_states llc root id config)
              (all_footprints (is_pause_container config))
              w
      unfolding create_states
      makes_states root id config w =
          chain footprints (create_fs llc root id config) (from_network root id)
            (fs_footprints (is_pause_container config)) last_footprints w
            (makes_fs root id config _ w refl)
            λ made _. makes_rest root id made (create_fs llc root id config w).1

      abbrev from_valid : String → String → Config → Unit {0} → M Container
      from_valid root id config _ = do
        prepare_root id (join root id) (host_uid config) (host_gid config)
        create_states llc (join root id) id config

      makes_root :
          (root id : String) (config : Config) (w : World)
          → Leaves footprints
              (from_valid root id config tt)
              (all_footprints (is_pause_container config))
              w
      makes_root root id config w =
          let m = prepare_root id (join root id) (host_uid config) (host_gid config) in
          chain_quiet footprints m (λ _. create_states llc (join root id) id config)
            (all_footprints (is_pause_container config)) w (prepares id (join root id) _ _ w)
            λ _ _. makes_states (join root id) id config (m w).1

      makes_container :
          (root id : String) (config : Config) (w : World)
          → Leaves footprints
              (create_container llc root id config)
              (all_footprints (is_pause_container config))
              w
      unfolding create_container
      makes_container root id config w = elim (Bool-cases (str_eq root "")) [
        | inl empty ↦
            refusal footprints _ _ w {e = text "invalid root"} (rw empty refl) (rw empty refl)
        | inr given ↦ rw given (
            chain_quiet footprints (lift_outcome (validate_id id)) (from_valid root id config)
              (all_footprints (is_pause_container config)) w (quiet footprints _ w refl)
              λ _ _. makes_root root id config w)
      ]

      -- With handlers that remove nothing and hand over to no other: at whichever step `Create` ends,
      -- what it has done is a beginning of the handovers to the file system (but for a pause
      -- container), the network and the execution, and all of these where a container is returned.
      -- Whatever fails, no handler to destroy is given what the others have made, and nothing of the
      -- container's directory is removed.
      pub create_container_steps :
          (root id : String) (config : Config) (w : World)
          → let r = create_container llc root id config w in
            let all = all_footprints (is_pause_container config) in
            (left missed : List Footprint) × (footprints r.1.trace ≡ left ++ footprints w.trace)
            × (missed ++ left ≡ all)
            × ((c : Container) → r.0 ≡ ok c → left ≡ all)
      create_container_steps root id config w =
          let l = makes_container root id config w in
          (l.left, l.missed, l.trace_is, l.parts, λ c. l.whole)
