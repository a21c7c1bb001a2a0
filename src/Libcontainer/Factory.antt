-- ===== src/Libcontainer/Factory.antt =====
-- libcontainer/factory_nabla.go: `NablaFactory`, which makes and loads containers.
pub mod Ids
pub mod Create
pub mod Load
pub mod Abandoned
pub mod Interface
use runnc.Base.{
  ℕ, ◌≤◌, String, ◌<>◌, Option, none, some, List, [], ◌∷◌, Bool, true, false, ◌&&◌, ◌||◌, ltb, leb,
  ◌==◌, str_eq, if◌then◌else◌, join, codes, text_len, text_take, itoa,
}
use runnc.Go.{
  Reply, done, failed, GoError, text, wrap, is_not_exist, container_not_exists, config_invalid,
  system_error, Outcome, ok, err, stop, panicked,
}
use runnc.Os.{
  Os, World, M, ask, must, attempt, wrapping, deferring, pure, raise, halt, ◌>>=◌, ◌>>◌, hand_over,
  mkdir_all, stat, chown, umask, mkfifo, open_read, read_all, close, fs_create, network_create,
  exec_create,
}
use runnc.Configs.{Config, host_uid, host_gid}
use runnc.Llif.{LlState, GenericInput, RunllcHandler}
use runnc.Libcontainer.Errors.{new_generic_error}
use runnc.Libcontainer.State.{
  stopped, State, Container, Codec, state_filename, exec_fifo_filename, pause_nabla_name,
}
use runnc.Libcontainer.Container.{empty_state, or_empty}

-- `isPauseContainer`
abbrev is_pause_args : List String → Bool
is_pause_args [] = false
is_pause_args (a ∷ []) = str_eq a "/pause"
is_pause_args (a ∷ b ∷ rest) = false

unfoldable pub is_pause_container : Config → Bool
is_pause_container config = is_pause_args config.args

-- `applyPauseHack`
unfoldable pub apply_pause_hack : Config → Outcome Config
unfolding is_pause_container
apply_pause_hack config =
    if is_pause_container config
    then ok (record config { args = pause_nabla_name ∷ [] })
    else err (text "Trying to make pause changes on non-pause container")

-- `idRegex`, `^[\w+-\.]+$`: in the class, `+-\.` is the range from `+` to `.`.
id_char : ℕ → Bool
id_char c =
    leb b'0' c && leb c b'9'
    || leb b'A' c && leb c b'Z'
    || leb b'a' c && leb c b'z'
    || c == b'_'
    || leb b'+' c && leb c b'.'

all_id_chars : List ℕ → Bool
unfolding id_char
all_id_chars [] = true
all_id_chars (c ∷ s) = id_char c && all_id_chars s

id_regex_match : List ℕ → Bool
unfolding all_id_chars
id_regex_match [] = false
id_regex_match (c ∷ s) = all_id_chars (c ∷ s)

abbrev pub max_id_len : ℕ
max_id_len = 1024

-- `validateID`
unfoldable pub validate_id : String → Outcome (Unit {0})
unfolding id_regex_match
validate_id id =
    if id_regex_match (codes id)
    then if ltb max_id_len (text_len id)
      then err (
          text (
            "id length: "
            <> (itoa (text_len id) <> (", greater than max length: " <> itoa max_id_len))))
      else ok tt
    else err (text ("invalid id format: " <> id))

-- The input of a create handler, with `&ll.LLState{}` for what does not exist yet.
abbrev create_input : String → String → Config → Option LlState → Option LlState → GenericInput
create_input root id config fs network = record {
  container_id = id;
  container_root = root;
  config = config;
  fs_state = fs;
  network_state = network;
  exec_state = some empty_state;
}

new_container :
    String → String → Config → Option LlState → Option LlState → Option LlState → Container
new_container root id config fs network exec_s = record {
  id = id;
  root = root;
  config = config;
  state = record {
    id = id;
    init_process_pid = 0;
    init_process_start_time = "";
    created_at = 0;
    config = config;
    fs_state = or_empty fs;
    network_state = or_empty network;
    exec_state = or_empty exec_s;
    status = stopped;
  };
}

module _ ⦃os : Os⦄ where
  abbrev lift_outcome : {A : Type 0} → Outcome A → M A
  lift_outcome r w = (r, w)

  -- `New`, with no options.
  unfoldable pub new_factory : String → M String
  new_factory root =
      if str_eq root "" then pure root else do must (ask (mkdir_all root 448)); pure root

  -- No container may have the id yet.
  require_absent : String → String → M (Unit {0})
  require_absent id root = do
    found ← ask (stat root)
    elim found [
      | done _ ↦ raise (text ("container with id exists: " <> id))
      | failed e ↦ if is_not_exist e then pure tt else raise e
    ]

  -- The fifo is made under the mask 0, and the old mask set again in any case.
  unfoldable pub make_fifo : String → M (Unit {0})
  make_fifo path = do
    old ← ask (umask 0)
    made ← ask (mkfifo path 402)
    elim made [ done _ ↦ do ask (umask old); pure tt | failed e ↦ do ask (umask old); raise e ]

  -- The container's directory and its fifo.
  prepare_root : String → String → ℕ → ℕ → M (Unit {0})
  unfolding require_absent make_fifo
  prepare_root id root uid gid = do
    require_absent id root
    must (ask (mkdir_all root 457))
    must (ask (chown root uid gid))
    make_fifo (join root exec_fifo_filename)
    must (ask (chown (join root exec_fifo_filename) uid gid))

  module _ (llc : RunllcHandler) where
    -- A pause container has no file system of its own.
    unfoldable pub create_fs : String → String → Config → M (Config × Option LlState)
    create_fs root id config =
        if is_pause_container config
        then (do config' ← lift_outcome (apply_pause_hack config); pure (config', none))
        else do
          hand_over fs_create
          fs ← wrapping "Error running FsCreateFunc" (
              llc.fs_h.fs_create_func
                (create_input root id config (some empty_state) (some empty_state)))
          pure (config, fs)

    create_network : String → String → Config → Option LlState → M (Option LlState)
    create_network root id config fs = do
      hand_over network_create
      wrapping "Error running NetworkCreateFunc"
          (llc.network_h.network_create_func (create_input root id config fs (some empty_state)))

    create_exec : String → String → Config → Option LlState → Option LlState → M (Option LlState)
    create_exec root id config fs network = do
      hand_over exec_create
      wrapping "Error running ExecCreateFunc"
          (llc.exec_h.exec_create_func (create_input root id config fs network))

    -- The handlers of file system, network and execution, in this order.
    pub create_states : String → String → Config → M Container
    unfolding create_fs create_network create_exec new_container
    create_states root id config = do
      (config', fs) ← create_fs root id config
      network ← create_network root id config' fs
      exec_s ← create_exec root id config' fs network
      pure (new_container root id config' fs network exec_s)

    -- `Create`
    unfoldable pub create_container : String → String → Config → M Container
    unfolding prepare_root create_states
    create_container root id config = if str_eq root "" then raise (text "invalid root") else do
      lift_outcome (validate_id id)
      prepare_root id (join root id) (host_uid config) (host_gid config)
      create_states (join root id) id config

  module _ ⦃codec : Codec⦄ where
    open_state : String → String → M ℕ
    open_state root id = do
      opened ← ask (open_read (join root state_filename))
      elim opened [
        | done f ↦ pure f
        | failed e ↦
            if is_not_exist e
            then raise (
                new_generic_error (text ("container " <> (id <> " does not exist")))
                  container_not_exists)
            else raise (new_generic_error e system_error)
      ]

    decoded : Reply (Option State) → M (Option State)
    decoded (done s) = pure s
    decoded (failed e) = raise (new_generic_error e system_error)

    read_state : ℕ → M (Option State)
    unfolding decoded
    read_state f = do
      content ← ask (read_all f)
      elim content [
        | done s ↦ decoded (codec.decode_state s)
        | failed e ↦ raise (new_generic_error e system_error)
      ]

    -- `loadState`. A file that holds `null` gives a nil pointer.
    unfoldable pub load_state : String → String → M (Option State)
    unfolding open_state read_state
    load_state root id = do f ← open_state root id; deferring (ask (close f)) (read_state f)

    loaded : String → String → Option State → M Container
    loaded root id none = halt (panicked "invalid memory address or nil pointer dereference")
    loaded root id (some s) = pure (record { id = id; root = root; config = s.config; state = s })

    -- `Load`. The id is not validated.
    unfoldable pub load : String → String → M Container
    unfolding load_state loaded
    load root id =
        if str_eq root ""
        then raise (new_generic_error (text "invalid root") config_invalid)
        else do s ← load_state (join root id) id; loaded (join root id) id s
