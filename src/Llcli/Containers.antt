-- ===== src/Llcli/Containers.antt =====
-- llcli/util_nabla.go: the commands' access to containers.
pub mod Making
use runnc.Base.{
  ℕ, String, ◌<>◌, ℤ, neg, Option, none, some, List, [], ◌∷◌, ◌++◌, Bool, true, not, str_eq,
  if◌then◌else◌,
}
use runnc.Go.{done, failed, GoError, text, is_not_exist}
use runnc.Os.{Os, M, ask, must, attempt, pure, raise, halt, ◌>>=◌, ◌>>◌, stat, abs}
use runnc.Go.{panicked}
use runnc.Configs.{Spec, SpecProcess, parse_spec}
use runnc.Llif.{RunllcHandler}
use runnc.Libcontainer.State.{Container, Codec}
use runnc.Libcontainer.Factory.{new_factory, create_container, load}
use runnc.Llcli.Context.{Context, first_arg}
use runnc.Llcli.Runner.{Runner, run}

abbrev pub err_empty_id : GoError
err_empty_id = text "container id cannot be empty"

module _ ⦃os : Os⦄ where
  -- `loadFactory`: the factory's root.
  unfoldable pub load_factory : Context → M String
  load_factory ctx = do root ← must (ask (abs ctx.root)); new_factory root

  module _ ⦃codec : Codec⦄ where
    -- `getContainer`
    unfoldable pub get_container : Context → M Container
    unfolding load_factory
    get_container ctx =
        let id = first_arg ctx.args in
        if str_eq id "" then raise err_empty_id else do root ← load_factory ctx; load root id

    module _ (llc : RunllcHandler) where
      require_rootfs : String → M (Unit {0})
      require_rootfs rootfs = do
        r ← ask (stat rootfs)
        elim r [
          | done _ ↦ pure tt
          | failed e ↦
              if is_not_exist e
              then raise (text ("rootfs (" <> (rootfs <> ") does not exist")))
              else raise e
        ]

      -- `createContainer`
      unfoldable pub make_container : Context → String → Spec → M Container
      unfolding require_rootfs
      make_container ctx id spec = do
        parsed ← λ w. (parse_spec (some spec), w)
        let config = record parsed { labels = parsed.labels ++ (("bundle=" <> ctx.bundle) ∷ []) }
        require_rootfs config.rootfs
        root ← load_factory ctx
        create_container llc root id config

      unfoldable pub runner_of : Context → Bool → Runner
      runner_of ctx create = record {
        enable_subreaper = not ctx.no_subreaper;
        should_destroy = true;
        detach = ctx.detach;
        listen_fds = [];
        pid_file = ctx.pid_file;
        console = ctx.console;
        create = create;
      }

      run_process : ℕ → List ℕ → Runner → Container → Option SpecProcess → M (ℤ × Option GoError)
      run_process fuel signals r c none =
          halt (panicked "invalid memory address or nil pointer dereference")
      run_process fuel signals r c (some p) = run llc fuel signals r c p

      -- `startContainer`
      unfoldable pub start_container : ℕ → List ℕ → Context → Spec → Bool → M (ℤ × Option GoError)
      unfolding make_container runner_of run_process
      start_container fuel signals ctx spec create =
          let id = first_arg ctx.args in
          if str_eq id "" then pure (neg 1, some err_empty_id) else do
            made ← attempt (make_container ctx id spec)
            elim made [
              | failed e ↦ pure (neg 1, some e)
              | done c ↦ run_process fuel signals (runner_of ctx create) c spec.process
            ]
