-- ===== src/Llcli/Commands/Later.antt =====
-- What later runs of the program do with a container that a run of `start` (llcli/start.go) has started.
use mathlib.Core.Path.{subst}
use runnc.Base.{
  ℕ, ◌≡◌, ◌≢◌, refl, sym, ap, ◌∙◌, String, List, Option, none, some, str_eq, str_eq_iff, Bool-cases,
  inl, inr, false, join, arith,
}
use runnc.Go.{ok, err, GoError, Reply, done, failed}
use runnc.Os.{Os, World, M, pure, raise, >>=-eq-ok, open_read, read_all}
use runnc.Libcontainer.State.{
  status_string, Status, created, running, pausing, paused, stopped, Container, Codec,
  state_filename, exec_fifo_filename,
}
use runnc.Libcontainer.Container.{exec, current_state, save_state}
use runnc.Libcontainer.Container.Lifecycle.{as_running}
use runnc.Libcontainer.Container.Persistence.{IsKept, reloaded, exec-content}
use runnc.Libcontainer.Factory.{load}
use runnc.Libcontainer.Factory.Load.{IsStorage, IsFaithful}
use runnc.Llcli.Context.{Context, first_arg}
use runnc.Llcli.Containers.{get_container, load_factory}
use runnc.Llcli.Commands.{start_cmd, start_by_status, state_cmd}
use runnc.Llcli.Commands.Starting.{start_cmd_lem}
use runnc.Llcli.Commands.Restarting.{get_container-stored, start_cmd-stored}
use runnc.Llcli.Commands.Reporting.{Answers}

module _ ⦃os : Os⦄ ⦃codec : Codec⦄ where
  -- What an `exec` that reports no error has read.
  record HasRead (c : Container) (w : World) : Type 0 where
    f : ℕ
    content : String
    s : os.Sys
    t : os.Sys
    opened : os.answer (open_read (join c.root exec_fifo_filename)) w.sys ≡ (done f, s)
    read : os.answer (read_all f) s ≡ (done content, t)
    full : str_eq content "" ≡ false

  read_by :
      (c : Container) (w : World) (f : ℕ) (s : os.Sys) (q : Reply String × os.Sys)
      → os.answer (open_read (join c.root exec_fifo_filename)) w.sys ≡ (done f, s)
      → os.answer (read_all f) s ≡ q
      → {x : Container} → (exec c w).0 ≡ ok (x, none)
      → HasRead c w
  unfolding exec
  read_by c w f s (done content, t) o r h = record {
    f = f;
    content = content;
    s = s;
    t = t;
    opened = o;
    read = r;
    full = ground arith;
  }
  read_by c w f s (failed e, t) o r h = ground arith

  opened_by :
      (c : Container) (w : World) (q : Reply ℕ × os.Sys)
      → os.answer (open_read (join c.root exec_fifo_filename)) w.sys ≡ q
      → {x : Container} → (exec c w).0 ≡ ok (x, none)
      → HasRead c w
  unfolding exec
  opened_by c w (done f, s) o h = read_by c w f s _ o refl h
  opened_by c w (failed e, s) o h = ground arith

  abbrev reported : Option GoError → M (Unit {0})
  reported none = pure tt
  reported (some e) = raise e

  no_error : (e : Option GoError) (w : World) → (reported e w).0 ≡ ok tt → e ≡ none
  no_error none w h = refl
  no_error (some e) w h = ground arith

  started :
      (c : Container) (st : Status) (w : World)
      → (start_by_status c st w).0 ≡ ok tt
      → (st ≡ created) × (x : Container) × ((exec c w).0 ≡ ok (x, none))
  unfolding start_by_status
  started c created w h =
      let ((x, e), ran, rest) = >>=-eq-ok (exec c) _ w h in
      (refl, x, subst (λ o. (exec c w).0 ≡ ok (x, o)) (no_error e (exec c w).1 rest) ran)
  started c running w h = ground arith
  started c pausing w h = ground arith
  started c paused w h = ground arith
  started c stopped w h = ground arith

  -- What a container that is found has of the command line.
  record IsNamed (ctx : Context) (w : World) (c : Container) : Type 0 where
    root : String
    given : first_arg ctx.args ≢ ""
    rooted : root ≢ ""
    factory : (load_factory ctx w).0 ≡ ok root
    id_is : c.id ≡ first_arg ctx.args
    root_is : c.root ≡ join root (first_arg ctx.args)

  load_names :
      (root id : String) (w : World) {c : Container}
      → (load root id w).0 ≡ ok c
      → (root ≢ "") × (c.id ≡ id) × (c.root ≡ join root id)
  unfolding load
  load_names root id w h =
      (λ e. ground (arith, (str_eq_iff root "").1 e), ground arith, ground arith)

  names :
      (ctx : Context) (w : World) {c : Container} → (get_container ctx w).0 ≡ ok c → IsNamed ctx w c
  unfolding get_container
  names ctx w h = elim (Bool-cases (str_eq (first_arg ctx.args) "")) [
    | inl blank ↦ ground arith
    | inr given ↦
        let (root, factory, got) = >>=-eq-ok (load_factory ctx) _ w (rw given at h) in
        let (rooted, id_is, root_is) =
          load_names root (first_arg ctx.args) (load_factory ctx w).1 got in
        record {
          root = root;
          given = λ e. ground (arith, (str_eq_iff (first_arg ctx.args) "").1 e);
          rooted = rooted;
          factory = factory;
          id_is = id_is;
          root_is = root_is;
        }
  ]

  seen_kept :
      (c : Container) (w : World) {d : Container}
      → (current_state c w).0 ≡ ok d
      → (d.id ≡ c.id) × (d.root ≡ c.root)
  unfolding current_state save_state
  seen_kept c w h = ground arith

  module _ (storage : IsStorage os) (kept : IsKept os storage) (ctx : Context) (v w : World)
      {c d : Container} (got : (get_container ctx v).0 ≡ ok c)
      (seen : (current_state c (get_container ctx v).1).0 ≡ ok d)
      (differ : join d.root state_filename ≢ join d.root exec_fifo_filename)
      (saves : (u : World) → (save_state (as_running d) u).0 ≡ ok tt)
      (faithful : IsFaithful codec (as_running d).state) (first : (start_cmd ctx v).0 ≡ ok tt)
      (factory : (load_factory ctx w).0 ≡ (load_factory ctx v).0)
      (same : storage.content (join d.root state_filename) (load_factory ctx w).1.sys
        ≡ storage.content (join d.root state_filename) (start_cmd ctx v).1.sys) where
    n : IsNamed ctx v c
    n = names ctx v got

    id_is : d.id ≡ first_arg ctx.args
    id_is = (seen_kept c (get_container ctx v).1 seen).0 ∙ n.id_is

    root_is : d.root ≡ join n.root d.id
    root_is =
        (seen_kept c (get_container ctx v).1 seen).1 ∙ n.root_is ∙ ap (join n.root) (sym id_is)

    id_given : d.id ≢ ""
    id_given e = n.given (sym id_is ∙ e)

    abbrev looked_at : World
    looked_at = (current_state c (get_container ctx v).1).1

    begun : (start_by_status d d.state.status looked_at).0 ≡ ok tt
    unfolding start_cmd
    begun = ground arith

    stored :
        storage.content (join d.root state_filename) (load_factory ctx w).1.sys
        ≡ some (codec.encode_state (as_running d).state)
    stored =
        let (is_created, x, ran) = started d d.state.status looked_at begun in
        let r = opened_by d looked_at _ refl ran in
        let left =
          exec-content storage kept n.root d looked_at differ r.opened r.read r.full (saves _) in
        let ends = ((start_cmd_lem ctx v got seen).1 is_created x none ran).0 in
        same ∙ ap (λ u. storage.content (join d.root state_filename) u.sys) ends ∙ left

    -- A `start` that succeeds, where the saving of the state as running never fails, that state is
    -- written faithfully and the fifo is not the state file: a later `start` with the same arguments,
    -- which finds the same root, and the state file as the first has left it, fails, and makes no call
    -- after it has looked at the process and recorded what it saw.
    pub start_cmd-start_cmd :
        (e : GoError) × (start_cmd ctx w
          ≡ (err e, (current_state (reloaded (as_running d)) (get_container ctx w).1).1))
    start_cmd-start_cmd =
        start_cmd-stored storage (as_running d) ctx w (sym id_is) id_given n.rooted
          (factory ∙ n.factory) root_is faithful stored (λ h. ground arith)

    found_again : (get_container ctx w).0 ≡ ok (reloaded (as_running d))
    found_again =
        get_container-stored storage (as_running d) ctx w (sym id_is) id_given n.rooted
          (factory ∙ n.factory) root_is faithful stored

    -- A `start` that succeeds, where the saving of the state as running never fails, that state is
    -- written faithfully and the fifo is not the state file: a later `state` with the same arguments,
    -- which finds the same root, and the state file as the first has left it, and whose process
    -- answers both times that it is looked at, prints the container as running, with the pid and the
    -- rest of its state as they were when it was started.
    pub start_cmd-state_cmd :
        (search_labels : List String → String → String)
        → let x = reloaded (as_running d) in
          let u = (get_container ctx w).1 in
          Answers x u
          → Answers x (current_state x u).1
          → (state_cmd search_labels ctx w).0
            ≡ ok (record {
              version = d.state.config.version;
              id = d.state.id;
              init_process_pid = d.state.init_process_pid;
              status = status_string running;
              bundle = search_labels d.state.config.labels "bundle";
              rootfs = d.state.config.rootfs;
              created_at = d.state.created_at;
            })
    unfolding state_cmd current_state
    start_cmd-state_cmd search_labels one two = ground (arith, found_again)
