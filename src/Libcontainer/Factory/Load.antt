-- ===== src/Libcontainer/Factory/Load.antt =====
-- What `Load` of libcontainer/factory_nabla.go gives of a container that was saved.
use mathlib.Core.Path.{subst}
use runnc.Base.{
  ◌∙◌, ap, sym, ℕ, ◌≡◌, refl, ◌≢◌, String, ◌<>◌, str_eq_iff, Option, some, [], true, join, arith,
}
use runnc.Go.{
  ok, err, GoError, text, generic, container_not_exists, Reply, done, failed, is_not_exist,
}
use runnc.Os.{Os, World, create, open_read, read_all, write, close}
use runnc.Llif.{LlState}
use runnc.Libcontainer.State.{State, Container, Codec, state_filename}
use runnc.Libcontainer.Container.{save_state}
use runnc.Libcontainer.Factory.{load}

-- What of a state is written: the objects in memory are not.
abbrev pub forget : LlState → LlState
forget s = record s { in_memory_objects = [] }

abbrev pub persistent : State → State
persistent s = record s {
  fs_state = forget s.fs_state;
  network_state = forget s.network_state;
  exec_state = forget s.exec_state;
}

-- What `encoding/json` gives back of a state that it has written.
abbrev pub IsFaithful : Codec → State → Type 0
IsFaithful codec s = codec.decode_state (codec.encode_state s) ≡ done (some (persistent s))

-- A file system: what is written to a created file is read from it later.
pub record IsStorage (os : Os) : Type 0 where
  pub content : String → os.Sys → Option String
  pub create_write :
      (path s : String) (t u v : os.Sys) (f : ℕ)
      → os.answer (create path) t ≡ (done f, u)
      → os.answer (write f s) u ≡ (done tt, v)
      → content path (os.answer (close f) v).1 ≡ some s
  pub open_succeeds :
      (path s : String) (t : os.Sys)
      → content path t ≡ some s
      → (f : ℕ) × (u v : os.Sys) × (os.answer (open_read path) t ≡ (done f, u))
        × (os.answer (read_all f) u ≡ (done s, v))

module _ ⦃os : Os⦄ ⦃codec : Codec⦄ where
  load_of_content :
      (root id s : String) (st : State) (w : World) {f : ℕ} {u v : os.Sys}
      → root ≢ ""
      → os.answer (open_read (join (join root id) state_filename)) w.sys ≡ (done f, u)
      → os.answer (read_all f) u ≡ (done s, v)
      → codec.decode_state s ≡ done (some st)
      → (load root id w).0
        ≡ ok (record { id = id; root = join root id; config = st.config; state = st })
  unfolding load
  load_of_content root id s st w r p q d = ground (arith, str_eq_iff root "")

  module _ (storage : IsStorage os) (c : Container) (w : World) where
    abbrev pub path : String
    path = join c.root state_filename

    abbrev pub message : String
    message = codec.encode_state c.state

    written :
        (f : ℕ) (u : os.Sys) (r : Reply (Unit {0}) × os.Sys)
        → os.answer (create path) w.sys ≡ (done f, u)
        → os.answer (write f message) u ≡ r
        → (save_state c w).0 ≡ ok tt
        → storage.content path (save_state c w).1.sys ≡ some message
    unfolding save_state
    written f u (done tt, v) p q h =
        ground (arith, storage.create_write path message w.sys u v f p q)
    written f u (failed e, v) p q h = ground arith

    created :
        (r : Reply ℕ × os.Sys)
        → os.answer (create path) w.sys ≡ r
        → (save_state c w).0 ≡ ok tt
        → storage.content path (save_state c w).1.sys ≡ some message
    unfolding save_state
    created (done f, u) p h = written f u _ p refl h
    created (failed e, u) p h = ground arith

    -- A state that is saved stands in its file.
    pub save_state-content :
        (save_state c w).0 ≡ ok tt → storage.content path (save_state c w).1.sys ≡ some message
    save_state-content h = created _ refl h

  -- Where the state file holds a state that was written, it is loaded.
  pub load-stored :
      (storage : IsStorage os) (root : String) (c : Container) (w : World)
      → IsFaithful codec c.state
      → root ≢ ""
      → c.root ≡ join root c.id
      → storage.content (join c.root state_filename) w.sys ≡ some (codec.encode_state c.state)
      → (load root c.id w).0
        ≡ ok (record {
          id = c.id;
          root = c.root;
          config = c.state.config;
          state = persistent c.state;
        })
  load-stored storage root c w faithful r at kept =
      let (f, u, v, opened, read) = storage.open_succeeds _ _ w.sys kept in
      let there : os.answer (open_read (join (join root c.id) state_filename)) w.sys ≡ (done f, u) =
        subst (λ d. os.answer (open_read (join d state_filename)) w.sys ≡ (done f, u)) at opened in
      let found = load_of_content root c.id _ (persistent c.state) w r there read faithful in
      found
      ∙ ap
          (λ d.
            ok
              (record { id = c.id; root = d; config = c.state.config; state = persistent c.state }))
          (sym at)

  -- A missing state file is reported with the code of a container that does not exist.
  pub load_missing :
      (root id : String) (w : World) {e : GoError} {u : os.Sys}
      → root ≢ ""
      → os.answer (open_read (join (join root id) state_filename)) w.sys ≡ (failed e, u)
      → is_not_exist e ≡ true
      → (load root id w).0
        ≡ err (generic container_not_exists "" (text ("container " <> (id <> " does not exist"))))
  unfolding load
  load_missing root id w r p h = ground (arith, str_eq_iff root "")
