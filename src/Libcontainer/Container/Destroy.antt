-- ===== src/Libcontainer/Container/Destroy.antt =====
-- What `destroy` of libcontainer/container_nabla.go leaves, on each of its paths.
use mathlib.Core.List.{append_assoc}
use runnc.Base.{ℕ, ◌≡◌, refl, Option, none, some, List, [], ◌∷◌, ◌++◌, arith}
use runnc.Go.{Outcome, ok, err, stop, GoError}
use runnc.Os.{
  Os, World, M, Event, called, handed, Call, Ret, HandlerCall, kill, signal_process, exec_destroy,
  fs_destroy, network_destroy,
}
use runnc.Llif.{LlState, GenericInput, RunllcHandler}
use runnc.Libcontainer.State.{Container, stopped}
use runnc.Libcontainer.Container.{
  with_state, or_empty, destroy_input, marked_stopped, destroy_network, destroy_fs, destroy_exec,
  destroy,
}

-- What is watched: the handovers, and the signals that are sent.
pub data Deed : Type 0 where
  hands : HandlerCall → Deed
  signals : ℕ → Deed

abbrev signalling : {r : Ret} → Call r → List Deed → List Deed
signalling (kill pid signal) rest = signals signal ∷ rest
signalling (signal_process pid signal) rest = signals signal ∷ rest
signalling _ rest = rest

abbrev pub deeds : List Event → List Deed
deeds [] = []
deeds (called c ∷ events) = signalling c (deeds events)
deeds (handed h ∷ events) = hands h ∷ deeds events

-- The same container up to the states of its handlers.
pub record IsStopped (c d : Container) : Type 0 where
  pub same_id : d.id ≡ c.id
  pub same_root : d.root ≡ c.root
  pub same_config : d.config ≡ c.config
  pub no_pid : d.state.init_process_pid ≡ 0
  pub is_stopped : d.state.status ≡ stopped

module _ ⦃os : Os⦄ (llc : RunllcHandler) where
  -- Whatever the handlers do, a destroyed container that is given back, with or without an error,
  -- is stopped and has no process, and keeps its id, root and configuration.
  pub destroy-IsStopped :
      (c : Container) (w : World) {d : Container} {e : Option GoError}
      → (destroy llc c w).0 ≡ ok (d, e)
      → IsStopped c d
  unfolding destroy
  destroy-IsStopped c w h = ground arith

  -- Where the execution handler fails, no other handler runs: the world is as that handler left it,
  -- its error is returned, and the three handler states are kept.
  destroy_exec_fails :
      (c : Container) (w : World) {e : GoError}
      → let m = marked_stopped c in
        let r =
          llc.exec_h.exec_destroy_func
            (destroy_input m
              (some m.state.fs_state)
              (some m.state.network_state)
              (some m.state.exec_state))
            (record w { trace = handed exec_destroy ∷ w.trace }) in
        r.0 ≡ err e → destroy llc c w ≡ (ok (m, some e), r.1)
  unfolding destroy
  destroy_exec_fails c w h = ground arith

  -- Handlers whose destroy hands over to no other handler and sends no signal.
  pub record IsDutiful : Type 0 where
    pub exec_dutiful :
        (i : GenericInput) (w : World)
        → deeds (llc.exec_h.exec_destroy_func i w).1.trace ≡ deeds w.trace
    pub fs_dutiful :
        (i : GenericInput) (w : World)
        → deeds (llc.fs_h.fs_destroy_func i w).1.trace ≡ deeds w.trace
    pub network_dutiful :
        (i : GenericInput) (w : World)
        → deeds (llc.network_h.network_destroy_func i w).1.trace ≡ deeds w.trace

  -- The deeds of a beginning of `full` are left, and those of all of it where there is no error.
  abbrev pub Hands : M (Container × Option GoError) → List Deed → World → Type 0
  Hands m full w =
      (left missed : List Deed) × (deeds (m w).1.trace ≡ left ++ deeds w.trace)
      × (missed ++ left ≡ full)
      × ((d : Container) → (m w).0 ≡ ok (d, none) → left ≡ full)

  module _ (h : IsDutiful) where
    destroy_network-Hands :
        (c : Container) (fs exec_s : Option LlState) (w : World)
        → Hands (destroy_network llc c fs exec_s) (hands network_destroy ∷ []) w
    unfolding destroy_network
    destroy_network-Hands c fs exec_s w =
        let v = record w { trace = handed network_destroy ∷ w.trace } in
        let i = destroy_input c fs (some c.state.network_state) exec_s in
        (hands network_destroy ∷ [], [], ground (arith, h.network_dutiful i v), refl, λ d x. refl)

    destroy_fs-Hands :
        (c : Container) (exec_s : Option LlState) (w : World) (q : Outcome (Option LlState))
        → let v = record w { trace = handed fs_destroy ∷ w.trace } in
          let i = destroy_input c (some c.state.fs_state) (some c.state.network_state) exec_s in
          (llc.fs_h.fs_destroy_func i v).0 ≡ q
          → Hands (destroy_fs llc c exec_s) (hands network_destroy ∷ hands fs_destroy ∷ []) w
    unfolding destroy_fs
    destroy_fs-Hands c exec_s w (ok fs) e =
        let v = record w { trace = handed fs_destroy ∷ w.trace } in
        let i = destroy_input c (some c.state.fs_state) (some c.state.network_state) exec_s in
        let c' = with_state c (record c.state { fs_state = or_empty fs }) in
        let (left, missed, same, parts, whole) =
          destroy_network-Hands c' fs exec_s (llc.fs_h.fs_destroy_func i v).1 in
        (
          left ++ (hands fs_destroy ∷ []),
          missed,
          ground
              (arith, h.fs_dutiful i v, append_assoc left (hands fs_destroy ∷ []) (deeds w.trace)),
          ground (arith, append_assoc missed left (hands fs_destroy ∷ [])),
          λ d x. let y = whole d (ground arith) in ground arith,
        )
    destroy_fs-Hands c exec_s w (err x) e =
        let v = record w { trace = handed fs_destroy ∷ w.trace } in
        let i = destroy_input c (some c.state.fs_state) (some c.state.network_state) exec_s in
        (
          hands fs_destroy ∷ [],
          hands network_destroy ∷ [],
          ground (arith, h.fs_dutiful i v),
          refl,
          λ d x. ground arith,
        )
    destroy_fs-Hands c exec_s w (stop x) e =
        let v = record w { trace = handed fs_destroy ∷ w.trace } in
        let i = destroy_input c (some c.state.fs_state) (some c.state.network_state) exec_s in
        (
          hands fs_destroy ∷ [],
          hands network_destroy ∷ [],
          ground (arith, h.fs_dutiful i v),
          refl,
          λ d x. ground arith,
        )

    abbrev all_deeds : List Deed
    all_deeds = hands network_destroy ∷ hands fs_destroy ∷ hands exec_destroy ∷ []

    destroy_exec-Hands :
        (c : Container) (w : World) (q : Outcome (Option LlState))
        → let v = record w { trace = handed exec_destroy ∷ w.trace } in
          let i =
            destroy_input c
              (some c.state.fs_state)
              (some c.state.network_state)
              (some c.state.exec_state) in
          (llc.exec_h.exec_destroy_func i v).0 ≡ q → Hands (destroy_exec llc c) all_deeds w
    unfolding destroy_exec
    destroy_exec-Hands c w (ok exec_s) e =
        let v = record w { trace = handed exec_destroy ∷ w.trace } in
        let i =
          destroy_input c (some c.state.fs_state) (some c.state.network_state)
            (some c.state.exec_state) in
        let c' = with_state c (record c.state { exec_state = or_empty exec_s }) in
        let (left, missed, same, parts, whole) =
          destroy_fs-Hands c' exec_s (llc.exec_h.exec_destroy_func i v).1 _ refl in
        (
          left ++ (hands exec_destroy ∷ []),
          missed,
          ground (
            arith,
            h.exec_dutiful i v,
            append_assoc left (hands exec_destroy ∷ []) (deeds w.trace),
          ),
          ground (arith, append_assoc missed left (hands exec_destroy ∷ [])),
          λ d x. let y = whole d (ground arith) in ground arith,
        )
    destroy_exec-Hands c w (err x) e =
        let v = record w { trace = handed exec_destroy ∷ w.trace } in
        let i =
          destroy_input c (some c.state.fs_state) (some c.state.network_state)
            (some c.state.exec_state) in
        (
          hands exec_destroy ∷ [],
          hands network_destroy ∷ hands fs_destroy ∷ [],
          ground (arith, h.exec_dutiful i v),
          refl,
          λ d x. ground arith,
        )
    destroy_exec-Hands c w (stop x) e =
        let v = record w { trace = handed exec_destroy ∷ w.trace } in
        let i =
          destroy_input c (some c.state.fs_state) (some c.state.network_state)
            (some c.state.exec_state) in
        (
          hands exec_destroy ∷ [],
          hands network_destroy ∷ hands fs_destroy ∷ [],
          ground (arith, h.exec_dutiful i v),
          refl,
          λ d x. ground arith,
        )

  -- With handlers that hand over to no other and send no signal, destroy hands over to the
  -- execution, the file system and the network handler, in this order: to a beginning of them
  -- whatever fails, and to all three where there is no error. It sends no signal to any process.
  pub destroy_order :
      IsDutiful
      → (c : Container) (w : World)
      → Hands (destroy llc c) (hands network_destroy ∷ hands fs_destroy ∷ hands exec_destroy ∷ []) w
  unfolding destroy
  destroy_order h c w = destroy_exec-Hands h (marked_stopped c) w _ refl
