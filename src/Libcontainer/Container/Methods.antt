-- ===== src/Libcontainer/Container/Methods.antt =====
-- The interface `BaseContainer` of libcontainer/container.go, and the methods of `nablaContainer`
-- (libcontainer/container_nabla.go) that fill it. Each method but `Signal`, and those that only
-- answer, takes the container's mutex for its whole run.
use runnc.Base.{ℕ, ◌≡◌, String, Option, some, List, Bool, pos, arith}
use runnc.Go.{ok, GoError, text}
use runnc.Os.{
  Os, World, M, ask, must, pure, raise, ◌>>=◌, >>=-eq-ok, wait_command, kill, socketpair,
}
use runnc.Configs.{Config}
use runnc.Llif.{RunllcHandler}
use runnc.Libcontainer.Process.{Process}
use runnc.Libcontainer.State.{Status, State, Container, Codec}
use runnc.Libcontainer.Container.{start, exec, current_state, destroy, signal}

-- `currentStatus`
unfoldable pub current_status : ⦃os : Os⦄ → ⦃codec : Codec⦄ → Container → M (Container × Status)
current_status c = do d ← current_state c; pure (d, d.state.status)

-- `Stats` (libcontainer/stats.go), which has no field
pub data Stats : Type 0 where
  no_stats : Stats

-- `BaseContainer`: a method that can change the container gives it back. An error that comes with a
-- changed container is a value.
pub record BaseContainer ⦃os : Os⦄ (C : Type 0) : Type 0 where
  pub id : C → String
  pub config : C → Config
  pub status : C → M (C × Status)
  pub state : C → M (C × State)
  pub processes : C → M (List ℕ)
  pub stats : C → M Stats
  pub set : C → Config → M (Unit {0})
  pub start : C → Process → M (C × Process × Option GoError)
  pub run : C → Process → M (C × Process × Option GoError)
  pub destroy : C → M (C × Option GoError)
  pub signal : C → ℕ → Bool → M (Unit {0})
  pub exec : C → M (C × Option GoError)

module _ ⦃os : Os⦄ where
  -- `Processes`, `Stats`, `Set` and `Run`
  unfoldable pub processes : Container → M (List ℕ)
  processes c = raise (text "NablaContainer.Processes not implemented")

  unfoldable pub stats : Container → M Stats
  stats c = raise (text "NablaContainer.Stats not implemented")

  unfoldable pub set : Container → Config → M (Unit {0})
  set c config = raise (text "NablaContainer.Set not implemented")

  unfoldable pub run_method : Container → Process → M (Container × Process × Option GoError)
  run_method c p = pure (c, p, some (text "NablaContainer.Run not implemented"))

  -- The methods of `nablaContainer`, its `Config`, `ID`, `Status` and `State` included.
  unfoldable pub nabla_container : ⦃codec : Codec⦄ → RunllcHandler → BaseContainer Container
  unfolding current_status processes stats set run_method
  nabla_container llc = record {
    id = λ c. c.id;
    config = λ c. c.config;
    status = current_status;
    state = λ c. (do d ← current_state c; pure (d, d.state));
    processes = processes;
    stats = stats;
    set = set;
    start = start;
    run = run_method;
    destroy = destroy llc;
    signal = signal;
    exec = exec;
  }

  -- `nablaProcess`, by the pid of its command: `wait` and `signal`. `NewSockPair` gives the second of
  -- the two sockets to the parent.
  unfoldable pub wait_process : ℕ → M (Unit {0})
  wait_process pid = must (ask (wait_command pid))

  unfoldable pub signal_nabla_process : ℕ → ℕ → M (Unit {0})
  signal_nabla_process pid sig = must (ask (kill (pos pid) sig))

  unfoldable pub new_sock_pair : M (ℕ × ℕ)
  new_sock_pair = do (first, second) ← must (ask socketpair); pure (second, first)

  -- What a client of the interface relies on, whichever the container is: that a method keeps the
  -- id and the configuration, and that a status is that of the state that the same call of
  -- `State` gives.
  pub record IsLawful {C : Type 0} (b : BaseContainer C) : Type 0 where
    pub start_keeps :
        (c d : C) (p q : Process) (e : Option GoError) (w : World)
        → (b.start c p w).0 ≡ ok (d, q, e)
        → (b.id d ≡ b.id c) × (b.config d ≡ b.config c)
    pub exec_keeps :
        (c d : C) (e : Option GoError) (w : World)
        → (b.exec c w).0 ≡ ok (d, e)
        → (b.id d ≡ b.id c) × (b.config d ≡ b.config c)
    pub run_keeps :
        (c d : C) (p q : Process) (e : Option GoError) (w : World)
        → (b.run c p w).0 ≡ ok (d, q, e)
        → (b.id d ≡ b.id c) × (b.config d ≡ b.config c)
    pub status_of_state :
        (c d : C) (s : Status) (w : World)
        → (b.status c w).0 ≡ ok (d, s)
        → (st : State) × ((b.state c w).0 ≡ ok (d, st)) × (st.status ≡ s)
    pub destroy_keeps :
        (c d : C) (e : Option GoError) (w : World)
        → (b.destroy c w).0 ≡ ok (d, e)
        → (b.id d ≡ b.id c) × (b.config d ≡ b.config c)

  -- The containers of the program are lawful.
  nabla_container-IsLawful :
      ⦃codec : Codec⦄ → (llc : RunllcHandler) → IsLawful (nabla_container llc)
  unfolding nabla_container run_method start exec current_status current_state destroy
  nabla_container-IsLawful llc = record {
    start_keeps = λ c d p q e w h. ground arith;
    exec_keeps = λ c d e w h. ground arith;
    run_keeps = λ c d p q e w h. ground arith;
    status_of_state = λ c d s w h.
        let (m, now, rest) = >>=-eq-ok (current_state c) _ w h in
        (m.state, ground arith, ground arith);
    destroy_keeps = λ c d e w h. ground arith;
  }
