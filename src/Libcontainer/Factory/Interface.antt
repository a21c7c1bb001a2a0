-- ===== src/Libcontainer/Factory/Interface.antt =====
-- The interface `Factory` of libcontainer/factory.go, and `NablaFactory` (factory_nabla.go), which
-- fills it.
use runnc.Base.{ℕ, ◌≡◌, String, arith}
use runnc.Go.{ok}
use runnc.Os.{Os, World, M}
use runnc.Configs.{Config}
use runnc.Llif.{RunllcHandler}
use runnc.Libcontainer.State.{Container, Codec}
use runnc.Libcontainer.Factory.{create_container, load}
use runnc.Libcontainer.Factory.Create.{create_container-IsNew}
use runnc.Libcontainer.Init.{init_nabla}

-- `Factory`: `C` are its containers.
pub record Factory ⦃os : Os⦄ (C : Type 0) : Type 0 where
  pub create : String → Config → M C
  pub load : String → M C
  pub start_initialization : M (Unit {0})
  pub factory_type : String

-- `NablaFactory`
pub record NablaFactory ⦃os : Os⦄ : Type 0 where
  pub root : String
  pub llc_handler : RunllcHandler

module _ ⦃os : Os⦄ ⦃codec : Codec⦄ (marshal : ℕ → String → String → String) where
  -- `StartInitialization`
  unfoldable pub start_initialization : NablaFactory → M (Unit {0})
  start_initialization l = init_nabla marshal l.llc_handler

  unfoldable pub nabla_factory : NablaFactory → Factory Container
  unfolding start_initialization
  nabla_factory l = record {
    create = create_container l.llc_handler l.root;
    load = load l.root;
    start_initialization = start_initialization l;
    factory_type = "nabla";
  }

-- What a client relies on: a container has the id under which it was made or found, and its
-- directory is that of its id, so that a container that is made is looked for where it is.
pub record IsLawful ⦃os : Os⦄ (f : Factory Container) : Type 0 where
  pub create_id :
      (id : String) (config : Config) (c : Container) (w : World)
      → (f.create id config w).0 ≡ ok c
      → c.id ≡ id
  pub load_id : (id : String) (c : Container) (w : World) → (f.load id w).0 ≡ ok c → c.id ≡ id
  pub same_place :
      (id : String) (config : Config) (c d : Container) (w v : World)
      → (f.create id config w).0 ≡ ok c
      → (f.load id v).0 ≡ ok d
      → d.root ≡ c.root

module _ ⦃os : Os⦄ ⦃codec : Codec⦄ (marshal : ℕ → String → String → String) where
  -- The factory of the program is lawful, with whichever handlers and root.
  nabla_factory-IsLawful : (l : NablaFactory) → IsLawful (nabla_factory marshal l)
  unfolding nabla_factory load
  nabla_factory-IsLawful l = record {
    create_id =
        λ id config c w h. (create_container-IsNew l.llc_handler l.root id config w h).has_id;
    load_id = λ id c w h. ground arith;
    same_place = λ id config c d w v h k.
        let made = (create_container-IsNew l.llc_handler l.root id config w h).has_root in
        ground arith;
  }
