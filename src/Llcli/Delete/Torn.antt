-- ===== src/Llcli/Delete/Torn.antt =====
-- What `delete` of llcli/delete.go does with a container whose state file does not decode.
use runnc.Base.{◌≡◌, ◌≢◌, sym, ap, ◌∙◌, String, join, arith}
use runnc.Go.{ok, err, text, system_error}
use runnc.Os.{Os, World}
use runnc.Llif.{RunllcHandler}
use runnc.Libcontainer.Errors.{new_generic_error}
use runnc.Libcontainer.State.{Container, Codec}
use runnc.Libcontainer.Container.Unsaved.{IsTorn, load_torn}
use runnc.Libcontainer.Factory.{load}
use runnc.Libcontainer.Factory.Load.{IsStorage}
use runnc.Llcli.Context.{Context, first_arg}
use runnc.Llcli.Containers.{get_container, load_factory}
use runnc.Llcli.Commands.Restarting.{found}
use runnc.Llcli.Delete.{delete_cmd}

module _ ⦃os : Os⦄ ⦃codec : Codec⦄ (storage : IsStorage os) (llc : RunllcHandler) where
  unreadable :
      (ctx : Context) (w : World) {m : String}
      → (get_container ctx w).0 ≡ err (new_generic_error (text m) system_error)
      → delete_cmd llc ctx w
        ≡ (err (new_generic_error (text m) system_error), (get_container ctx w).1)
  unfolding delete_cmd
  unreadable ctx w h = ground arith

  -- Where the state file of the container with this id, below a root that is found, holds a text that
  -- does not decode, `delete` fails, and makes no call after it has read the file: neither the
  -- directory nor the process is touched.
  pub delete_cmd_torn :
      (c : Container) (ctx : Context) (w : World) {root m : String}
      → first_arg ctx.args ≡ c.id
      → c.id ≢ ""
      → root ≢ ""
      → (load_factory ctx w).0 ≡ ok root
      → c.root ≡ join root c.id
      → IsTorn storage root c (text m) (load_factory ctx w).1.sys
      → delete_cmd llc ctx w
        ≡ (err (new_generic_error (text m) system_error), (get_container ctx w).1)
  delete_cmd_torn c ctx w {root} {m} named given rooted factory at torn = unreadable ctx w (
      found ctx w (λ blank. given (sym named ∙ blank)) factory
      ∙ ap (λ id. (load root id (load_factory ctx w).1).0) named
      ∙ load_torn storage root c (load_factory ctx w).1 rooted at torn)
