-- ===== src/Nabla/RunncCont/Environment.antt =====
-- What `Run` of llruntimes/nabla/runnc-cont/runnc_cont.go passes to `nabla-run`, and how it ends.
use runnc.Base.{
  ◌≡◌, refl, ◌≢◌, String, List, [], ◌∷◌, ◌++◌, count, count-append, Bool, has_prefix, if◌then◌else◌,
  arith,
}
use runnc.Go.{ok}
use runnc.Os.{Os, World}
use runnc.NablaLib.Mask.{Net}
use runnc.Nabla.Rumprun.{Json}
use runnc.Nabla.RunncCont.{RunncCont, run_args, without_library_path, new_environment, run_cont}

-- Is it a setting of the library path?
abbrev pub is_library_path : String → Bool
is_library_path v = has_prefix v "LD_LIBRARY_PATH="

-- The settings of other variables, in order.
abbrev pub other_settings : List String → List String
other_settings [] = []
other_settings (v ∷ env) =
    let rest = other_settings env in if is_library_path v then rest else v ∷ rest

count-without_library_path :
    (env : List String) → count is_library_path (without_library_path env) ≡ 0
unfolding without_library_path
count-without_library_path [] = refl
count-without_library_path (v ∷ env) = ground (arith, count-without_library_path env)

other_settings-without_library_path :
    (env : List String) → without_library_path env ≡ other_settings env
unfolding without_library_path
other_settings-without_library_path [] = refl
other_settings-without_library_path (v ∷ env) =
    ground (arith, other_settings-without_library_path env)

-- The environment of `nabla-run` sets the library path once, to /lib64 and at the end; in front are
-- the settings of the other variables, in their order.
new_environment_lem :
    (env : List String)
    → (count is_library_path (new_environment env) ≡ 1)
      × (new_environment env ≡ other_settings env ++ ("LD_LIBRARY_PATH=/lib64" ∷ []))
unfolding new_environment
new_environment_lem env = (
  omega (
    arith,
    count-append is_library_path (without_library_path env) ("LD_LIBRARY_PATH=/lib64" ∷ []),
    count-without_library_path env,
  ),
  rw other_settings-without_library_path refl,
)

module _ ⦃os : Os⦄ (json : Json) (net : Net) where
  -- `Run` never returns without an error: it ends in an error, a panic or the new program.
  pub run_cont-ne-ok : (r : RunncCont) (w : World) → (run_cont json net r w).0 ≢ ok tt
  unfolding run_cont
  run_cont-ne-ok r w h = ground arith

  -- The hardware address that was checked and stored has no effect on the run: `nabla-run` is
  -- started the same way whatever it is.
  pub run_cont_ignores_mac :
      (r : RunncCont) (mac : String) (w : World)
      → run_cont json net (record r { mac = mac }) w ≡ run_cont json net r w
  unfolding run_cont run_args
  run_cont_ignores_mac r mac w = refl
