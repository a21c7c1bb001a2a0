-- ===== src/Llcli/Containers/Making.antt =====
-- How `startContainer` of llcli/util_nabla.go fails for `create`.
use mathlib.Core.Path.{subst}
use runnc.Base.{
  ℕ, ◌≡◌, refl, sym, ap, ◌∙◌, ◌⊎◌, inl, inr, ℤ, Option, none, some, List, str_eq, str_eq_iff, true,
  false, Bool-cases, arith,
}
use runnc.Go.{Outcome, ok, err, stop, GoError}
use runnc.Os.{
  Os, World, M, IsTotal, >>=-IsTotal, attempt-IsTotal, pure-IsTotal, if-IsTotal, reply-IsTotal,
}
use runnc.Llcli.Runner.Returning.{run-IsTotal}
use runnc.Configs.{Spec, SpecProcess}
use runnc.Llif.{RunllcHandler}
use runnc.Libcontainer.State.{Container, Codec}
use runnc.Llcli.Context.{Context, first_arg}
use runnc.Llcli.Runner.CleanUp.{IsCreator}
use runnc.Llcli.Runner.Failure.{IsCleanedUp, run-IsClean}
use runnc.Llcli.Containers.{make_container, runner_of, run_process, start_container}

module _ ⦃os : Os⦄ ⦃codec : Codec⦄ (llc : RunllcHandler) (fuel : ℕ) (signals : List ℕ)
    (ctx : Context) where
  creator : IsCreator llc (runner_of llc ctx true)
  unfolding runner_of
  creator = record { destroys = refl; creates = refl }

  started :
      (c : Container) (p : Option SpecProcess) (w : World) {status : ℤ} {e : GoError}
      → (run_process llc fuel signals (runner_of llc ctx true) c p w).0 ≡ ok (status, some e)
      → IsCleanedUp llc c.id (run_process llc fuel signals (runner_of llc ctx true) c p w).1
  unfolding run_process
  started c none w h = ground arith
  started c (some p) w h =
      elim (run-IsClean llc (runner_of llc ctx true) creator fuel signals c p w h) [
        | inl (_, fine) ↦ ground arith
        | inr clean ↦ clean
      ]

  attempted :
      (spec : Spec) (w : World) (q : Outcome Container) {status : ℤ} {e : GoError}
      → str_eq (first_arg ctx.args) "" ≡ false
      → (make_container llc ctx (first_arg ctx.args) spec w).0 ≡ q
      → (start_container llc fuel signals ctx spec true w).0 ≡ ok (status, some e)
      → ((make_container llc ctx (first_arg ctx.args) spec w).0 ≡ err e)
        ⊎ ((c : Container) × ((make_container llc ctx (first_arg ctx.args) spec w).0 ≡ ok c)
            × IsCleanedUp llc c.id (start_container llc fuel signals ctx spec true w).1)
  unfolding start_container
  attempted spec w (ok c) given eq h =
      let v = (make_container llc ctx (first_arg ctx.args) spec w).1 in
      let run_it : M (ℤ × Option GoError) =
        run_process llc fuel signals (runner_of llc ctx true) c spec.process in
      let same : start_container llc fuel signals ctx spec true w ≡ run_it v = ground arith in
      inr (
        c,
        eq,
        subst (λ r. IsCleanedUp llc c.id r.1) (sym same)
            (started c spec.process v (ap (λ r. r.0) (sym same) ∙ h)),
      )
  attempted spec w (err x) given eq h = inl (ground arith)
  attempted spec w (stop s) given eq h = ground arith

  -- Where `startContainer` of create reports an error, the id was missing, or the container could
  -- not be made and this is its error, or it was made and `destroy` was run last for a container with
  -- its id, and after that at most the terminal was closed.
  pub start_container-IsCleanedUp :
      (spec : Spec) (w : World) {status : ℤ} {e : GoError}
      → (start_container llc fuel signals ctx spec true w).0 ≡ ok (status, some e)
      → (first_arg ctx.args ≡ "")
        ⊎ (((make_container llc ctx (first_arg ctx.args) spec w).0 ≡ err e)
            ⊎ ((c : Container) × ((make_container llc ctx (first_arg ctx.args) spec w).0 ≡ ok c)
                × IsCleanedUp llc c.id (start_container llc fuel signals ctx spec true w).1))
  start_container-IsCleanedUp spec w h = elim (Bool-cases (str_eq (first_arg ctx.args) "")) [
    | inl blank ↦ inl ((str_eq_iff (first_arg ctx.args) "").0 blank)
    | inr given ↦ inr (attempted spec w _ given refl h)
  ]

  process-IsTotal :
      (c : Container) (p : Option SpecProcess)
      → IsTotal (run_process llc fuel signals (runner_of llc ctx true) c p)
  unfolding run_process
  process-IsTotal c none w e x = ground arith
  process-IsTotal c (some p) w e x =
      run-IsTotal llc (runner_of llc ctx true) creator fuel signals c p w e x

  -- Every error of `startContainer` stands beside a status.
  pub start_container-IsTotal :
      (spec : Spec) → IsTotal (start_container llc fuel signals ctx spec true)
  unfolding start_container
  start_container-IsTotal spec = if-IsTotal (str_eq (first_arg ctx.args) "") _ _ (pure-IsTotal _) (
      >>=-IsTotal _ _ (attempt-IsTotal (make_container llc ctx (first_arg ctx.args) spec)) λ made.
        reply-IsTotal made
          (λ c. run_process llc fuel signals (runner_of llc ctx true) c spec.process) _
          (λ c. process-IsTotal c spec.process) λ e. pure-IsTotal _)
