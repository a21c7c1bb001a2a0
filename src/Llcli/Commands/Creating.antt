-- ===== src/Llcli/Commands/Creating.antt =====
-- How `create` of llcli/create.go ends: the command calls `fatal`, or exits with the status that
-- `startContainer` gives.
use runnc.Base.{
  ℕ, ap, String, ◌<◌, ◌≡◌, refl, ◌⊎◌, inl, inr, ℤ, pos, negsuc, Option, none, some, List, true,
  arith,
}
use runnc.Go.{Outcome, ok, err, stop, Stop, exited, Reply, GoError}
use runnc.Os.{Os, World}
use runnc.Configs.{Spec}
use runnc.Llif.{RunllcHandler}
use runnc.Libcontainer.State.{Container, Codec}
use runnc.Llcli.Context.{Context, first_arg}
use runnc.Llcli.Spec.{setup_spec}
use runnc.Llcli.Containers.{start_container, make_container}
use runnc.Llcli.Containers.Making.{start_container-IsCleanedUp, start_container-IsTotal}
use runnc.Llcli.Runner.Failure.{IsCleanedUp}
use runnc.Llcli.Commands.{create_cmd, exit_code, or_fatal}

exit_code-lt : (status : ℤ) → exit_code status < 256
unfolding exit_code
exit_code-lt (pos n) = omega arith
exit_code-lt (negsuc n) = omega arith

module _ ⦃os : Os⦄ ⦃codec : Codec⦄ (llc : RunllcHandler) (fuel : ℕ) (signals : List ℕ)
    (ctx : Context) where
  module _ (decode_spec : String → Reply (Option Spec)) where
    -- Where the specification is read, the end is that of `startContainer`.
    created :
        (spec : Spec) (w v : World) (q : Outcome (ℤ × Option GoError))
        → setup_spec decode_spec ctx.bundle w ≡ (ok spec, v)
        → (start_container llc fuel signals ctx spec true v).0 ≡ q
        → ((status : ℤ) × (q ≡ ok (status, none))
            × ((create_cmd llc decode_spec fuel signals ctx w).0
                ≡ stop (exited (exit_code status))))
          ⊎ (((status : ℤ) × (e : GoError) × (q ≡ ok (status, some e))
                × ((create_cmd llc decode_spec fuel signals ctx w).0 ≡ stop (exited 1)))
              ⊎ ((s : Stop) × (q ≡ stop s)
                  × ((create_cmd llc decode_spec fuel signals ctx w).0 ≡ stop s)))
    unfolding create_cmd or_fatal
    created spec w v (ok (status, none)) at h = inl (status, refl, ground arith)
    created spec w v (ok (status, some e)) at h = inr (inl (status, e, refl, ground arith))
    created spec w v (err e) at h = absurd (start_container-IsTotal llc fuel signals ctx spec v e h)
    created spec w v (stop s) at h = inr (inr (s, refl, ground arith))

    -- How the process ends by `s` once the specification was read, in the world `v`: as
    -- `startContainer` ends it; with its status; or with 1, where it reports an error, and then the id
    -- was missing, or no container was made, or the one that was made has been destroyed.
    abbrev pub EndsBy : Spec → World → Stop → Type 0
    EndsBy spec v s =
        let r = start_container llc fuel signals ctx spec true v in
        let made = (make_container llc ctx (first_arg ctx.args) spec v).0 in
        (r.0 ≡ stop s)
        ⊎ (((status : ℤ) × (r.0 ≡ ok (status, none))
              × (s ≡ exited (exit_code status))
              × (exit_code status < 256))
            ⊎ ((s ≡ exited 1)
                × ((first_arg ctx.args ≡ "")
                    ⊎ (((e : GoError) × (made ≡ err e))
                        ⊎ ((c : Container) × (made ≡ ok c) × IsCleanedUp llc c.id r.1)))))

    ends :
        (w : World) {spec : Spec} {v : World}
        → setup_spec decode_spec ctx.bundle w ≡ (ok spec, v)
        → (s : Stop) × ((create_cmd llc decode_spec fuel signals ctx w).0 ≡ stop s)
          × EndsBy spec v s
    ends w {spec} {v} at = elim (created spec w v _ at refl) [
      | inl (status, r, x) ↦
          (exited (exit_code status), x, inr (inl (status, r, refl, exit_code-lt status)))
      | inr (inl (status, e, r, x)) ↦ (
        exited 1,
        x,
        inr (
            inr (
              refl,
              elim (start_container-IsCleanedUp llc fuel signals ctx spec v r) [
                | inl blank ↦ inl blank
                | inr (inl failure) ↦ inr (inl (e, failure))
                | inr (inr made) ↦ inr (inr made)
              ],
            )),
      )
      | inr (inr (s, r, x)) ↦ (s, x, inl r)
    ]

    -- The whole of `create`.
    abbrev pub Ends : World → Type 0
    Ends w =
        let read = setup_spec decode_spec ctx.bundle w in
        (s : Stop) × ((create_cmd llc decode_spec fuel signals ctx w).0 ≡ stop s)
        × (((e : GoError) × (read.0 ≡ err e) × (s ≡ exited 1))
            ⊎ ((read.0 ≡ stop s) ⊎ ((spec : Spec) × (read.0 ≡ ok spec) × EndsBy spec read.1 s)))

    by_reading :
        (w : World) (q : Outcome Spec) → (setup_spec decode_spec ctx.bundle w).0 ≡ q → Ends w
    unfolding create_cmd or_fatal
    by_reading w (err e) at = (exited 1, ground arith, inl (e, at, refl))
    by_reading w (stop s) at = (s, ground arith, inr (inl at))
    by_reading w (ok spec) at =
        let v = (setup_spec decode_spec ctx.bundle w).1 in
        let (s, x, how) = ends w {spec = spec} {v = v} (ap (λ q. (q, v)) at) in
        (s, x, inr (inr (spec, at, how)))

    -- `create` always ends the process. Where the specification is not read, or `startContainer`
    -- reports an error, its status is 1; and in the second case the id was missing, or no container
    -- was made, or the one that was made has been destroyed. Otherwise it is below 256, and that of
    -- `startContainer`; or the reading or `startContainer` ended the process itself.
    pub create_cmd-Ends : (w : World) → Ends w
    create_cmd-Ends w = by_reading w _ refl
