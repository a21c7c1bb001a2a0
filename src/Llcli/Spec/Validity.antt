-- ===== src/Llcli/Spec/Validity.antt =====
-- Which processes `validateProcessSpec` of llcli/util_nabla.go accepts.
use runnc.Base.{
  ◌≡◌, refl, ◌≢◌, ◌↔◌, String, Option, none, some, List, [], ◌∷◌, true, is_abs, str_eq_iff, arith,
}
use runnc.Go.{ok}
use runnc.Configs.{SpecProcess}
use runnc.Llcli.Spec.{process_args, validate_process_spec}

-- A process with a working directory that is absolute and a command.
pub record IsRunnable (p : SpecProcess) : Type 0 where
  pub has_cwd : p.cwd ≢ ""
  pub absolute : is_abs p.cwd ≡ true
  pub command : String
  pub arguments : List String
  pub has_args : p.args ≡ some (command ∷ arguments)

process_args-command :
    (args : Option (List String))
    → process_args args ≡ ok tt
    → (a : String) × (rest : List String) × (args ≡ some (a ∷ rest))
unfolding process_args
process_args-command none h = ground arith
process_args-command (some []) h = ground arith
process_args-command (some (a ∷ rest)) h = (a, rest, refl)

-- A process is accepted exactly if its working directory is absolute and it has a command.
validate_process_spec_iff :
    (p : SpecProcess) → (validate_process_spec (some p) ≡ ok tt) ↔ IsRunnable p
unfolding validate_process_spec
validate_process_spec_iff p = (
  λ h.
      let (a, rest, e) = process_args-command p.args (ground arith) in
      record {
        has_cwd = λ e. ground (arith, str_eq_iff p.cwd "");
        absolute = ground arith;
        command = a;
        arguments = rest;
        has_args = e;
      },
  λ h. rw h.has_args (ground (arith, str_eq_iff p.cwd "", h.has_cwd, h.absolute)),
)
