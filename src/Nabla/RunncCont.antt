-- ===== src/Nabla/RunncCont.antt =====
-- llruntimes/nabla/runnc-cont: `NewRunncCont` and `Run`, which becomes `nabla-run`.
pub mod Environment
use runnc.Base.{
  ℕ, String, ◌<>◌, ℤ, Option, none, some, List, [], ◌∷◌, ◌++◌, Bool, ◌||◌, str_eq, has_prefix,
  if◌then◌else◌, itoa_ℤ,
}
use runnc.Go.{Reply, done, failed, GoError, text, wrap, Outcome, ok, err, replaced}
use runnc.Os.{
  Os, World, M, ask, must, wrapping, pure, raise, halt, ◌>>=◌, ◌>>◌, stat, look_path, environ,
  execve,
}
use runnc.Configs.{Mount}
use runnc.NablaLib.Mask.{Net}
use runnc.NablaLib.Storage.{create_dummy}
use runnc.Nabla.Rumprun.{Json, create_rumprun_args}

-- `Config` (config.go)
pub record ContConfig : Type 0 where
  pub nabla_run_bin : String
  pub nabla_run_args : List String
  pub unikernel_bin : String
  pub tap : String
  pub ip_address : String
  pub ip_mask : ℤ
  pub gateway : String
  pub mac : String
  pub memory : ℤ
  pub disk : List String
  pub working_dir : String
  pub env : List String
  pub mounts : List Mount

-- `RunncCont`
pub record RunncCont : Type 0 where
  pub nabla_run_bin : String
  pub nabla_run_args : List String
  pub unikernel_bin : String
  pub tap : String
  pub ip_address : List ℕ
  pub ip_mask : List ℕ
  pub gateway : List ℕ
  pub mac : String
  pub memory : ℤ
  pub disk : String
  pub working_dir : String
  pub env : List String
  pub mounts : List Mount

module _ (net : Net) where
  unfoldable pub checked_mac : String → Outcome String
  checked_mac mac = if str_eq mac "" then ok "" else elim (net.parse_mac mac) [
    | done _ ↦ ok mac
    | failed e ↦ err (wrap ("not a valid mac addr: " <> mac) e)
  ]

  with_mac : ContConfig → String → List ℕ → List ℕ → List ℕ → Outcome String → Outcome RunncCont
  with_mac cfg disk ip mask gw (err e) = err e
  with_mac cfg disk ip mask gw (Outcome.stop s) = Outcome.stop s
  with_mac cfg disk ip mask gw (ok mac) = ok (record {
    nabla_run_bin = cfg.nabla_run_bin;
    nabla_run_args = cfg.nabla_run_args;
    unikernel_bin = cfg.unikernel_bin;
    tap = cfg.tap;
    ip_address = ip;
    ip_mask = mask;
    gateway = gw;
    mac = mac;
    memory = cfg.memory;
    disk = disk;
    working_dir = cfg.working_dir;
    env = cfg.env;
    mounts = cfg.mounts;
  })

  with_gateway : ContConfig → String → List ℕ → List ℕ → Option (List ℕ) → Outcome RunncCont
  unfolding with_mac checked_mac
  with_gateway cfg disk ip mask none = err (text ("not a valid gateway address: " <> cfg.gateway))
  with_gateway cfg disk ip mask (some gw) = with_mac cfg disk ip mask gw (checked_mac cfg.mac)

  with_address : ContConfig → String → String → Reply (List ℕ × List ℕ) → Outcome RunncCont
  unfolding with_gateway
  with_address cfg disk netstr (failed e) = err (wrap ("not a valid IP address: " <> netstr) e)
  with_address cfg disk netstr (done (ip, mask)) =
      with_gateway cfg disk ip mask (net.parse_ip cfg.gateway)

  with_disk : ContConfig → List String → Outcome RunncCont
  unfolding with_address
  with_disk cfg [] = err (text "No disk provided")
  with_disk cfg (disk ∷ rest) =
      if str_eq cfg.ip_address "" || str_eq cfg.gateway "" || str_eq cfg.tap ""
      then err (text "Insufficient network arguments set")
      else let netstr = cfg.ip_address <> ("/" <> itoa_ℤ cfg.ip_mask) in
        with_address cfg disk netstr (net.parse_cidr netstr)

  -- `NewRunncCont`
  unfoldable pub new_runnc_cont : ContConfig → Outcome RunncCont
  unfolding with_disk
  new_runnc_cont cfg = with_disk cfg cfg.disk

-- The arguments of `nabla-run`. The local variable `mac` of `Run` is never set.
unfoldable pub run_args : RunncCont → String → String → String → List String
run_args r mac disk unikernel_args =
    let memory = "--mem=" <> itoa_ℤ r.memory in
    if str_eq mac ""
    then r.nabla_run_bin
      ∷ "--x-exec-heap"
      ∷ memory
      ∷ ("--net=" <> r.tap)
      ∷ ("--disk=" <> disk)
      ∷ r.unikernel_bin
      ∷ unikernel_args
      ∷ []
    else r.nabla_run_bin
      ∷ "--x-exec-heap"
      ∷ memory
      ∷ ("--net-mac=" <> mac)
      ∷ ("--net=" <> r.tap)
      ∷ ("--disk=" <> disk)
      ∷ r.unikernel_bin
      ∷ unikernel_args
      ∷ []

-- The loop that drops the library path from the environment.
without_library_path : List String → List String
without_library_path [] = []
without_library_path (v ∷ env) =
    let rest = without_library_path env in
    if has_prefix v "LD_LIBRARY_PATH=" then rest else v ∷ rest

unfoldable pub new_environment : List String → List String
unfolding without_library_path
new_environment env = without_library_path env ++ ("LD_LIBRARY_PATH=/lib64" ∷ [])

module _ ⦃os : Os⦄ where
  -- `setupDisk`
  unfoldable pub setup_disk : String → M String
  setup_disk path = if str_eq path "" then create_dummy else do
    r ← ask (stat path)
    elim r [
      | failed e ↦ raise (text ("can not find the disk or directory " <> path))
      | done info ↦
          if info.is_dir
          then raise (text ("input storage " <> (path <> " is not an ISO")))
          else pure path
    ]

  -- The unikernel's path, or where $PATH has it.
  find_unikernel : String → M String
  find_unikernel bin = do
    r ← ask (stat bin)
    elim r [
      | done _ ↦ pure bin
      | failed e ↦ wrapping ("could not find the nabla file " <> bin) (must (ask (look_path bin)))
    ]

  module _ (json : Json) (net : Net) where
    become : RunncCont → String → String → M (Unit {0})
    become r disk unikernel_args = do
      env ← ask environ
      wrapping "Err from execve" (
          must (
            ask (execve r.nabla_run_bin (run_args r "" disk unikernel_args) (new_environment env))))
      halt replaced

    -- `Run`
    unfoldable pub run_cont : RunncCont → M (Unit {0})
    unfolding find_unikernel become
    run_cont r = do
      disk ← wrapping "could not setup the disk" (setup_disk r.disk)
      bin ← find_unikernel r.unikernel_bin
      let r' = record r { unikernel_bin = bin }
      unikernel_args ← wrapping "could not create the unikernel cmdline" (λ w. (
        create_rumprun_args json net r.ip_address r.ip_mask r.gateway "/" r.env r.working_dir bin
            r.nabla_run_args,
        w,
      ))
      become r' disk unikernel_args
