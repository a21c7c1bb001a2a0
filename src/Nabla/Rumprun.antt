-- ===== src/Nabla/Rumprun.antt =====
-- llruntimes/nabla/runnc-cont/rumprun.go: the arguments of a rumprun unikernel, in JSON.
pub mod Splice
use runnc.Base.{
  ℕ, String, ◌<>◌, Option, none, some, List, [], ◌∷◌, Bool, str_eq, if◌then◌else◌, itoa, join_with,
  text_take, text_drop, text_init,
}
use runnc.Go.{Outcome, ok, err, text, wrap}
use runnc.NablaLib.Mask.{Net, mask_cidr}

-- `rumpArgsNetwork`, `rumpArgsBlock` and `rumpArgs`. `Mem` is never set.
pub record RumpArgsNetwork : Type 0 where
  pub interface : String
  pub cloner : String
  pub kind : String
  pub method : String
  pub addr : String
  pub mask : String
  pub gw : String

pub record RumpArgsBlock : Type 0 where
  pub source : String
  pub path : String
  pub fstype : String
  pub mount : String

pub record RumpArgs : Type 0 where
  pub cmdline : String
  pub net : RumpArgsNetwork
  pub blk : Option RumpArgsBlock
  pub env : List String
  pub cwd : String

-- What `encoding/json` does with texts: a text as a JSON literal, its quotes included, and the check
-- of what a `MarshalJSON` gives.
pub record Json : Type 0 where
  pub quote : String → String
  pub valid : String → Bool

-- `encoding/json` at these structs.
module _ (json : Json) where
  abbrev pub member : String → String → String
  member key value = json.quote key <> (":" <> json.quote value)

  network_json : RumpArgsNetwork → String
  network_json n =
      "{"
      <> (join_with "," (
            member "if" n.interface
            ∷ member "cloner" n.cloner
            ∷ member "type" n.kind
            ∷ member "method" n.method
            ∷ member "addr" n.addr
            ∷ member "mask" n.mask
            ∷ member "gw" n.gw
            ∷ [])
          <> "}")

  block_json : Option RumpArgsBlock → String
  block_json none = ""
  block_json (some b) =
      ","
      <> (json.quote "blk"
          <> (":{"
              <> (join_with "," (
                    member "source" b.source
                    ∷ member "path" b.path
                    ∷ member "fstype" b.fstype
                    ∷ member "mountpoint" b.mount
                    ∷ [])
                  <> "}")))

  cwd_json : String → String
  cwd_json cwd = if str_eq cwd "" then "" else "," <> member "cwd" cwd

  -- The members of a `rumpArgs` whose `Env` is nil.
  unfoldable pub members_json : RumpArgs → String
  unfolding network_json block_json cwd_json
  members_json ra =
      member "cmdline" ra.cmdline
      <> (","
          <> (json.quote "net"
              <> (":" <> (network_json ra.net <> (block_json ra.blk <> cwd_json ra.cwd)))))

  -- `json.Marshal(alias)`
  alias_json : RumpArgs → String
  unfolding members_json
  alias_json ra = "{" <> (members_json ra <> "}")

  -- `json.Marshal(&EnvAlias{v})`: an empty text is omitted.
  pub env_alias_json : String → String
  env_alias_json v = if str_eq v "" then "{}" else "{" <> (member "env" v <> "}")

  -- The loop over the environment: `addString += string(vb[1:len(vb)-1]) + ","`.
  pub add_env : String → List String → String
  unfolding env_alias_json
  add_env out [] = out
  add_env out (v ∷ env) = add_env (out <> (text_drop 1 (text_init (env_alias_json v)) <> ",")) env

  -- `MarshalJSON`
  unfoldable pub marshal_json : RumpArgs → String
  unfolding alias_json add_env
  marshal_json ra =
      let other = alias_json ra in text_take 1 other <> (add_env "" ra.env <> text_drop 1 other)

  -- `json.Marshal(ra)` checks what `MarshalJSON` gives.
  unfoldable pub marshal_rump_args : RumpArgs → Outcome String
  unfolding marshal_json
  marshal_rump_args ra =
      let spliced = marshal_json ra in
      if json.valid spliced
      then ok spliced
      else err (text "json: error calling MarshalJSON for type *runnc_cont.rumpArgs")

-- The mask as rumprun is told it: 32 is passed as 1.
unfoldable pub rump_cidr : List ℕ → String
rump_cidr mask = let cidr = itoa (mask_cidr mask) in if str_eq cidr "32" then "1" else cidr

block_of : String → Option RumpArgsBlock
block_of mount_point =
    if str_eq mount_point ""
    then none
    else some (record { source = "etfs"; path = "/dev/ld0a"; fstype = "blk"; mount = mount_point })

-- The `rumpArgs` that `CreateRumprunArgs` builds.
unfoldable pub rump_args :
    Net → List ℕ → List ℕ → List ℕ → String → List String → String → String → List String → RumpArgs
unfolding block_of rump_cidr
rump_args net ip mask gw mount_point env_vars cwd unikernel cmdargs = record {
  cmdline = join_with " " (unikernel ∷ cmdargs);
  net = record {
    interface = "ukvmif0";
    cloner = "True";
    kind = "inet";
    method = "static";
    addr = net.ip_string ip;
    mask = rump_cidr mask;
    gw = net.ip_string gw;
  };
  blk = block_of mount_point;
  env = env_vars;
  cwd = cwd;
}

marshalled : Outcome String → Outcome String
marshalled (ok s) = ok s
marshalled (err e) = err (wrap "error with rumprun json" e)
marshalled (Outcome.stop s) = Outcome.stop s

-- `CreateRumprunArgs`
unfoldable pub create_rumprun_args :
    Json
    → Net
    → List ℕ
    → List ℕ
    → List ℕ
    → String
    → List String
    → String
    → String
    → List String
    → Outcome String
unfolding rump_args marshal_rump_args marshalled
create_rumprun_args json net ip mask gw mount_point env_vars cwd unikernel cmdargs =
    marshalled
      (marshal_rump_args json (rump_args net ip mask gw mount_point env_vars cwd unikernel cmdargs))
