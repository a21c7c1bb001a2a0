-- ===== src/Llcli/Context.antt =====
-- What the commands read of `cli.Context`: the arguments, the global root and the flags.
use runnc.Base.{String, Bool, List, [], ◌∷◌}

pub record Context : Type 0 where
  pub args : List String
  pub root : String
  pub bundle : String
  pub pid_file : String
  pub console : String
  pub force : Bool
  pub all : Bool
  pub detach : Bool
  pub no_subreaper : Bool

-- `context.Args().First()`; a missing argument is the empty text.
abbrev pub first_arg : List String → String
first_arg [] = ""
first_arg (a ∷ rest) = a

-- `context.Args().Get(1)`
abbrev pub second_arg : List String → String
second_arg [] = ""
second_arg (a ∷ []) = ""
second_arg (a ∷ b ∷ rest) = b
