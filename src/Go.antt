-- ===== src/Go.antt =====
-- Go's error values, and how a function ends. libcontainer/errors.go gives the codes of the
-- library's own errors (libcontainer/generic_error.go).
use runnc.Base.{String, Bool, true, false, ℕ}

-- The error numbers that the program tells apart.
pub data Errno : Type 0 where
  enoent eexist echild : Errno
  other : ℕ → Errno

-- `ErrorCode`
pub data ErrorCode : Type 0 where
  id_in_use : ErrorCode
  invalid_id_format : ErrorCode
  container_not_exists : ErrorCode
  container_paused : ErrorCode
  container_not_stopped : ErrorCode
  container_not_running : ErrorCode
  container_not_paused : ErrorCode
  no_process_ops : ErrorCode
  config_invalid : ErrorCode
  console_exists : ErrorCode
  system_error : ErrorCode

-- An `error`: of a system call, with a text only, a text in front of another error, or a
-- `*genericError` with its code, its cause and the error that it holds.
pub data GoError : Type 0 where
  errno : Errno → GoError
  text : String → GoError
  wrap : String → GoError → GoError
  generic : ErrorCode → String → GoError → GoError

-- `os.IsNotExist` and `os.IsExist`
abbrev pub is_not_exist : GoError → Bool
is_not_exist (errno enoent) = true
is_not_exist _ = false

abbrev pub is_exist : GoError → Bool
is_exist (errno eexist) = true
is_exist _ = false

-- What a system call answers.
pub data Reply {ℓ} (A : Type ℓ) : Type ℓ where
  done : A → Reply A
  failed : GoError → Reply A

-- The ends of a process: a panic, `os.Exit`, `select {}`, a successful `execve`. A model that
-- recurs on fuel ends by `out_of_fuel` where the fuel given is too little.
pub data Stop : Type 0 where
  panicked : String → Stop
  exited : ℕ → Stop
  blocked : Stop
  replaced : Stop
  out_of_fuel : Stop

-- How a call of a function ends.
pub data Outcome {ℓ} (A : Type ℓ) : Type ℓ where
  ok : A → Outcome A
  err : GoError → Outcome A
  stop : Stop → Outcome A
