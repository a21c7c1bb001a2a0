-- ===== src/Libcontainer/Errors.antt =====
-- libcontainer/errors.go and libcontainer/generic_error.go. Time stamps and stack traces, which
-- only the printed form of an error shows, stand in Errors/Detail.
pub mod Detail
pub mod Erasure
use runnc.Base.{String, Option, none, some}
use runnc.Go.{
  ErrorCode, id_in_use, invalid_id_format, container_not_exists, container_paused,
  container_not_stopped, container_not_running, container_not_paused, no_process_ops,
  config_invalid, console_exists, system_error, GoError, errno, text, wrap, generic,
}

-- `ErrorCode.String`
unfoldable pub error_code_string : ErrorCode → String
error_code_string id_in_use = "Id already in use"
error_code_string invalid_id_format = "Invalid format"
error_code_string container_paused = "Container paused"
error_code_string config_invalid = "Invalid configuration"
error_code_string system_error = "System error"
error_code_string container_not_exists = "Container does not exist"
error_code_string container_not_stopped = "Container is not stopped"
error_code_string container_not_running = "Container is not running"
error_code_string console_exists = "Console exists for process"
error_code_string container_not_paused = "Container is not paused"
error_code_string no_process_ops = "No process operations"

-- `err.(Error)` and `Code()`: the code of an error of the library.
abbrev pub code_of : GoError → Option ErrorCode
code_of (generic c cause e) = some c
code_of (errno n) = none
code_of (text s) = none
code_of (wrap s e) = none

-- `newGenericError`: an error of the library stays as it is.
abbrev pub new_generic_error : GoError → ErrorCode → GoError
new_generic_error (generic c cause e) code = generic c cause e
new_generic_error (errno n) code = generic code "" (errno n)
new_generic_error (text s) code = generic code "" (text s)
new_generic_error (wrap s e) code = generic code "" (wrap s e)

-- `createSystemError`, `newSystemErrorWithCause`
abbrev pub new_system_error_with_cause : GoError → String → GoError
new_system_error_with_cause e cause = generic system_error cause e
