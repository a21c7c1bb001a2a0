-- ===== src/Libcontainer/Errors/Detail.antt =====
-- libcontainer/generic_error.go: `genericError` with its time stamp and stack trace, and what it
-- prints. The clock, the capture of a stack and the quoting of a text are parameters.
use runnc.Base.{
  ℕ, suc, String, ◌<>◌, Option, none, some, List, [], ◌∷◌, str_eq, itoa, if◌then◌else◌,
}
use runnc.Go.{ErrorCode, system_error, GoError, Outcome, ok, stop, panicked}
use runnc.Libcontainer.Errors.{error_code_string}

-- `syncType` and `syncT`
pub data SyncType : Type 0 where
  proc_ready proc_error proc_run proc_hooks proc_resume : SyncType

pub record SyncT : Type 0 where
  pub sync_type : SyncType

-- What the template prints of a `stacktrace.Frame`.
pub record Frame : Type 0 where
  pub function : String
  pub package_name : String
  pub file : String
  pub line : ℕ

-- `genericError`; no error held is a nil `Err`.
pub record GenericError : Type 0 where
  pub timestamp : ℕ
  pub ecode : ErrorCode
  pub held : Option GoError
  pub cause : String
  pub message : String
  pub stack : List Frame

-- A Go `error` of which the dynamic type matters: of the library, or any other.
pub data AnyError : Type 0 where
  library : GenericError → AnyError
  foreign : GoError → AnyError

-- The numbers of the frames count from `i`.
frames_text : ℕ → List Frame → String
frames_text i [] = ""
frames_text i (f ∷ frames) =
    "\n---\n"
    <> (itoa i
        <> (": "
            <> (f.function
                <> ("\nPackage: "
                    <> (f.package_name
                        <> ("\nFile: "
                            <> (f.file
                                <> ("@" <> (itoa f.line <> frames_text (suc i) frames)))))))))

message_text : String → String
message_text m = if str_eq m "" then "" else "\nMessage: " <> (m <> "\n")

-- `Detail`: what `errorTemplate` prints, with the text of the time stamp as a parameter.
unfoldable pub detail : (ℕ → String) → GenericError → String
unfolding frames_text message_text
detail time_string e =
    "Timestamp: "
    <> (time_string e.timestamp
        <> ("\nCode: "
            <> (error_code_string e.ecode
                <> ("\n"
                    <> (message_text e.message
                        <> ("\nFrames:" <> (frames_text 0 e.stack <> "\n")))))))

-- `Error`: without a frame the index panics.
unfoldable pub error_string : (String → String) → GenericError → Outcome String
error_string quote e = if str_eq e.cause "" then ok e.message else elim e.stack [
  | [] ↦ stop (panicked "index out of range")
  | frame ∷ _ ↦ ok (
      frame.file
      <> (":" <> (itoa frame.line <> (": " <> (e.cause <> (" caused " <> quote e.message))))))
]

-- The time, and the stack without a number of its newest frames.
module _ (now : ℕ) (capture : ℕ → List Frame) (error_text : GoError → String) where
  held_text : Option GoError → String
  held_text none = ""
  held_text (some e) = error_text e

  -- `newGenericError`
  unfoldable pub new_generic : AnyError → ErrorCode → GenericError
  unfolding held_text
  new_generic (library le) c = le
  new_generic (foreign e) c = record {
    timestamp = now;
    ecode = c;
    held = some e;
    cause = "";
    message = held_text (some e);
    stack = capture 1;
  }

  -- `createSystemError`, and `newSystemError`, `newSystemErrorWithCause` and
  -- `newSystemErrorWithCausef` with their text made.
  unfoldable pub create_system_error : Option GoError → String → GenericError
  unfolding held_text
  create_system_error e cause = record {
    timestamp = now;
    ecode = system_error;
    held = e;
    cause = cause;
    message = held_text e;
    stack = capture 2;
  }
