-- ===== src/Libcontainer/Errors/Erasure.antt =====
-- The errors of libcontainer/generic_error.go with their time stamps and stacks, and the errors
-- that the other modules use.
use runnc.Base.{ℕ, ◌≡◌, refl, String, Option, none, some, List, arith}
use runnc.Go.{ErrorCode, GoError, errno, text, wrap, generic}
use runnc.Libcontainer.Errors.{new_generic_error, new_system_error_with_cause}
use runnc.Libcontainer.Errors.Detail.{
  Frame, GenericError, AnyError, library, foreign, new_generic, create_system_error,
}

-- An error without its time stamp, its message and its stack.
abbrev pub held_or_empty : Option GoError → GoError
held_or_empty none = text ""
held_or_empty (some e) = e

abbrev pub erase : GenericError → GoError
erase g = generic g.ecode g.cause (held_or_empty g.held)

abbrev pub erase_any : AnyError → GoError
erase_any (library g) = erase g
erase_any (foreign e) = e

-- Is an error none of the library?
abbrev IsForeign : GoError → Type 0
IsForeign (generic c cause e) = ⊥
IsForeign _ = Unit

-- The errors that a program holds: a foreign one is none of the library.
abbrev pub IsTyped : AnyError → Type 0
IsTyped (library g) = Unit
IsTyped (foreign e) = IsForeign e

module _ (now : ℕ) (capture : ℕ → List Frame) (error_text : GoError → String) where
  erase-foreign :
      (e : GoError) (c : ErrorCode) → IsForeign e → generic c "" e ≡ new_generic_error e c
  erase-foreign (errno n) c f = refl
  erase-foreign (text s) c f = refl
  erase-foreign (wrap s e) c f = refl
  erase-foreign (generic d cause e) c f = absurd f

  -- What `newGenericError` and `createSystemError` make, without the time stamp, the message and the
  -- stack, is what the rest of the development takes it to be; an error of the library keeps its
  -- time stamp, its message and its stack as well.
  erase-new_generic :
      (e : AnyError) (c : ErrorCode) (cause : String) (held : GoError)
      → IsTyped e
      → (erase (new_generic now capture error_text e c) ≡ new_generic_error (erase_any e) c)
        × (erase (create_system_error now capture error_text (some held) cause)
            ≡ new_system_error_with_cause held cause)
        × ((g : GenericError) → e ≡ library g → new_generic now capture error_text e c ≡ g)
  unfolding new_generic create_system_error
  erase-new_generic (library g) c cause held t = (refl, refl, λ h same. ground arith)
  erase-new_generic (foreign e) c cause held t = (erase-foreign e c t, refl, λ h same. ground arith)
