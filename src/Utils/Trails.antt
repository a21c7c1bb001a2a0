-- ===== src/Utils/Trails.antt =====
-- What a copying of utils/copy.go leaves in the record of its calls.
use runnc.Base.{ℕ, zero, suc, ◌≡◌, ◌⊎◌, String, List, [], ◌∷◌, ◌++◌, true, false, join}
use runnc.Go.{Outcome, ok, err, stop, done}
use runnc.Os.{
  Os, World, Event, called, handed, Call, Ret, FileInfo, stat, read_dir, mkdir_all, open_read,
  create, open_truncate, copy, chmod,
}
use runnc.Utils.{copy_path}

-- What is watched: a directory that is made, a file that is opened to be read, a file that is opened
-- to be written, a copying from one descriptor to another, and a change of the mode.
pub data Trail : Type 0 where
  makes : String → ℕ → Trail
  reads : String → Trail
  writes : String → Trail
  truncates : String → Trail
  copies : ℕ → ℕ → Trail
  sets_mode : String → ℕ → Trail

abbrev trail : {r : Ret} → Call r → List Trail → List Trail
trail (mkdir_all path mode) rest = makes path mode ∷ rest
trail (open_read path) rest = reads path ∷ rest
trail (create path) rest = writes path ∷ rest
trail (open_truncate path) rest = truncates path ∷ rest
trail (copy d s) rest = copies d s ∷ rest
trail (chmod path mode) rest = sets_mode path mode ∷ rest
trail _ rest = rest

abbrev pub trails : List Event → List Trail
trails [] = []
trails (called c ∷ events) = trail c (trails events)
trails (handed h ∷ events) = trails events

module _ ⦃os : Os⦄ where
  -- The trail, newest first, of a file that is copied: it is opened, the target is created, or
  -- emptied where it exists, all is copied from the one descriptor to the other, and then the target
  -- is given the mode of the file, each without an error. The answers are those of the system.
  abbrev pub FileCopied : String → String → FileInfo → List Trail → Type 0
  FileCopied dst src i l =
      (d s : ℕ) × (t u v x : os.Sys) × ((os.answer (open_read src) t).0 ≡ done s)
      × ((os.answer (copy d s) v).0 ≡ done tt)
      × ((os.answer (chmod dst i.mode) x).0 ≡ done tt)
      × ((((os.answer (create dst) u).0 ≡ done d)
            × (l ≡ sets_mode dst i.mode ∷ copies d s ∷ writes dst ∷ reads src ∷ []))
          ⊎ (((os.answer (open_truncate dst) u).0 ≡ done d)
              × (l
                  ≡ sets_mode dst i.mode
                    ∷ copies d s
                    ∷ truncates dst
                    ∷ writes dst
                    ∷ reads src
                    ∷ [])))

  -- The trail of the entries of a directory, one after the other.
  abbrev pub EachCopied :
      (String → String → FileInfo → List Trail → Type 0)
      → String
      → String
      → List (String × FileInfo)
      → List Trail
      → Type 0
  EachCopied P dst src [] l = l ≡ []
  EachCopied P dst src ((name, i) ∷ infos) l =
      (one others : List Trail) × P (join dst name) (join src name) i one
      × EachCopied P dst src infos others
      × (l ≡ others ++ one)

  -- The trail of a tree with at most `n` levels of directories.
  abbrev pub IsCopied : ℕ → String → String → FileInfo → List Trail → Type 0
  IsCopied zero dst src i l = (i.is_dir ≡ false) × FileCopied dst src i l
  IsCopied (suc n) dst src i l =
      ((i.is_dir ≡ false) × FileCopied dst src i l)
      ⊎ ((i.is_dir ≡ true)
          × ((s t : os.Sys) × (infos : List (String × FileInfo)) × (inner : List Trail)
              × ((os.answer (mkdir_all dst i.mode) t).0 ≡ done tt)
              × ((os.answer (read_dir src) s).0 ≡ done infos)
              × EachCopied (IsCopied n) dst src infos inner
              × (l ≡ inner ++ (makes dst i.mode ∷ []))))

  -- What holds of a copying, by how it ends.
  abbrev pub Ended : ℕ → String → String → World → Outcome (Unit {0}) → Type 0
  Ended n dst src w (ok t) =
      (i : FileInfo) × (l : List Trail) × ((os.answer (stat src) w.sys).0 ≡ done i)
      × IsCopied n dst src i l
      × (trails (copy_path (suc n) dst src w).1.trace ≡ l ++ trails w.trace)
  Ended n dst src w (err e) = Unit
  Ended n dst src w (stop s) = ⊥
