-- ===== src/Utils/Depth.antt =====
-- The fuel of `Copy` (utils/copy.go): a number above the depth of the directories is enough.
use runnc.Base.{ℕ, zero, suc, ◌≡◌, ◌≢◌, refl, String, List, [], ◌∷◌, Bool, true, false, join, arith}
use runnc.Go.{Outcome, ok, err, stop, Stop, done}
use runnc.Os.{Os, World, M, ◌>>=◌, ask, must, FileInfo, stat, read_dir, mkdir_all}
use runnc.Os.Monad.{continue}
use runnc.Utils.{fcopy, open_target, copy_entries, pcopy, copy_path}

module _ ⦃os : Os⦄ where
  -- Do all the entries of a directory have the property?
  abbrev pub HoldsOf : (String → FileInfo → Type 0) → String → List (String × FileInfo) → Type 0
  HoldsOf P src [] = Unit
  HoldsOf P src ((name, i) ∷ infos) = P (join src name) i × HoldsOf P src infos

  -- Below a file, or a directory, are at most `n` levels of directories, whenever it is read.
  abbrev pub IsShallow : ℕ → String → FileInfo → Type 0
  IsShallow zero src i = i.is_dir ≡ false
  IsShallow (suc n) src i =
      (s : os.Sys) (infos : List (String × FileInfo))
      → i.is_dir ≡ true
      → (os.answer (read_dir src) s).0 ≡ done infos
      → HoldsOf (IsShallow n) src infos

  -- Code that does not end the process.
  abbrev IsEnding : {A : Type 0} → M A → Type 0
  IsEnding m = (w : World) (s : Stop) → (m w).0 ≢ stop s

  >>=-IsEnding :
      {A B : Type 0} (m : M A) (f : A → M B)
      → IsEnding m
      → ((a : A) (w : World) → (m w).0 ≡ ok a → (s : Stop) → (f a (m w).1).0 ≢ stop s)
      → IsEnding (m >>= f)
  >>=-IsEnding {A} {B} m f h k w s x = bound (m w).0 refl x
    where
      bound : (q : Outcome A) → (m w).0 ≡ q → (continue q f (m w).1).0 ≡ stop s → ⊥
      bound (ok a) at y = k a w at s y
      bound (err e) at y = ground arith
      bound (stop d) at y = h w d at

  fcopy-IsEnding : (dst src : String) (i : FileInfo) → IsEnding (fcopy dst src i)
  unfolding fcopy open_target
  fcopy-IsEnding dst src i w s x = ground arith

  entries-IsEnding :
      (n : ℕ) (dst src : String) (infos : List (String × FileInfo))
      → ((d r : String) (i : FileInfo) → IsShallow n r i → IsEnding (pcopy (suc n) d r i))
      → HoldsOf (IsShallow n) src infos
      → IsEnding (copy_entries (pcopy (suc n)) dst src infos)
  unfolding copy_entries
  entries-IsEnding n dst src [] h k w s x = ground arith
  entries-IsEnding n dst src ((name, i) ∷ infos) h (one, others) w s x =
      >>=-IsEnding (pcopy (suc n) (join dst name) (join src name) i)
        (λ _. copy_entries (pcopy (suc n)) dst src infos) (h _ _ i one)
        (λ _ v _. entries-IsEnding n dst src infos h others _) w s x

  pcopy-IsEnding :
      (n : ℕ) (dst src : String) (i : FileInfo) (b : Bool)
      → i.is_dir ≡ b
      → IsShallow n src i
      → IsEnding (pcopy (suc n) dst src i)
  unfolding pcopy
  pcopy-IsEnding n dst src i false is h = rw is (fcopy-IsEnding dst src i)
  pcopy-IsEnding zero dst src i true is h = absurd (ground arith)
  pcopy-IsEnding (suc n) dst src i true is h = rw is (
      >>=-IsEnding (must (ask (mkdir_all dst i.mode))) _ (λ w s x. ground arith)
        λ _ w _.
          >>=-IsEnding (must (ask (read_dir src))) (copy_entries (pcopy (suc n)) dst src)
            (λ v s x. ground arith)
            (λ infos v at.
              let read : (os.answer (read_dir src) v.sys).0 ≡ done infos = ground arith in
              entries-IsEnding n dst src infos (λ d r j k. pcopy-IsEnding n d r j j.is_dir refl k)
                (h v.sys infos is read) _)
            _)

  -- With a fuel above the depth of the directories, the copying returns, with or without an error.
  pub copy_path-IsEnding :
      (n : ℕ) (dst src : String)
      → ((s : os.Sys) (i : FileInfo) → (os.answer (stat src) s).0 ≡ done i → IsShallow n src i)
      → (w : World) (s : Stop) → (copy_path (suc n) dst src w).0 ≢ stop s
  unfolding copy_path
  copy_path-IsEnding n dst src h w s x =
      >>=-IsEnding (must (ask (stat src))) (pcopy (suc n) dst src) (λ v t y. ground arith)
        (λ i v at.
          let found : (os.answer (stat src) v.sys).0 ≡ done i = ground arith in
          pcopy-IsEnding n dst src i i.is_dir refl (h v.sys i found) _)
        w s x
