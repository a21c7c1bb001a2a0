-- ===== src/Utils.antt =====
-- utils: `AddAbsentSlice` (slice.go) and the copying of files and directories (copy.go).
pub mod Slices
pub mod Depth
pub mod Trails
pub mod Copied
use runnc.Base.{
  ℕ, zero, suc, String, List, [], ◌∷◌, ◌++◌, Bool, true, false, ◌||◌, str_eq, if◌then◌else◌, join,
}
use runnc.Go.{Reply, done, failed, GoError, is_exist, out_of_fuel}
use runnc.Os.{
  Os, World, M, ask, must, attempt, deferring, pure, raise, halt, ◌>>=◌, ◌>>◌, FileInfo, stat,
  open_read, create, open_truncate, copy, close, chmod, mkdir_all, read_dir,
}

-- The loop of `AddAbsentSlice`.
unfoldable pub has_element : List String → String → Bool
has_element [] add = false
has_element (v ∷ slice) add = str_eq add v || has_element slice add

unfoldable pub add_absent_slice : List String → String → List String
unfolding has_element
add_absent_slice slice add = if has_element slice add then slice else slice ++ (add ∷ [])

module _ ⦃os : Os⦄ where
  -- An existing file is overwritten.
  pub open_target : String → M ℕ
  open_target dst = do
    r ← ask (create dst)
    elim r [
      | done d ↦ pure d
      | failed e ↦ if is_exist e then must (ask (open_truncate dst)) else raise e
    ]

  -- `fcopy`
  unfoldable pub fcopy : String → String → FileInfo → M (Unit {0})
  unfolding open_target
  fcopy dst src src_info = do
    s ← must (ask (open_read src))
    deferring (ask (close s)) (do
      d ← open_target dst
      r ← ask (copy d s)
      elim r [
        | failed e ↦ do ask (close d); raise e
        | done _ ↦ do must (ask (chmod dst src_info.mode)); must (ask (close d))
      ])

  -- The loop of `dcopy`; `copy_entry` is `pcopy` one level down.
  unfoldable pub copy_entries :
      (String → String → FileInfo → M (Unit {0}))
      → String
      → String
      → List (String × FileInfo)
      → M (Unit {0})
  copy_entries copy_entry dst src [] = pure tt
  copy_entries copy_entry dst src ((name, info) ∷ infos) = do
    copy_entry (join dst name) (join src name) info
    copy_entries copy_entry dst src infos

  -- `pcopy`, with `dcopy` as its first branch. The fuel bounds the depth of the directories.
  unfoldable pub pcopy : ℕ → String → String → FileInfo → M (Unit {0})
  unfolding fcopy copy_entries
  pcopy zero dst src src_info = halt out_of_fuel
  pcopy (suc fuel) dst src src_info = elim src_info.is_dir [
    | true ↦ do
      must (ask (mkdir_all dst src_info.mode))
      infos ← must (ask (read_dir src))
      copy_entries (pcopy fuel) dst src infos
    | false ↦ fcopy dst src src_info
  ]

  -- `Copy`
  unfoldable pub copy_path : ℕ → String → String → M (Unit {0})
  unfolding pcopy
  copy_path fuel dst src = do src_info ← must (ask (stat src)); pcopy fuel dst src src_info
