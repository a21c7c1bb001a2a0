-- ===== src/Utils/Copied.antt =====
-- What `Copy` of utils/copy.go has done when it returns without an error.
use runnc.Base.{◌≡◌, String, List, ◌++◌}
use runnc.Os.{Os, World, M, ask, must, FileInfo, read_dir, mkdir_all}
use runnc.Utils.Trails.{Trail, trails}

module _ ⦃os : Os⦄ where
  abbrev Done : M (Unit {0}) → (List Trail → Type 0) → World → Type 0
  Done m P w = (l : List Trail) × P l × (trails (m w).1.trace ≡ l ++ trails w.trace)

  makes_dir : String → FileInfo → M (Unit {0})
  makes_dir dst i = must (ask (mkdir_all dst i.mode))

  lists_dir : String → M (List (String × FileInfo))
  lists_dir src = must (ask (read_dir src))
