-- ===== src/Llmodules/Iso/Selection.antt =====
-- Which mounts `createRootfsISO` of llmodules/fs/iso_storage.go copies.
use runnc.Base.{ℕ, ◌≡◌, refl, String, List, [], ◌∷◌, if◌then◌else◌, arith}
use runnc.Os.{Os, World}
use runnc.Configs.{Mount}
use runnc.Llmodules.Iso.{is_network_file, copy_mount, copy_mounts}

abbrev pub network_files : List Mount → List Mount
network_files [] = []
network_files (m ∷ ms) = let rest = network_files ms in if is_network_file m then m ∷ rest else rest

module _ ⦃os : Os⦄ (fuel : ℕ) where
  -- Copying the mounts is copying those of the three network files, in the same order: a mount of
  -- anything else changes neither the outcome nor the world.
  copy_mounts-network_files :
      (rootfs : String) (ms : List Mount) (w : World)
      → copy_mounts fuel rootfs ms w ≡ copy_mounts fuel rootfs (network_files ms) w
  unfolding copy_mounts copy_mount
  copy_mounts-network_files rootfs [] w = refl
  copy_mounts-network_files rootfs (m ∷ ms) w = ground (
    arith,
    copy_mounts-network_files rootfs ms w,
    copy_mounts-network_files rootfs ms (copy_mount fuel rootfs m w).1,
  )
