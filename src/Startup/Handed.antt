-- ===== src/Startup/Handed.antt =====
-- How the path of the shared memory gets from the option to the Raft process.
use libraft.Prelude.{ℕ, List}
use libraft.Text.{strncpy}
use libraft.Config.{RaftConfig}
use libraft.World.{World}

abbrev with_path : RaftConfig → List ℕ → RaftConfig
with_path c x = record c { shm_path = strncpy c.shm_path x 255 }
