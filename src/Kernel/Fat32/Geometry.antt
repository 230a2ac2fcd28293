-- ===== src/Kernel/Fat32/Geometry.antt =====
-- Where the clusters lie on the disk.
use arona_os.Prelude.{ℕ, ◌+◌, ◌-◌, ◌*◌, ◌/◌, ◌≤◌, ◌<◌, ◌≢◌, arith}
use arona_os.Kernel.Fat32.{
  data_start_sector, sectors_per_cluster, total_sectors, cluster_to_sector, fat_start_sector,
  num_fats, sectors_per_fat,
}

-- The clusters that `find_free_cluster` tries.
abbrev pub total_clusters : ℕ
total_clusters = (total_sectors - data_start_sector) / sectors_per_cluster

-- Every sector of a cluster that `find_free_cluster` tries lies behind both copies of the table and before the end of the disk, and the
-- sectors of two different clusters are different.
pub cluster_to_sector-bounds :
    (c e i j : ℕ)
    → 2 ≤ c
    → c < 2 + total_clusters
    → 2 ≤ e
    → e < 2 + total_clusters
    → i < sectors_per_cluster
    → j < sectors_per_cluster
    → c ≢ e
    → (fat_start_sector + num_fats * sectors_per_fat ≤ cluster_to_sector c + i)
      × (cluster_to_sector c + i < total_sectors)
      × (cluster_to_sector c + i ≢ cluster_to_sector e + j)
unfolding cluster_to_sector
cluster_to_sector-bounds c e i j hc hc' he he' hi hj ne = ground arith
