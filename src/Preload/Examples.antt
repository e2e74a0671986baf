-- ===== src/Preload/Examples.antt =====
-- Preloading at a plan of two files, the first of which fails.
use core_shift_engine.Base.{ℕ, ◌≡◌, List, [], ◌∷◌, length, max, min}
use core_shift_engine.State.{u64_max}
use core_shift_engine.Samples.{sample_host, sample_limits, map_target, chunk_target}
use core_shift_engine.Preload.{PreloadTarget, chunked_readahead, read_by, execute_preload_plan}
use core_shift_engine.Preload.Chunks.{Tiles, read_each, read_by-Tiles}
use core_shift_engine.Preload.Accounting.{Works, total_len, execute_preload_plan-accounts}

read_by-Tiles_example :
    (plan : List (ℕ × ℕ)) × Tiles (max 8 1) 0 20 plan
    × (read_by {h = sample_host} chunked_readahead 3 20 sample_limits 0
        ≡ read_each {h = sample_host} 3 plan 0)
read_by-Tiles_example = read_by-Tiles sample_host 3 20 sample_limits 0

execute_preload_plan-accounts_example :
    let (r, w) =
      execute_preload_plan sample_host (map_target ∷ chunk_target ∷ []) sample_limits 0 in
    (loaded : List PreloadTarget) × Works sample_host sample_limits
      (map_target ∷ chunk_target ∷ [])
      0
      loaded
      r.skipped
      w
    × (r.attempted_files ≡ 2)
    × (r.preloaded_files ≡ length loaded)
    × (r.preloaded_bytes ≡ min (total_len loaded sample_limits) u64_max)
execute_preload_plan-accounts_example =
    execute_preload_plan-accounts sample_host (map_target ∷ chunk_target ∷ []) sample_limits 0
