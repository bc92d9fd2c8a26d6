-- ===== src/Cache/Metrics.antt =====
-- backend/internal/cache/metrics.go. Each method is an atomic access of one counter.
use task_management_api.Shared.{if◌then◌else◌, ◌==◌, ◌&&◌}
use task_management_api.Shared.Int.{ℤ, pos, Time, inc, add_int64, unix, pos_part, neg_part}

pub record CacheMetrics : Type 0 where
  pub hits : ℤ
  pub misses : ℤ
  pub errors : ℤ
  pub sets : ℤ
  pub deletes : ℤ
  pub start_time : ℤ

unfoldable pub new_cache_metrics : Time → CacheMetrics
new_cache_metrics now = record {
  hits = pos 0;
  misses = pos 0;
  errors = pos 0;
  sets = pos 0;
  deletes = pos 0;
  start_time = unix now;
}

abbrev pub record_hit : CacheMetrics → CacheMetrics
record_hit m = record m { hits = inc m.hits }

abbrev pub record_miss : CacheMetrics → CacheMetrics
record_miss m = record m { misses = inc m.misses }

abbrev pub record_error : CacheMetrics → CacheMetrics
record_error m = record m { errors = inc m.errors }

abbrev pub record_set : CacheMetrics → CacheMetrics
record_set m = record m { sets = inc m.sets }

abbrev pub record_delete : CacheMetrics → CacheMetrics
record_delete m = record m { deletes = inc m.deletes }

pub get_stats : CacheMetrics → CacheMetrics
get_stats m = m

-- The float64 operations of `HitRate`.
pub record Float64 : Type 1 where
  pub Float : Type 0
  pub of_int64 : ℤ → Float
  pub divide : Float → Float → Float
  pub times : Float → Float → Float

pub hit_rate : (f : Float64) → CacheMetrics → f.Float
hit_rate f m =
    let total = add_int64 m.hits m.misses in
    if (pos_part total == 0) && (neg_part total == 0)
    then f.of_int64 (pos 0)
    else f.times (f.divide (f.of_int64 m.hits) (f.of_int64 total)) (f.of_int64 (pos 100))

unfoldable pub reset : CacheMetrics → Time → CacheMetrics
reset m now = record {
  hits = pos 0;
  misses = pos 0;
  errors = pos 0;
  sets = pos 0;
  deletes = pos 0;
  start_time = unix now;
}
