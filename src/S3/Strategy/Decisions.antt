-- ===== src/S3/Strategy/Decisions.antt =====
-- What the sync strategies decide, in terms of sizes and times.
use m_awsexp.Common.{◌≡◌, ◌≢◌, ◌↔◌, ◌⊎◌, true, some, arith, ◌<◌}
use m_awsexp.S3.DateTime.{total_seconds-sub_datetime}
use m_awsexp.S3.FileStat.{FileStat, upload, copy, download}
use m_awsexp.S3.Strategy.{
  StrategyClass, size_and_last_modified_sync, compare_time, determine_should_sync,
  compare_time_exact, size_only_sync, exact_timestamps_sync,
}

-- The strategy asks for the transfer, and leaves the file at the destination as it was.
abbrev pub Syncs : StrategyClass → FileStat → FileStat → Type 0
Syncs c f g =
    determine_should_sync c (some f) (some g)
    ≡ some (record { should_sync = true; dest_file = some g })

-- An upload or a copy is due exactly when the sizes differ or the source is newer.
pub size_and_last_modified-upload :
    (f g : FileStat)
    → (f.operation_name ≡ upload) ⊎ (f.operation_name ≡ copy)
    → Syncs size_and_last_modified_sync f g ↔ ((f.size ≢ g.size) ⊎ (g.last_update < f.last_update))
unfolding determine_should_sync compare_time
size_and_last_modified-upload f g h =
    ground (arith, total_seconds-sub_datetime g.last_update f.last_update)

-- A download is due exactly when the sizes differ or the file at the destination is newer.
pub size_and_last_modified-download :
    (f g : FileStat)
    → f.operation_name ≡ download
    → Syncs size_and_last_modified_sync f g ↔ ((f.size ≢ g.size) ⊎ (f.last_update < g.last_update))
unfolding determine_should_sync compare_time
size_and_last_modified-download f g h =
    ground (arith, total_seconds-sub_datetime g.last_update f.last_update)

-- With exact timestamps a download is due exactly when the sizes or the times differ.
pub exact_timestamps-download :
    (f g : FileStat)
    → f.operation_name ≡ download
    → Syncs exact_timestamps_sync f g ↔ ((f.size ≢ g.size) ⊎ (f.last_update ≢ g.last_update))
unfolding determine_should_sync compare_time_exact
exact_timestamps-download f g h =
    ground (arith, total_seconds-sub_datetime g.last_update f.last_update)

-- On every other operation `--exact-timestamps` decides as the default does.
pub exact_timestamps-other :
    (f g : FileStat)
    → f.operation_name ≢ download
    → determine_should_sync exact_timestamps_sync (some f) (some g)
      ≡ determine_should_sync size_and_last_modified_sync (some f) (some g)
unfolding determine_should_sync compare_time_exact
exact_timestamps-other f g h = ground arith

-- With `--size-only` a transfer is due exactly when the sizes differ.
pub size_only_lem : (f g : FileStat) → Syncs size_only_sync f g ↔ (f.size ≢ g.size)
unfolding determine_should_sync
size_only_lem f g = ground arith
