-- ===== src/S3/Tests/Sync.antt =====
-- Examples for `sync`: strategies, comparator, filters and paths.
use m_awsexp.S3.Comparator
use m_awsexp.S3.Filter
use m_awsexp.Common.{
  ◌≡◌, List, str_eq, str_lt, replace, codes, some, true, ◌∷◌, ◌↔◌, refl, ◌≢◌, [], inl, ◌⊎◌, false,
  ◌<◌,
}
use m_awsexp.S3.Strategy.{
  determine_should_sync, SyncStrategies, size_only_sync, choose_sync_strategies,
  exact_timestamps_sync, size_and_last_modified_sync,
}
use m_awsexp.S3.Path.{find_bucket_key, find_dest_path_comp_key, Files, split_s3_bucket_key}
use m_awsexp.S3.Strategy.Choice.{
  NeverRaises, choose_sync_strategies-NeverRaises, responses_for, chosen_for,
  choose_sync_strategies_lem,
}
use m_awsexp.S3.Strategy.Decisions.{
  Syncs, exact_timestamps-other, size_only_lem, exact_timestamps-download,
  size_and_last_modified-download, size_and_last_modified-upload,
}
use m_awsexp.S3.FileStat.{FileStat, local, unnamed, s3, upload, download}
use m_awsexp.S3.Comparator.Keys.{IsAscending}
use m_awsexp.S3.Filter.{Pattern, append_filter, status_after}
use m_awsexp.S3.Tests.{file}
use m_awsexp.S3.Path.Laws.{
  reversed, split_s3_bucket_key-scheme, find_dest_path_comp_key-below, compare_key-reversed,
}
use m_awsexp.S3.Comparator.Order.{call-IsAscending}
use m_awsexp.S3.Comparator.{finished}
use mathlib.Core.List.{Perm}
use m_awsexp.S3.Comparator.Join.{joined}
use m_awsexp.S3.Comparator.Correct.{call-perm-joined}

abbrev strategies : SyncStrategies
strategies = choose_sync_strategies (responses_for (λ name. true))

abbrev src_files : List FileStat
src_files = file (codes "a") 1 10 upload ∷ file (codes "c") 2 20 upload ∷ []

abbrev dest_files : List FileStat
dest_files = file (codes "b") 3 30 unnamed ∷ file (codes "c") 5 20 unnamed ∷ []

src_files-IsAscending : IsAscending src_files
unfolding str_lt
src_files-IsAscending = ((refl, tt), (tt, tt))

dest_files-IsAscending : IsAscending dest_files
unfolding str_lt
dest_files-IsAscending = ((refl, tt), (tt, tt))

call-perm-joined_example :
    ((m_awsexp.S3.Comparator.call strategies src_files dest_files).ending ≡ finished)
    × Perm
        (m_awsexp.S3.Comparator.call strategies src_files dest_files).yielded
        (joined strategies src_files dest_files)
call-perm-joined_example =
    call-perm-joined {sts = strategies} (choose_sync_strategies-NeverRaises (λ name. true))
      src_files dest_files src_files-IsAscending dest_files-IsAscending

call-IsAscending_example :
    IsAscending (m_awsexp.S3.Comparator.call strategies src_files dest_files).yielded
call-IsAscending_example =
    call-IsAscending strategies src_files dest_files src_files-IsAscending dest_files-IsAscending

choose_sync_strategies_lem_example :
    choose_sync_strategies (responses_for (str_eq (codes "delete"))) ≡ chosen_for false false true
unfolding str_eq
choose_sync_strategies_lem_example = choose_sync_strategies_lem (str_eq (codes "delete"))

choose_sync_strategies-NeverRaises_example : NeverRaises strategies
choose_sync_strategies-NeverRaises_example = choose_sync_strategies-NeverRaises (λ name. true)

abbrev old : FileStat
old = file (codes "a") 1 10 upload

abbrev new : FileStat
new = file (codes "a") 1 20 upload

abbrev old_download : FileStat
old_download = file (codes "a") 1 10 download

size_and_last_modified-upload_example :
    Syncs size_and_last_modified_sync old new
    ↔ ((old.size ≢ new.size) ⊎ (new.last_update < old.last_update))
size_and_last_modified-upload_example = size_and_last_modified-upload old new (inl refl)

size_and_last_modified-download_example :
    Syncs size_and_last_modified_sync old_download new
    ↔ ((old_download.size ≢ new.size) ⊎ (old_download.last_update < new.last_update))
size_and_last_modified-download_example = size_and_last_modified-download old_download new refl

exact_timestamps-download_example :
    Syncs exact_timestamps_sync old_download new
    ↔ ((old_download.size ≢ new.size) ⊎ (old_download.last_update ≢ new.last_update))
exact_timestamps-download_example = exact_timestamps-download old_download new refl

exact_timestamps-other_example :
    determine_should_sync exact_timestamps_sync (some old) (some new)
    ≡ determine_should_sync size_and_last_modified_sync (some old) (some new)
exact_timestamps-other_example = exact_timestamps-other old new (λ e. cc)

size_only_lem_example : Syncs size_only_sync old new ↔ (old.size ≢ new.size)
size_only_lem_example = size_only_lem old new

abbrev rules : List Pattern
rules = (codes "exclude", codes "a") ∷ (codes "include", codes "a") ∷ []

abbrev folder : Files
folder = record {
  src = record { path = codes "src/"; location = local };
  dest = record { path = codes "bucket/"; location = s3 };
  dir_op = true;
  use_src_name = true;
}

compare_key-reversed_example :
    (find_dest_path_comp_key b'\\'
      (reversed b'\\' folder)
      (find_dest_path_comp_key b'\\' folder (codes "src/a\\b")).0).1
    ≡ (find_dest_path_comp_key b'\\' folder (codes "src/a\\b")).1
compare_key-reversed_example = compare_key-reversed b'\\' folder (codes "a\\b") refl refl (inl refl)

find_dest_path_comp_key-below_example :
    find_dest_path_comp_key b'\\' folder (codes "src/a\\b") ≡ (codes "bucket/a/b", codes "a/b")
unfolding replace
find_dest_path_comp_key-below_example =
    find_dest_path_comp_key-below b'\\' folder (codes "a\\b") refl refl

split_s3_bucket_key-scheme_example :
    split_s3_bucket_key (codes "s3://bucket/a") ≡ find_bucket_key (codes "bucket/a")
split_s3_bucket_key-scheme_example = split_s3_bucket_key-scheme (codes "bucket/a")
