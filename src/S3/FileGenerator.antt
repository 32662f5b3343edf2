-- ===== src/S3/FileGenerator.antt =====
-- `FileGenerator` of awscli/customizations/s3/filegenerator.py: the files that a command works on,
-- listed on the local disk or in a bucket.
pub mod Names
pub mod Sorted
pub mod Proper
pub mod Order
pub mod Generated
use mathlib.Core.Option
use mathlib.Core.List.{map}
use m_awsexp.Common.{
  ℕ, Str, Bool, ends_with, ◌∷◌, List, Option, replace, str_eq, ◌++◌, if◌then◌else◌, some, [], none,
  suc, ◌==◌, str_lt, true, not, false, zero, ◌&&◌,
}
use m_awsexp.S3.FileStat.{Operation, delete, FileStat}
use m_awsexp.S3.DateTime.{DateTime}
use m_awsexp.S3.Path.{find_bucket_key, find_dest_path_comp_key, Files}

-- A name that os.listdir gives; an undecodable one stays a byte string.
pub record Entry : Type 0 where
  pub name : Str
  pub decoded : Bool

-- What the generator asks of `os` and of the two tests on files of utils.py that call it.
pub record Disk : Type 0 where
  pub sep : ℕ
  pub join : Str → Str → Str
  pub isdir : Str → Bool
  pub islink : Str → Bool
  pub exists : Str → Bool
  pub is_special_file : Str → Bool
  pub is_readable : Str → Bool
  pub listdir : Str → List Entry
  pub get_file_stat : Str → ℕ × DateTime

pub data Warning : Type 0 where
  decoding_error does_not_exist special_file not_readable : Warning

-- What a generator does, in its order: it puts a warning into the result queue, or yields a file.
pub data Event : Type 0 where
  warned : Str → Warning → Event
  found : Str → ℕ → DateTime → Event

module _ (disk : Disk) (follow_symlinks : Bool) where
  -- triggers_warning, by the warning it queues
  unfoldable pub triggers_warning : Str → Option Warning
  triggers_warning path =
      if not (disk.exists path)
      then some does_not_exist
      else if disk.is_special_file path
      then some special_file
      else if not (disk.is_readable path)
      then some not_readable
      else none

  -- path[:-1]
  but_last : Str → Str
  but_last [] = []
  but_last (c ∷ []) = []
  but_last (c ∷ d ∷ s) = c ∷ but_last (d ∷ s)

  -- should_ignore_file: whether, and the warnings
  unfoldable pub should_ignore_file : Str → Bool × List Event
  unfolding but_last ends_with triggers_warning
  should_ignore_file path =
      let stripped =
        if not follow_symlinks && (disk.isdir path && ends_with path disk.sep)
        then but_last path
        else path in
      if not follow_symlinks && disk.islink stripped
      then (true, [])
      else elim (triggers_warning stripped) [
        | none ↦ (false, [])
        | some w ↦ (true, warned stripped w ∷ [])
      ]

  -- should_ignore_file_with_decoding_warnings
  unfoldable pub should_ignore_entry : Str → Entry → Bool × List Event
  unfolding should_ignore_file
  should_ignore_entry dirname e =
      if e.decoded
      then should_ignore_file (disk.join dirname e.name)
      else (true, warned e.name decoding_error ∷ [])

  -- The separator that a directory's name gets before the sort.
  abbrev pub decorate : Bool → Str → Str
  decorate true name = name ++ (disk.sep ∷ [])
  decorate false name = name

  -- The first loop of list_files: the names that are not ignored, and the warnings.
  unfoldable pub visible : Str → List Entry → List Str × List Event
  unfolding should_ignore_entry
  visible path [] = ([], [])
  visible path (e ∷ es) =
      let (names, warnings) = visible path es in
      let (ignored, ws) = should_ignore_entry path e in
      (
        if ignored then names else decorate (disk.isdir (disk.join path e.name)) e.name ∷ names,
        ws ++ warnings,
      )

  -- the key of normalize_sort
  abbrev pub normal : Str → Str
  normal name = replace name disk.sep b'/'

  insert_name : Str → List Str → List Str
  insert_name n [] = n ∷ []
  insert_name n (m ∷ ms) =
      let rest = insert_name n ms in if str_lt (normal m) (normal n) then m ∷ rest else n ∷ m ∷ ms

  -- normalize_sort; names with equal keys keep their order
  unfoldable pub normalize_sort : List Str → List Str
  unfolding insert_name
  normalize_sort [] = []
  normalize_sort (n ∷ ns) = insert_name n (normalize_sort ns)

  abbrev pub file : Str → Event
  file path = found path (disk.get_file_stat path).0 (disk.get_file_stat path).1

  -- The second loop of list_files, whose own calls are `list`.
  unfoldable pub walk : (Str → Option (List Event)) → Str → List Str → Option (List Event)
  walk list path [] = some []
  walk list path (name ∷ names) =
      let file_path = disk.join path name in
      let rest = walk list path names in
      let here = if disk.isdir file_path then list file_path else some (file file_path ∷ []) in
      elim here [ none ↦ none | some xs ↦ Option.map (λ ys. xs ++ ys) rest ]

  -- list_files; `none` means that the fuel, which bounds the depth, ran out
  unfoldable pub list_files : ℕ → Bool → Str → Option (List Event)
  unfolding should_ignore_file visible normalize_sort walk
  list_files zero dir_op path = none
  list_files (suc depth) dir_op path =
      let (ignored, ws) = should_ignore_file path in
      if ignored
      then some ws
      else if not dir_op
      then some (ws ++ (file path ∷ []))
      else let (names, warnings) = visible path (disk.listdir path) in
        Option.map (λ ys. ws ++ (warnings ++ ys))
          (walk (list_files depth true) path (normalize_sort names))

-- What the lister gives for a key: path, size, time.
abbrev pub Listed : Type 0
Listed = Str × ℕ × DateTime

-- list_objects: the test on one key of a listing
unfoldable pub is_yielded : Operation → Bool → Str → Listed → Bool
unfolding ends_with str_eq
is_yielded operation dir_op s3_path (source_path, size, last_update) =
    if size == 0 && ends_with source_path b'/'
    then elim operation [ delete ↦ true | _ ↦ false ]
    else not (not dir_op && not (str_eq s3_path source_path))

-- The loop of list_objects over the listing.
unfoldable pub select_objects : Operation → Bool → Str → List Listed → List Listed
unfolding is_yielded
select_objects operation dir_op s3_path [] = []
select_objects operation dir_op s3_path (x ∷ xs) =
    let rest = select_objects operation dir_op s3_path xs in
    if is_yielded operation dir_op s3_path x then x ∷ rest else rest

module _ (os_sep : ℕ) (files : Files) (operation : Operation) where
  -- The FileStat of a file that was listed.
  abbrev pub file_stat : Str → ℕ → DateTime → FileStat
  file_stat src_path size last_update =
      let (dest_path, compare_key) = find_dest_path_comp_key os_sep files src_path in
      record {
        src = src_path;
        dest = dest_path;
        compare_key = compare_key;
        size = size;
        last_update = last_update;
        src_type = files.src.location;
        dest_type = files.dest.location;
        operation_name = operation;
      }

  -- The loop of call.
  unfoldable pub yield_files : List Event → List FileStat
  unfolding find_dest_path_comp_key
  yield_files [] = []
  yield_files (warned path w ∷ es) = yield_files es
  yield_files (found path size time ∷ es) = file_stat path size time ∷ yield_files es

-- call on a local source
unfoldable pub call_local : Disk → Bool → Operation → ℕ → Files → Option (List FileStat)
unfolding yield_files list_files
call_local disk follow_symlinks operation depth files =
    Option.map (yield_files disk.sep files operation)
      (list_files disk follow_symlinks depth files.dir_op files.src.path)

-- list_objects, with what the service knows of one object, `none` being an error, and its listing
-- of the prefix
unfoldable pub list_objects :
    Operation → Bool → Str → Option (ℕ × DateTime) → List Listed → Option (List Listed)
unfolding select_objects find_bucket_key str_eq
list_objects operation dir_op s3_path head_object listing =
    if not dir_op && not (str_eq (find_bucket_key s3_path).1 [])
    then Option.map (λ (size, time). (s3_path, size, time) ∷ []) head_object
    else some (select_objects operation dir_op s3_path listing)

-- call on a bucket
unfoldable pub call_s3 :
    ℕ → Operation → Files → Option (ℕ × DateTime) → List Listed → Option (List FileStat)
unfolding list_objects find_dest_path_comp_key
call_s3 os_sep operation files head_object listing =
    Option.map (map (λ x. file_stat os_sep files operation x.0 x.1 x.2))
      (list_objects operation files.dir_op files.src.path head_object listing)
