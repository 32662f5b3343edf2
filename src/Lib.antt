-- ===== src/Lib.antt =====
-- The S3 transfer commands of the AWS command line interface (`aws s3 cp`, `mv`, `rm`, `sync`), as
-- they stand in awscli/customizations/s3; the writer of configuration files behind
-- `aws configure set`, in awscli/customizations/configure.py; the translation of pipeline
-- definitions in awscli/customizations/datapipeline/translator.py; the values of arguments and their
-- shorthand syntax, in awscli/argprocess.py; and the tables in which responses are shown, in
-- awscli/table.py and awscli/formatter.py.
--
-- A command checks and formats its two paths, lists the files of each side, drops those that a rule
-- excludes, compares the two listings if it is `sync`, and gives what is left to a handler. The
-- handler makes tasks of the files, one for a small file and several for the parts of a large one,
-- and puts them into a priority queue from which threads take them. The tasks of one large file
-- share a context by which they wait for each other.
--
-- Common: text as a list of code points, dictionaries as lists of items, the list functions and
--   integers over the native numbers, and the Boolean tests.
-- S3/Os, S3/DateTime, S3/FileStat: what the commands ask of the operating system, times and their
--   differences, and `FileStat` of filegenerator.py.
-- S3/FileFormat: `FileFormat` of fileformat.py. S3/Path: `find_bucket_key`, `split_s3_bucket_key`
--   and `find_dest_path_comp_key` of utils.py.
-- S3/FileGenerator: `FileGenerator` of filegenerator.py. The disk is a parameter. Names is about the
--   texts of names, Sorted about the sort, Proper about the names of one directory, Order about
--   the whole walk, and Generated joins it to the comparator.
-- S3/Filter: filters.py, and `AppendFilter` of utils.py.
-- S3/Strategy: the classes of syncstrategy, and `choose_sync_strategies` of subcommands.py.
-- S3/Comparator: `Comparator` of comparator.py. Its state is that of the loop: what is left of each
--   listing, the file at hand, and the flags. Merge and Join are two independent descriptions.
-- S3/Handler: `S3Handler` of s3handler.py: the tasks it submits, and what it cleans up. A context
--   is named by its position in the handler's lists. An exception is a value.
-- S3/BasicTask: `BasicTask` and `print_operation` of tasks.py.
-- S3/Chunks: `find_chunksize` of utils.py, and the ranges of the part tasks of tasks.py.
-- S3/DownloadPart: the write requests of the part tasks of tasks.py, and `IOWriterThread` of
--   executor.py that serves them; Writes is about one part, Whole about all of them.
-- S3/ReadFileChunk: the class of that name of utils.py.
-- S3/PrintThread: `PrintThread` of executor.py.
-- S3/PriorityQueue: `StablePriorityQueue` of utils.py.
-- S3/UploadContext, S3/DownloadContext: the contexts of tasks.py. Each method is one step under the
--   lock; a method that waits is one turn of its loop.
-- S3/UploadSystem: the tasks of a multipart upload over one context as a step relation, in any
--   interleaving. Complete is about every state that can be reached.
-- S3/Command: `CommandParameters` of subcommands.py, and the tables of `CommandArchitecture` by which
--   a command finds its operation and its instructions. Accepted is about the commands that pass the
--   checks, Moves about the moves within S3.
-- S3/Run: `CommandArchitecture.run` of subcommands.py with `FileInfoBuilder` of fileinfobuilder.py:
--   the components, the loop that calls them in turn, and the exit status. A generator is the list
--   that it yields, and one that raises is marked as failed. Listing and Sync lead to Whole, which
--   is about a whole `sync`; Pipeline is about all commands.
-- S3/TransferConfig: `RuntimeConfig` of transferconfig.py with `human_readable_to_bytes` of utils.py.
-- S3/Tests: runs and examples.
-- Configure/Line: the regular expressions of configure.py, on one line. Configure/Writer:
--   `ConfigFileWriter` on the lines of a file and on its text, with the exceptions as values. The
--   loops go through the lines to come, beside the index and the whole list that they change.
--   Loop, Body and Subs are about the loops, Text and Names about the text that is written,
--   Scalars, Nested and Twice about updates. Configure/Set: `_run_main` of `ConfigureSetCommand`.
-- Datapipeline/Translator and Parameters: translator.py, for values that are strings, references and
--   lists of these; Parameters has the parameter objects, and TextOnly is about them. Dictionary is
--   about a dictionary that is taken apart into fields and put together again.
-- Argprocess/Commas: `split_on_commas` of awscli/utils.py, with the reader of Python's csv module as a
--   machine of six states. `_eat_items` is a mode of the loop over the parts. Fields and Positions
--   lead to Ends. Argprocess/Shapes: the models of arguments as trees, `_detect_shape_structure` and
--   `unpack_scalar_cli_arg`. Argprocess/Shorthand: `ParamShorthand`, a function for each method, with
--   exceptions as values; Unpack has `__call__` and `unpack_cli_arg`. Methods, Pairs and Lists lead to
--   Typed; RoundTrip is about pairs that are written out.
-- Table/Cells: `center_text` and `align_left` of table.py. Table/Section: `Section` with its columns,
--   and the sections that `MultiTable` keeps; Covers and Passes lead to Widths, and Columns is about
--   what a section holds. Table/Render: what `MultiTable.render` writes, line by line.
--   Table/Formatter: `TableFormatter` of formatter.py; Steps, Rows and Regular are about the sections
--   that it makes of a response.
--
-- Bounds. The comparator's loop has one unit of fuel for each file and one more;
-- `find_chunksize` has one for each byte and one more, and so has the loop that reads a body;
-- `list_files` has one for each level of directories, so its fuel is the depth of the tree. The
-- source computes the number of parts with doubles, the model with exact integers, which agree
-- below 2^52 bytes. The loop that settles the widths of columns has one unit for each character that
-- they are off by, and splitting on commas has one for each character and one more, for the lists
-- in lists. The scaling of a column by a float is a parameter, assumed to be a nearest whole number.
--
-- Not modelled: requests to the service and their paging, the threads of executor.py but for the
-- print thread and what the writer does to a file, `call` of the two handlers, which a run takes as
-- parameters that may not return, the parsing of the command line into arguments, json.loads, the
-- examples that argprocess.py writes for the documentation, the text and JSON output, the reading
-- and the prompts of `configure`, and the service commands. A file above 5 TB ends the handler by an
-- exception, and the enqueueing says so: the source calls `create_warning` by a keyword that it does
-- not have.
mod Common
pub mod S3
pub mod Configure
pub mod Datapipeline
pub mod Table
pub mod Argprocess
