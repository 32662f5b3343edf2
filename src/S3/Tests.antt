-- ===== src/S3/Tests.antt =====
-- Runs of the model of awscli/customizations/s3, and examples of the theorems' use.
mod Sync
mod Transfer
mod Listing
mod Uploads
mod Downloads
mod Printing
mod Commands
mod Wholes
mod Configs
use m_awsexp.Common.{ℕ, Str, ◌++◌, ◌∷◌, codes, false, str_eq}
use m_awsexp.S3.Os.{Os}
use m_awsexp.S3.FileStat.{Operation, FileStat, local, s3}

abbrev pub file : Str → ℕ → ℕ → Operation → FileStat
file key size time operation = record {
  src = codes "src/" ++ key;
  dest = codes "bucket/" ++ key;
  compare_key = key;
  size = size;
  last_update = time;
  src_type = local;
  dest_type = s3;
  operation_name = operation;
}

-- A POSIX system on which no file exists, and a pattern matches only itself.
abbrev pub posix : Os
posix = record {
  sep = b'/';
  abspath = λ p. p;
  dirname = λ p. p;
  join = λ p n. p ++ (b'/' ∷ n);
  exists = λ p. false;
  isdir = λ p. false;
  fnmatch = str_eq;
}
