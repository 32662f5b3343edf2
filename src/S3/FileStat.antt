-- ===== src/S3/FileStat.antt =====
-- `FileStat` of awscli/customizations/s3/filegenerator.py: what the generators yield.
use m_awsexp.Common.{ℕ}
use m_awsexp.Common.{Str}
use m_awsexp.S3.DateTime.{DateTime}

pub data Location : Type 0 where
  s3 local : Location

-- The names under which the commands know their operations. `unnamed` is the empty name, which the
-- reversed generator of `sync` gives its files.
pub data Operation : Type 0 where
  upload download copy move delete make_bucket remove_bucket list_objects unnamed : Operation

pub record FileStat : Type 0 where
  pub src : Str
  pub dest : Str
  pub compare_key : Str
  pub size : ℕ
  pub last_update : DateTime
  pub src_type : Location
  pub dest_type : Location
  pub operation_name : Operation
