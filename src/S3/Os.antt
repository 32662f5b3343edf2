-- ===== src/S3/Os.antt =====
-- What the S3 commands ask of `os`, `os.path` and `fnmatch`: the platform, as a parameter.
use m_awsexp.Common.{ℕ, Bool, Str}

pub record Os : Type 0 where
  pub sep : ℕ
  pub abspath : Str → Str
  pub dirname : Str → Str
  pub join : Str → Str → Str
  pub exists : Str → Bool
  pub isdir : Str → Bool
  -- fnmatch.fnmatch name pattern
  pub fnmatch : Str → Str → Bool
