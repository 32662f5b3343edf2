-- ===== src/Configure.antt =====
-- awscli/customizations/configure.py: the writer of configuration files and the target of
-- `aws configure set`.
pub mod Line
pub mod Writer
pub mod Set
mod Tests
use m_awsexp.Common.{ℕ}
