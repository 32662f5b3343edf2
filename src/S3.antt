-- ===== src/S3.antt =====
-- awscli/customizations/s3: the transfer commands.
pub mod Os
pub mod DateTime
pub mod FileStat
pub mod Strategy
pub mod Comparator
pub mod Path
pub mod FileFormat
pub mod Filter
pub mod FileGenerator
pub mod Chunks
pub mod ReadFileChunk
pub mod PriorityQueue
pub mod UploadContext
pub mod DownloadContext
pub mod UploadSystem
pub mod Handler
pub mod BasicTask
pub mod DownloadPart
pub mod PrintThread
pub mod Command
pub mod Run
pub mod TransferConfig
mod Tests
