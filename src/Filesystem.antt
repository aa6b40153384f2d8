-- ===== src/Filesystem.antt =====
-- The package server/filesystem: disk accounting of a server's files.
pub mod Disk
pub mod QuotaFile
pub mod Files
