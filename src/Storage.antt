-- ===== src/Storage.antt =====
-- src/storage.cpp: the durable store of the chain. The texts of its files, the records of the block
-- file and the store itself are the children.
pub mod Lines
pub mod Texts
pub mod Records
pub mod Disk
pub mod Store
