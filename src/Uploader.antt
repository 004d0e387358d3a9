-- ===== src/Uploader.antt =====
-- app/uploader.py: one upload pass.
pub mod SessionCache
pub mod Summary
pub mod Folder
pub mod Archive
pub mod Alert
pub mod Wave
pub mod Send
pub mod Pass
