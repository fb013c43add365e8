-- ===== src/Attachments.antt =====
-- Attachments: the names of uploaded files and of the stored ones (app/domain/attachments.py and
-- app/storage/attachments.py).
pub mod Names
pub mod Parts
pub mod Keys
pub mod BaseName
pub mod Accepted
pub mod Content
pub mod Signatures
