-- ===== src/Upload.antt =====
-- internal/handler/http/upload.go and upload_chunked.go: uploads in one request and in chunks.
pub mod Ranges
pub mod Store
pub mod Finalize
pub mod Init
pub mod Chunked
pub mod Single
