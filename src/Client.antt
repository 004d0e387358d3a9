-- ===== src/Client.antt =====
-- app/ubki_client.py: the envelope, the reading of a response, the session.
pub mod Envelope
pub mod UploadResult
pub mod Body
pub mod Interpret
pub mod Verdict
pub mod Session
