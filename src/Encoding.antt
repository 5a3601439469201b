-- ===== src/Encoding.antt =====
-- How the server of backend-cpp encodes what it stores: base64 and passwords.
pub mod Base64
pub mod Sha256
pub mod Password
