-- ===== src/Session.antt =====
-- What a session and a conversation keep of the tokens that they generate: src/inference/session.cpp and
-- src/inference/executor.cpp.
pub mod Penalty
pub mod Stops
pub mod Stream
