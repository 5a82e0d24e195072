-- ===== src/Session.antt =====
-- src/audio_session.cpp: the control protocol between two devices, and the manager of the sessions.
pub mod Config
pub mod Message
pub mod State
pub mod Manager
pub mod Service
mod Tests
