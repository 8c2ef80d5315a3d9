-- ===== src/Peer.antt =====
-- src/peer.ts: what the WebRTC peer computes. The connection itself (`@roamhq/wrtc`), its timers
-- and the synthetic media are not modelled.
pub mod Lines
pub mod Sdp
pub mod Stats
pub mod Tones
mod Tests
