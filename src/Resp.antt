-- ===== src/Resp.antt =====
-- src/resp.cpp and include/resp.h.
pub mod Replies
pub mod Parser
