-- ===== src/Auth.antt =====
-- src/auth and src/common/admin.util.ts, src/common/guards: identities, sessions, guards.
pub mod Jwt
pub mod Kakao
pub mod Session
pub mod Login
pub mod Guards
pub mod Me
