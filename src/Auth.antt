-- ===== src/Auth.antt =====
-- backend/app/auth, and the sign-in endpoints of backend/app/api/v1/auth.py
pub mod Permissions
pub mod Jwt
pub mod Session
pub mod MagicLink
pub mod Oauth
pub mod Password
pub mod Bootstrap
