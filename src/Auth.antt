-- ===== src/Auth.antt =====
-- Authentication: app/core/auth/security.py, app/core/auth/jwt_service.py and
-- app/core/services/auth_state_service.py.
mod Services
mod Tests
pub mod Redis
pub mod Security
pub mod Passwords
pub mod AuthState
pub mod Jwt
