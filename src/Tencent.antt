-- ===== src/Tencent.antt =====
-- The Tencent survey provider, tencent/provider/.
pub mod Rules
