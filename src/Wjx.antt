-- ===== src/Wjx.antt =====
-- The WJX survey provider, wjx/provider/.
pub mod MultipleRules
