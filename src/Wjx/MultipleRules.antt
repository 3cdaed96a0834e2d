-- ===== src/Wjx/MultipleRules.antt =====
-- wjx/provider/questions/multiple_rules.py
mod Defs
pub mod Bounds
mod Tests
unfoldable pub use Defs.{normalize_selected_indices, resolve_rule_sets, apply_rule_constraints}
