-- ===== src/Tencent/Rules.antt =====
-- tencent/provider/answering_rules.py: the selection of a multiple-choice question is brought
-- within the question's limits and the consistency rules.
mod Normal
mod Steps
mod StepLaws
mod FillLaws
pub mod Limits
mod Tests
pub use Normal.{normalize_selected_indices}
pub use Steps.{apply_multiple_constraints}
