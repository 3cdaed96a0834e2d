-- ===== src/Wjx/MultipleRules/Tests.antt =====
-- Three options, the last required and the first blocked.
use fuck_wjx.Common.{ℕ, ◌≤◌, ◌≡◌, true, false, ◌&&◌, List, [], ◌∷◌, pos, leb, length}
use fuck_wjx.Common.Member.{elem, distinct}
use fuck_wjx.Wjx.MultipleRules.Defs.{apply_rule_constraints}
use fuck_wjx.Wjx.MultipleRules.Bounds.{constraints-shape}

-- A shuffle that leaves the order.
abbrev unshuffled : List ℕ → List ℕ
unshuffled xs = xs

abbrev result : List ℕ
result =
    apply_rule_constraints unshuffled unshuffled (pos 0 ∷ pos 1 ∷ []) 3 1 2 (pos 2 ∷ []) (0 ∷ []) []

constraints-shape_example :
    (distinct result ≡ true) × ((elem 2 result && leb 3 2) ≡ false) × (length result ≤ 2)
constraints-shape_example =
    constraints-shape unshuffled unshuffled (pos 0 ∷ pos 1 ∷ []) 3 1 2 (pos 2 ∷ []) (0 ∷ []) [] 2
