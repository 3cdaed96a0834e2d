-- ===== src/Network/Session/Cooling.antt =====
-- A check for a cooldown forgets only cooldowns that have passed, so a loop of checks sees the
-- cooldowns of its start.
use fuck_wjx.Common.{
  ℕ, ◌≡◌, refl, ◌∙◌, Bool, true, not, ◌&&◌, List, [], ◌∷◌, arith, ltb, inl, inr, Option-cases,
  Bool-cases,
}
use fuck_wjx.Common.Text.{Text, strip, is_empty}
use fuck_wjx.Common.Dict.{lookup, erase, unique, text_key_eq, unique-erase}
use fuck_wjx.Task.Proxy
use fuck_wjx.Task.Proxy.{Proxies, until_of, erase_all, expired_addresses}
use fuck_wjx.Task.Proxy.Cooldown.{purge-lookup, is_in_cooldown-exact}

-- The address cools down.
abbrev pub cools : ℕ → Text → Proxies → Bool
cools now a p = not (is_empty (strip a)) && ltb now (until_of (lookup (strip a) p.cooldown_until))

-- The same addresses cool down.
pub record Agree (now : ℕ) (p q : Proxies) : Type 0 where
  pub keys : unique q.cooldown_until ≡ true
  pub same : (a : Text) → cools now a q ≡ cools now a p

pub Agree-refl : (now : ℕ) (p : Proxies) → unique p.cooldown_until ≡ true → Agree now p p
Agree-refl now p u = record { keys = u; same = λ a. refl }

pub Agree-trans : (now : ℕ) (p q r : Proxies) → Agree now p q → Agree now q r → Agree now p r
Agree-trans now p q r g h = record { keys = h.keys; same = λ a. h.same a ∙ g.same a }

unique-erase_all :
    (bs : List Text) (d : List (Text × ℕ)) → unique d ≡ true → unique (erase_all bs d) ≡ true
unfolding erase_all
unique-erase_all [] d u = u
unique-erase_all (b ∷ bs) d u = unique-erase_all bs (erase b d) (unique-erase b d u)

pub purge-Agree :
    (now : ℕ) (p : Proxies)
    → unique p.cooldown_until ≡ true
    → Agree now p (Proxy.purge_expired now p)
purge-Agree now p u = record {
  keys =
      unfold Proxy.purge_expired in
      unique-erase_all (expired_addresses now p.cooldown_until) p.cooldown_until u;
  same = λ a. elim (Option-cases (lookup (strip a) p.cooldown_until)) [
    | inl e ↦ ground (arith, e, purge-lookup now (strip a) p u)
    | inr (t, e) ↦ ground (arith, e, purge-lookup now (strip a) p u)
  ];
}

pub check-Agree :
    (a : Text) (now : ℕ) (p : Proxies)
    → unique p.cooldown_until ≡ true
    → Agree now p (Proxy.is_in_cooldown_locked a now p).0
unfolding Proxy.is_in_cooldown_locked
check-Agree a now p u = elim (Bool-cases (is_empty (strip a))) [
  | inl e ↦ rw e (Agree-refl now p u)
  | inr e ↦ rw e (purge-Agree now p u)
]

pub check-cools :
    (a : Text) (now : ℕ) (p : Proxies)
    → unique p.cooldown_until ≡ true
    → (Proxy.is_in_cooldown_locked a now p).1 ≡ cools now a p
check-cools a now p u = elim (Bool-cases (is_empty (strip a))) [
  | inl e ↦ unfold Proxy.is_in_cooldown_locked in ground (arith, e)
  | inr e ↦ ground (arith, e, is_in_cooldown-exact a a now p u e)
]
