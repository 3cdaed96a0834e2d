-- ===== src/Task/Proxy/Tests.antt =====
-- One address that cools down.
use fuck_wjx.Common.{◌+◌, ◌≡◌, refl, true, ◌||◌, [], ◌∷◌, none, if◌then◌else◌, ltb}
use fuck_wjx.Common.Text.{Text, codes, strip}
use fuck_wjx.Common.Dict.{has, lookup, unique, text_key_eq}
use fuck_wjx.Task.Proxy.Defs.{
  Proxies, empty, until_of, is_in_cooldown_locked, mark_in_cooldown_locked,
}
use fuck_wjx.Task.Proxy.Cooldown.{
  passed, is_in_cooldown-exact, mark-in_cooldown, blocked-exact, holds, listed,
}
use fuck_wjx.Task.Proxy.Defs.{ProxyLease, blocked_addresses}
use fuck_wjx.Common.Sets.{member}

abbrev address : Text
address = codes "http://1.2.3.4:80"

abbrev cooling : Proxies
cooling = record empty { cooldown_until = (address, 180) ∷ [] }

abbrev lease : ProxyLease
lease = record {
  address = address;
  expire_at = [];
  expire_ts = 900;
  poolable = true;
  source = codes "custom";
}

abbrev busy : Proxies
busy = record empty { in_use = (codes "Slot-1", lease) ∷ [] }

is_in_cooldown-exact_example :
    ((is_in_cooldown_locked address 100 cooling).1
      ≡ ltb 100 (until_of (lookup (strip address) cooling.cooldown_until)))
    × (lookup address (is_in_cooldown_locked address 100 cooling).0.cooldown_until ≡ (
        if passed 100 (lookup address cooling.cooldown_until)
        then none
        else lookup address cooling.cooldown_until))
unfolding unique strip has
is_in_cooldown-exact_example = is_in_cooldown-exact address address 100 cooling refl refl

mark-in_cooldown_example :
    (is_in_cooldown_locked address 250 (mark_in_cooldown_locked (strip address) 90 180 cooling)).1
    ≡ (ltb 250 (90 + 180) || ltb 250 (until_of (lookup (strip address) cooling.cooldown_until)))
unfolding unique strip has
mark-in_cooldown_example = mark-in_cooldown address 90 180 250 cooling refl refl

blocked-exact_example :
    member address (blocked_addresses [] busy)
    ≡ (holds (strip []) address busy.in_use || listed address busy.successful)
blocked-exact_example = blocked-exact [] address busy
