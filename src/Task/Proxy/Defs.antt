-- ===== src/Task/Proxy/Defs.antt =====
-- Which proxy each worker uses, which were used with success, and which are cooling down. Times are
-- natural numbers of clock ticks.
use fuck_wjx.Common.{
  ℕ, ◌+◌, ◌-◌, Bool, false, not, ◌&&◌, ◌||◌, List, [], ◌∷◌, Option, none, some, if◌then◌else◌, ltb,
  leb, max,
}
use fuck_wjx.Common.Text.{Text, strip, is_empty, text_eq}
use fuck_wjx.Common.Dict.{lookup, insert, erase, text_key_eq}
use fuck_wjx.Common.Sets.{member, add}

pub record ProxyLease : Type 0 where
  pub address : Text
  pub expire_at : Text
  pub expire_ts : ℕ
  pub poolable : Bool
  pub source : Text

pub record Proxies : Type 0 where
  pub waiting_threads : ℕ
  pub in_use : List (Text × ProxyLease)
  pub successful : List Text
  pub cooldown_until : List (Text × ℕ)

abbrev pub empty : Proxies
empty = record { waiting_threads = 0; in_use = []; successful = []; cooldown_until = [] }

unfoldable pub register_waiter : Proxies → Proxies
register_waiter p = record p { waiting_threads = p.waiting_threads + 1 }

-- `max(0, n - 1)`
unfoldable pub unregister_waiter : Proxies → Proxies
unregister_waiter p = record p { waiting_threads = p.waiting_threads - 1 }

unfoldable pub mark_in_use_locked : Text → ProxyLease → Proxies → Proxies
unfolding strip insert
mark_in_use_locked thread_name lease p =
    let key = strip thread_name in
    if is_empty key then p else record p { in_use = insert key lease p.in_use }

-- The addresses whose cooldown has passed.
unfoldable pub expired_addresses : ℕ → List (Text × ℕ) → List Text
expired_addresses now [] = []
expired_addresses now ((address, until) ∷ rest) =
    let others = expired_addresses now rest in if leb until now then address ∷ others else others

unfoldable pub erase_all : List Text → List (Text × ℕ) → List (Text × ℕ)
unfolding erase
erase_all [] d = d
erase_all (address ∷ rest) d = erase_all rest (erase address d)

-- `_purge_expired_proxy_cooldowns_locked`
unfoldable pub purge_expired : ℕ → Proxies → Proxies
unfolding expired_addresses erase_all
purge_expired now p = record p {
  cooldown_until = erase_all (expired_addresses now p.cooldown_until) p.cooldown_until;
}

abbrev pub until_of : Option ℕ → ℕ
until_of none = 0
until_of (some t) = t

-- `_is_proxy_in_cooldown_locked`: the purge changes the state.
unfoldable pub is_in_cooldown_locked : Text → ℕ → Proxies → Proxies × Bool
unfolding strip purge_expired lookup
is_in_cooldown_locked address now p =
    let normalized = strip address in
    let purged = purge_expired now p in
    if is_empty normalized
    then (p, false)
    else (purged, ltb now (until_of (lookup normalized purged.cooldown_until)))

-- The locked part of `mark_proxy_in_cooldown`, for a stripped address and a positive time.
unfoldable pub mark_in_cooldown_locked : Text → ℕ → ℕ → Proxies → Proxies
unfolding lookup insert
mark_in_cooldown_locked normalized now seconds p = record p {
  cooldown_until =
      insert normalized (max (until_of (lookup normalized p.cooldown_until)) (now + seconds))
        p.cooldown_until;
}

-- The loop of `active_proxy_addresses_locked`.
unfoldable pub active_from : Text → List (Text × ProxyLease) → List Text → List Text
unfolding strip add
active_from excluded [] active = active
active_from excluded ((thread_name, lease) ∷ rest) active =
    let address = strip lease.address in
    let skip = not (is_empty excluded) && text_eq (strip thread_name) excluded in
    active_from excluded rest (if skip || is_empty address then active else add address active)

unfoldable pub active_addresses : Text → Proxies → List Text
unfolding active_from
active_addresses exclude_thread_name p = active_from (strip exclude_thread_name) p.in_use []

unfoldable pub stripped_set : List Text → List Text → List Text
unfolding strip add
stripped_set [] acc = acc
stripped_set (address ∷ rest) acc =
    let stripped = strip address in
    stripped_set rest (if is_empty stripped then acc else add stripped acc)

unfoldable pub successful_addresses : Proxies → List Text
unfolding stripped_set
successful_addresses p = stripped_set p.successful []

-- `blocked.update(successful)`
unfoldable pub add_all : List Text → List Text → List Text
unfolding add
add_all [] acc = acc
add_all (a ∷ rest) acc = add_all rest (add a acc)

unfoldable pub blocked_addresses : Text → Proxies → List Text
unfolding active_addresses successful_addresses add_all
blocked_addresses exclude_thread_name p =
    add_all (successful_addresses p) (active_addresses exclude_thread_name p)

unfoldable pub is_address_in_use : Text → Text → Proxies → Bool
unfolding strip active_addresses member
is_address_in_use address exclude_thread_name p =
    let normalized = strip address in
    if is_empty normalized
    then false
    else member normalized (active_addresses exclude_thread_name p)

-- The flag says whether the address was new.
unfoldable pub mark_successful_locked : Text → Proxies → Proxies × Bool
unfolding strip add member
mark_successful_locked address p =
    let normalized = strip address in
    if is_empty normalized then (p, false) else (
      record p { successful = add normalized p.successful },
      not (member normalized p.successful),
    )

unfoldable pub is_successful : Text → Proxies → Bool
unfolding strip successful_addresses member
is_successful address p =
    let normalized = strip address in
    if is_empty normalized then false else member normalized (successful_addresses p)

unfoldable pub release_in_use_locked : Text → Proxies → Proxies × Option ProxyLease
unfolding strip lookup erase
release_in_use_locked thread_name p =
    let key = strip thread_name in
    if is_empty key
    then (p, none)
    else (record p { in_use = erase key p.in_use }, lookup key p.in_use)
