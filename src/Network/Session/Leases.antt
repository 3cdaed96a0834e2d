-- ===== src/Network/Session/Leases.antt =====
-- Leases: software/network/proxy/pool/pool.py. `expire_of` stands for the parser of the expiry
-- text, which the source takes from `datetime`; 0 is a lease without an expiry.
use fuck_wjx.Common.{
  ℕ, ◌+◌, Bool, true, false, ◌&&◌, ◌||◌, not, [], ◌∷◌, ◌++◌, Option, none, some, if◌then◌else◌,
  ◌==◌, leb,
}
use fuck_wjx.Common.Text.{Text, codes, strip, is_empty, or_else}
use fuck_wjx.Task.Proxy.{ProxyLease}

abbrev starts_with : Text → Text → Bool
starts_with [] s = true
starts_with (c ∷ p) [] = false
starts_with (c ∷ p) (d ∷ s) = c == d && starts_with p s

-- `p in s`
unfoldable contains : Text → Text → Bool
contains p [] = starts_with p []
contains p (c ∷ s) = starts_with p (c ∷ s) || contains p s

unfoldable pub normalize_address : Text → Option Text
unfolding strip contains
normalize_address address =
    let normalized = strip address in
    if is_empty normalized
    then none
    else if contains (codes "://") normalized
    then some normalized
    else some (codes "http://" ++ normalized)

-- A lease with its address normalized, or none without an address.
unfoldable pub coerce_lease : ProxyLease → Option ProxyLease
unfolding normalize_address
coerce_lease lease = elim (normalize_address lease.address) [
  | none ↦ none
  | some normalized ↦ some (record lease { address = normalized })
]

unfoldable pub build_lease : (Text → ℕ) → Text → Text → Bool → Text → Option ProxyLease
unfolding normalize_address strip
build_lease expire_of address expire_at poolable source = elim (normalize_address address) [
  | none ↦ none
  | some normalized ↦ some (record {
    address = normalized;
    expire_at = strip expire_at;
    expire_ts = expire_of (strip expire_at);
    poolable = poolable;
    source = strip source;
  })
]

-- A `dict` with the keys that the code reads; an empty text is a missing key.
pub record Entry : Type 0 where
  pub address : Text
  pub proxy : Text
  pub host : Text
  pub port : Text
  pub expire_at : Text
  pub poolable : Bool
  pub source : Text

-- What a fetch may return.
pub data Item : Type 0 where
  lease : ProxyLease → Item
  address : Text → Item
  entry : Entry → Item
  other : Item

-- `item.get("address") or item.get("proxy") or item.get("host")`, with the port where there is none.
unfoldable pub entry_address : Entry → Text
unfolding contains
entry_address e =
    let a = or_else (or_else e.address e.proxy) e.host in
    if not (is_empty a) && not (is_empty e.port) && not (contains (codes ":") a)
    then a ++ codes ":" ++ e.port
    else a

-- The sources that the pool gives no default `source`.
unfoldable pub coerce_item : (Text → ℕ) → Item → Option ProxyLease
unfolding coerce_lease build_lease entry_address
coerce_item expire_of (lease l) = coerce_lease l
coerce_item expire_of (address a) = build_lease expire_of a [] true []
coerce_item expire_of (entry e) =
    build_lease expire_of (entry_address e) e.expire_at e.poolable e.source
coerce_item expire_of other = none

-- `expire_ts - now >= required`; a lease without an expiry always has time.
unfoldable pub has_sufficient_ttl : ℕ → ℕ → ProxyLease → Bool
has_sufficient_ttl now required l = l.expire_ts == 0 || leb (now + required) l.expire_ts
