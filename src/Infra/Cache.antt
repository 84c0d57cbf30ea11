-- ===== src/Infra/Cache.antt =====
-- The in-memory cache of pkg/infra/cache/cache.go. Time is a number of nanoseconds, which each method
-- that reads the clock takes as an argument; Go's zero time is `none`. The mutex makes each method one
-- step.
pub mod Laws
use ai_inference_managed_by.Base.Map.{insert, lookup, Map, delete}
use ai_inference_managed_by.Base.Int.{pos_part, is_nonpos, is_zero, pos, ℤ}
use ai_inference_managed_by.Base.{
  ◌+◌, leb, ◌==◌, ltb, ◌&&◌, true, some, not, false, ◌∷◌, none, length, if◌then◌else◌, Bool, ℕ, map,
  [], Option, List, String,
}

pub record CacheItem {ℓ} (V : Type ℓ) : Type ℓ where
  pub value : V
  pub expiration : Option ℕ

pub record CacheOptions : Type 0 where
  pub default_ttl : ℤ
  pub max_size : ℤ

pub record Cache {ℓ} (V : Type ℓ) : Type ℓ where
  pub items : Map (CacheItem V)
  pub opts : CacheOptions

abbrev pub with_ttl : ℤ → CacheOptions → CacheOptions
with_ttl ttl o = record o { default_ttl = ttl }

abbrev pub with_max_size : ℤ → CacheOptions → CacheOptions
with_max_size n o = record o { max_size = n }

-- New, its options applied in their order.
abbrev pub apply_options : List (CacheOptions → CacheOptions) → CacheOptions → CacheOptions
apply_options [] o = o
apply_options (opt ∷ opts) o = apply_options opts (opt o)

-- time.Now().After(item.expiration), for an expiration that is set
abbrev pub has_expired : ℕ → Option ℕ → Bool
has_expired now none = false
has_expired now (some t) = ltb t now

-- The guard of evictOldest: the item never expires, or expires after now.
abbrev pub is_live : ℕ → Option ℕ → Bool
is_live now none = true
is_live now (some t) = ltb now t

-- oldestTime.IsZero() || item.expiration.Before(oldestTime)
abbrev pub is_older : Option ℕ → Option ℕ → Bool
is_older t none = true
is_older none (some best) = true
is_older (some t) (some best) = ltb t best

-- When the item that is set at `now` expires.
abbrev pub expiration_of : ℕ → ℤ → CacheOptions → Option ℕ
expiration_of now ttl o =
    let ttl' = if is_zero ttl then o.default_ttl else ttl in
    if is_nonpos ttl' then none else some (now + pos_part ttl')

module _ {ℓ} {V : Type ℓ} where
  abbrev pub new_cache : List (CacheOptions → CacheOptions) → Cache V
  new_cache opts = record {
    items = [];
    opts = apply_options opts (record { default_ttl = pos 0; max_size = pos 0 });
  }

  unfoldable pub get : ℕ → String → Cache V → Option V × Cache V
  get now key c = elim (lookup key c.items) [
    | none ↦ (none, c)
    | some item ↦
        if has_expired now item.expiration
        then (none, record c { items = delete key c.items })
        else (some item.value, c)
  ]

  -- The loop of evictOldest, with oldestKey and oldestTime.
  unfoldable pub oldest : ℕ → Map (CacheItem V) → String → Option ℕ → String
  oldest now [] best_key best = best_key
  oldest now ((key, item) ∷ items) best_key best =
      if is_live now item.expiration && is_older item.expiration best
      then oldest now items key item.expiration
      else oldest now items best_key best

  abbrev pub evict_oldest : ℕ → Cache V → Cache V
  evict_oldest now c =
      let key = oldest now c.items "" none in
      if not (key == "") then record c { items = delete key c.items } else c

  -- set evicts an item when the cache is full.
  abbrev pub made_room : ℕ → Cache V → Cache V
  made_room now c =
      if not (is_nonpos c.opts.max_size) && leb (pos_part c.opts.max_size) (length c.items)
      then evict_oldest now c
      else c

  unfoldable pub set : ℕ → String → V → ℤ → Cache V → Cache V
  set now key value ttl c =
      let c' = made_room now c in
      let item : CacheItem V = record {
        value = value;
        expiration = expiration_of now ttl c.opts;
      } in
      record c' { items = insert key item c'.items }

  unfoldable pub remove : String → Cache V → Cache V
  remove key c = record c { items = delete key c.items }

  unfoldable pub clear : Cache V → Cache V
  clear c = record c { items = [] }

  abbrev pub size : Cache V → ℕ
  size c = length c.items
