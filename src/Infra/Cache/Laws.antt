-- ===== src/Infra/Cache/Laws.antt =====
-- What the cache (pkg/infra/cache/cache.go) gives back, and how large it grows.
use ai_inference_managed_by.Base.{
  ℕ, suc, ◌≤◌, ◌<◌, ◌≡◌, refl, ◌∙◌, String, ◌==◌, eq_iff, eq_refl, true, false, ◌&&◌, ◌||◌, [], ◌∷◌,
  Option, none, some, inl, inr, if◌then◌else◌, length, elem, Nodup, All, Bool-cases, arith,
}
use ai_inference_managed_by.Base.Int.{ℤ, is_nonpos, pos_part}
use ai_inference_managed_by.Base.Map.{
  Map, lookup, insert, keys, lookup-insert_self, length-insert, length-delete, elem-keys,
}
use ai_inference_managed_by.Infra.Cache.{
  CacheItem, Cache, get, set, oldest, size, made_room, expiration_of, has_expired, is_live,
  is_older,
}

module _ {ℓ} {V : Type ℓ} where
  lookup-set :
      (now : ℕ) (key : String) (v : V) (ttl : ℤ) (c : Cache V)
      → lookup key (set now key v ttl c).items
        ≡ some (record { value = v; expiration = expiration_of now ttl c.opts })
  unfolding set
  lookup-set now key v ttl c = lookup-insert_self key _ _

  -- Whatever the cache held, and whether or not an item was evicted, an item that is set is read back
  -- until its time to live has passed, and never after.
  pub get-set :
      (now later : ℕ) (key : String) (v : V) (ttl : ℤ) (c : Cache V)
      → (get later key (set now key v ttl c)).0
        ≡ (if has_expired later (expiration_of now ttl c.opts) then none else some v)
  unfolding get
  get-set now later key v ttl c = ground (arith, lookup-set now key v ttl c)

  -- oldest gives one of the keys, or the one it started from.
  oldest-elem :
      (now : ℕ) (items : Map (CacheItem V)) (start_key : String) (best : Option ℕ)
      → (start_key == oldest now items start_key best
          || elem (keys items) (oldest now items start_key best))
        ≡ true
  unfolding oldest
  oldest-elem now [] start_key best = ground (arith, eq_refl start_key)
  oldest-elem now ((k, i) ∷ items) start_key best =
      elim (Bool-cases (is_live now i.expiration && is_older i.expiration best)) [
        | inl picked ↦ ground (arith, picked, oldest-elem now items k i.expiration)
        | inr passed ↦ ground (arith, passed, oldest-elem now items start_key best)
      ]

  -- Nothing is evicted when every item has expired.
  oldest-expired :
      (now : ℕ) (items : Map (CacheItem V))
      → All (λ e. is_live now e.1.expiration ≡ false) items
      → oldest now items "" none ≡ ""
  unfolding oldest
  oldest-expired now [] h = refl
  oldest-expired now ((k, i) ∷ items) h = ground (arith, h.0, oldest-expired now items h.1)

  oldest-live :
      (now : ℕ) (items : Map (CacheItem V))
      → All (λ e. is_live now e.1.expiration ≡ true) items
      → 0 < length items
      → elem (keys items) (oldest now items "" none) ≡ true
  unfolding oldest
  oldest-live now [] live h = absurd (omega arith)
  oldest-live now ((k, i) ∷ items) live h =
      ground (arith, live.0, oldest-elem now items k i.expiration)

  size-made_room :
      (now : ℕ) (c : Cache V)
      → is_nonpos c.opts.max_size ≡ false
      → Nodup (keys c.items)
      → elem (keys c.items) "" ≡ false
      → All (λ e. is_live now e.1.expiration ≡ true) c.items
      → size c ≤ pos_part c.opts.max_size
      → suc (size (made_room now c)) ≤ pos_part c.opts.max_size
  size-made_room now c m d ne live h = ground (
    arith,
    oldest-live now c.items live,
    elem-keys (oldest now c.items "" none) c.items,
    length-delete (oldest now c.items "" none) c.items d,
    eq_iff (oldest now c.items "" none) "",
  )

  size-insert :
      (k : String) (i : CacheItem V) (items : Map (CacheItem V))
      → length (insert k i items) ≤ suc (length items)
  size-insert k i items = ground (arith, length-insert k i items)

  -- In a cache that is bounded, whose keys are not empty and whose items are all live, set keeps the
  -- number of items within max_size.
  pub size-set_live :
      (now : ℕ) (key : String) (v : V) (ttl : ℤ) (c : Cache V)
      → is_nonpos c.opts.max_size ≡ false
      → Nodup (keys c.items)
      → elem (keys c.items) "" ≡ false
      → All (λ e. is_live now e.1.expiration ≡ true) c.items
      → size c ≤ pos_part c.opts.max_size
      → size (set now key v ttl c) ≤ pos_part c.opts.max_size
  unfolding set
  size-set_live now key v ttl c m d ne live h =
      omega (arith, size-insert key _ (made_room now c).items, size-made_room now c m d ne live h)

  made_room-expired :
      (now : ℕ) (c : Cache V)
      → All (λ e. is_live now e.1.expiration ≡ false) c.items
      → (made_room now c).items ≡ c.items
  made_room-expired now c dead =
      ground (arith, oldest-expired now c.items dead, eq_iff (oldest now c.items "" none) "")

  -- When every item has expired and the key is new, set adds an item and evicts none, whatever
  -- max_size is: the bound does not hold.
  pub size-set_expired :
      (now : ℕ) (key : String) (v : V) (ttl : ℤ) (c : Cache V)
      → All (λ e. is_live now e.1.expiration ≡ false) c.items
      → lookup key c.items ≡ none
      → size (set now key v ttl c) ≡ suc (size c)
  unfolding set
  size-set_expired now key v ttl c dead new =
      length-insert key _ (made_room now c).items
      ∙ ground (arith, made_room-expired now c dead, new)
