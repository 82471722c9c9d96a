-- ===== src/Search/Cache.antt =====
-- internal/search/cache.go: the cache of recent values. The list of entries has the most recently used
-- one first; the map from keys to its elements is the list of the keys that it has, each of which
-- leads to the element with that key. A time is a natural number.
pub mod Room
pub mod Lookup
use eika.Common.{
  ℕ, zero, suc, ◌+◌, Bool, true, false, not, String, str_eq, Option, none, some, List, [], ◌∷◌,
  length, ltb, if◌then◌else◌,
}

pub record CacheEntry (V : Type 0) : Type 0 where
  pub key : String
  pub value : V
  pub expires : ℕ

pub record Cache (V : Type 0) : Type 0 where
  pub size : ℕ
  pub ttl : ℕ
  pub entries : List String
  pub order : List (CacheEntry V)

abbrev pub has : List String → String → Bool
has [] key = false
has (k ∷ ks) key = let rest = has ks key in if str_eq k key then true else rest

-- `delete(c.entries, key)`
abbrev pub delete : List String → String → List String
delete [] key = []
delete (k ∷ ks) key = let rest = delete ks key in if str_eq k key then rest else k ∷ rest

module _ {V : Type 0} where
  abbrev pub new_cache : ℕ → ℕ → Cache V
  new_cache size ttl = record { size = size; ttl = ttl; entries = []; order = [] }

  -- The element that the map has for a key.
  abbrev pub find_key : List (CacheEntry V) → String → Option (CacheEntry V)
  find_key [] key = none
  find_key (e ∷ es) key = let rest = find_key es key in if str_eq e.key key then some e else rest

  -- `c.order.Remove(el)`
  abbrev pub remove_key : List (CacheEntry V) → String → List (CacheEntry V)
  remove_key [] key = []
  remove_key (e ∷ es) key =
      let rest = remove_key es key in if str_eq e.key key then es else e ∷ rest

  abbrev pub drop_last : List (CacheEntry V) → List (CacheEntry V)
  drop_last [] = []
  drop_last (e ∷ []) = []
  drop_last (e ∷ f ∷ es) = e ∷ drop_last (f ∷ es)

  abbrev pub last_key : List (CacheEntry V) → String
  last_key [] = ""
  last_key (e ∷ []) = e.key
  last_key (e ∷ f ∷ es) = last_key (f ∷ es)

  -- The loop that evicts, for at most `fuel` passes; `put` gives it as many as there are entries.
  unfoldable pub evict :
      ℕ → ℕ → List String → List (CacheEntry V) → List String × List (CacheEntry V)
  evict zero size entries order = (entries, order)
  evict (suc fuel) size entries order =
      let rest = evict fuel size (delete entries (last_key order)) (drop_last order) in
      if ltb size (length order) then rest else (entries, order)

  unfoldable pub get : Cache V → String → ℕ → Option V × Cache V
  get c key now =
      if has c.entries key
      then elim (find_key c.order key) [
        | none ↦ (none, c)
        | some e ↦
            if ltb now e.expires
            then (some e.value, record c { order = e ∷ remove_key c.order key })
            else (none, record c { order = remove_key c.order key; entries = delete c.entries key })
      ]
      else (none, c)

  unfoldable pub put : Cache V → String → V → ℕ → Cache V
  unfolding evict
  put c key value now =
      let e : CacheEntry V = record { key = key; value = value; expires = now + c.ttl } in
      if has c.entries key
      then record c { order = e ∷ remove_key c.order key }
      else (let (entries, order) =
            evict (suc (length c.order)) c.size (key ∷ c.entries) (e ∷ c.order) in
          record c { entries = entries; order = order })

  unfoldable pub len : Cache V → ℕ
  len c = length c.order
