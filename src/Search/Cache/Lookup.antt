-- ===== src/Search/Cache/Lookup.antt =====
-- internal/search/cache.go: what `Get` and `Put` do to a cache and what they return.
use eika.Common.{
  take_all, lt→ltb, ◌-◌, ℕ, zero, suc, ◌+◌, ◌≤◌, ◌<◌, Bool, true, false, String, str_eq, str_eq_iff,
  Option, none, some, List, [], ◌∷◌, length, take, ltb, if◌then◌else◌, arith, ◌≡◌, refl, sym, ap,
  ◌∙◌, subst, length-take,
}
use eika.Search.Cache.{CacheEntry, Cache, has, delete, find_key, remove_key, evict, get, put}
use eika.Search.Cache.Room.{
  IsPaired, IsSound, keys, has-remove_key, length-remove_key, remove_key-IsPaired,
  remove_key-IsDistinct, evict-IsEvicted,
}

module _ {V : Type 0} where
  remove_key-absent :
      (o : List (CacheEntry V)) (x : String) → has (keys o) x ≡ false → remove_key o x ≡ o
  remove_key-absent [] x h = refl
  remove_key-absent (e ∷ o) x h = ground (arith, remove_key-absent o x)

  -- An entry moves to the front, with a new value.
  front-IsPaired :
      (entries : List String) (o : List (CacheEntry V)) (e : CacheEntry V)
      → has entries e.key ≡ true
      → IsPaired entries o
      → IsPaired entries (e ∷ remove_key o e.key)
  front-IsPaired entries o e h p = record {
    same = λ k. ground (arith, moved k, has-remove_key o e.key k p.distinct, p.same k);
    distinct = (
      ground (arith, has-remove_key o e.key e.key p.distinct, str_eq_iff e.key e.key),
      remove_key-IsDistinct o e.key p.distinct,
    );
  }
    where
      moved : (k : String) → str_eq e.key k ≡ true → has entries k ≡ true
      moved k q = subst (λ x. has entries x ≡ true) ((str_eq_iff e.key k).0 q) h

  new-IsPaired :
      (entries : List String) (o : List (CacheEntry V)) (e : CacheEntry V)
      → has entries e.key ≡ false
      → IsPaired entries o
      → IsPaired (e.key ∷ entries) (e ∷ o)
  new-IsPaired entries o e h p = record {
    same = λ k. ap (λ b. if str_eq e.key k then true else b) (p.same k);
    distinct = (sym (p.same e.key) ∙ h, p.distinct);
  }

  -- What `Put` makes of a cache.
  pub record IsPut (c : Cache V) (e : CacheEntry V) (out : Cache V) : Type 0 where
    pub sound : IsSound out
    pub newest : out.order ≡ take c.size (e ∷ remove_key c.order e.key)

  -- `Put` keeps the map and the list together, and leaves the entry in front of the others in their
  -- order, without the one that it replaces and without the oldest where there is no room for it.
  pub put-IsPut :
      (c : Cache V) (key : String) (value : V) (now : ℕ)
      → IsSound c
      → IsPut c (record { key = key; value = value; expires = now + c.ttl }) (put c key value now)
  unfolding put
  put-IsPut c key value now s = step (has c.entries key) refl
    where
      e : CacheEntry V
      e = record { key = key; value = value; expires = now + c.ttl }

      out : List String × List (CacheEntry V)
      out = evict (suc (length c.order)) c.size (key ∷ c.entries) (e ∷ c.order)

      step :
          (b : Bool)
          → has c.entries key ≡ b
          → IsPut c e (
              if b
              then record c { order = e ∷ remove_key c.order key }
              else record c { entries = out.0; order = out.1 })
      step true h =
          let l = length-remove_key c.order key (sym (s.paired.same key) ∙ h) in
          record {
            sound = record {
              paired = front-IsPaired c.entries c.order e h s.paired;
              room = omega (arith, l, s.room);
            };
            newest = sym (take_all c.size (e ∷ remove_key c.order key) (omega (arith, l, s.room)));
          }
      step false h =
          let k =
            evict-IsEvicted (suc (length c.order)) c.size (key ∷ c.entries) (e ∷ c.order)
              (omega arith) (new-IsPaired c.entries c.order e h s.paired) in
          record {
            sound = record {
              paired = k.paired;
              room = omega (arith, ap length k.newest, length-take c.size (e ∷ c.order));
            };
            newest =
                k.newest
                ∙ ap (λ o. take c.size (e ∷ o))
                    (sym (remove_key-absent c.order key (sym (s.paired.same key) ∙ h)));
          }

  -- What `Get` makes of a cache.
  pub record IsGot (c : Cache V) (key : String) (now : ℕ) (out : Option V × Cache V) : Type 0 where
    pub sound : IsSound out.1
    pub missing : find_key c.order key ≡ none → (out.0 ≡ none) × (out.1 ≡ c)
    pub fresh :
        (e : CacheEntry V)
        → find_key c.order key ≡ some e
        → now < e.expires
        → (out.0 ≡ some e.value) × (out.1.order ≡ e ∷ remove_key c.order key)
    pub expired :
        (e : CacheEntry V)
        → find_key c.order key ≡ some e
        → e.expires ≤ now
        → (out.0 ≡ none) × (out.1.order ≡ remove_key c.order key)

  find_key-none :
      (o : List (CacheEntry V)) (k : String) → find_key o k ≡ none → has (keys o) k ≡ false
  find_key-none [] k h = refl
  find_key-none (e ∷ o) k h = ground (arith, find_key-none o k)

  find_key-some :
      (o : List (CacheEntry V)) (k : String) (e : CacheEntry V)
      → find_key o k ≡ some e
      → (has (keys o) k ≡ true) × (e.key ≡ k)
  find_key-some [] k e h = cc h
  find_key-some (f ∷ o) k e h = step (str_eq f.key k) refl h (find_key-some o k e)
    where
      step :
          (b : Bool)
          → str_eq f.key k ≡ b
          → (if b then some f else find_key o k) ≡ some e
          → (find_key o k ≡ some e → (has (keys o) k ≡ true) × (e.key ≡ k))
          → ((if b then true else has (keys o) k) ≡ true) × (e.key ≡ k)
      step true q h r = (refl, cc ((str_eq_iff f.key k).0 q, h))
      step false q h r = r h

  some_inj : (e f : CacheEntry V) → (some e ≡ some f) → e ≡ f
  some_inj e f h = cc h

  late : {now : ℕ} (e : CacheEntry V) → e.expires ≤ now → ltb now e.expires ≡ true → ⊥
  late e l t = ground arith

  early : {now : ℕ} (e : CacheEntry V) → now < e.expires → ltb now e.expires ≡ false → ⊥
  early e l t = ground arith

  -- `Get` keeps the map and the list together. A key that the cache does not have changes nothing; a
  -- value that is still fresh is returned and moves to the front; one that has expired is gone.
  pub get-IsGot :
      (c : Cache V) (key : String) (now : ℕ) → IsSound c → IsGot c key now (get c key now)
  unfolding get
  get-IsGot c key now s = step (has c.entries key) refl (find_key c.order key) refl
    where
      same_entry :
          (e f : CacheEntry V)
          → find_key c.order key ≡ some e
          → find_key c.order key ≡ some f
          → e ≡ f
      same_entry e f q h = some_inj e f (sym q ∙ h)

      known : (e : CacheEntry V) → find_key c.order key ≡ some e → has (keys c.order) key ≡ true
      known e q = (find_key-some c.order key e q).0

      front :
          (e : CacheEntry V)
          → find_key c.order key ≡ some e
          → IsPaired c.entries (e ∷ remove_key c.order key)
      front e q =
          let k = (find_key-some c.order key e q).1 in
          subst (λ x. IsPaired c.entries (e ∷ remove_key c.order x)) k
            (front-IsPaired c.entries c.order e
              (ap (has c.entries) k ∙ s.paired.same key ∙ known e q) s.paired)

      absent : find_key c.order key ≡ none → IsGot c key now (none, c)
      absent q = record {
        sound = s;
        missing = λ h. (refl, refl);
        fresh = λ e h l. cc (q, h);
        expired = λ e h l. cc (q, h);
      }

      found :
          (e : CacheEntry V)
          → find_key c.order key ≡ some e
          → (t : Bool) → ltb now e.expires ≡ t
          → IsGot c key now (
              if t then (some e.value, record c { order = e ∷ remove_key c.order key }) else (
                none,
                record c { order = remove_key c.order key; entries = delete c.entries key },
              ))
      found e q true t = record {
        sound = record {
          paired = front e q;
          room = omega (arith, length-remove_key c.order key (known e q), s.room);
        };
        missing = λ h. cc (q, h);
        fresh = λ f h l.
            let k = same_entry e f q h in
            (ap (λ x. some x.value) k, ap (λ x. x ∷ remove_key c.order key) k);
        expired =
            λ f h l. absurd (late e (subst (λ x. x.expires ≤ now) (sym (same_entry e f q h)) l) t);
      }
      found e q false t = record {
        sound = record {
          paired = remove_key-IsPaired c.entries c.order key s.paired;
          room = omega (arith, length-remove_key c.order key (known e q), s.room);
        };
        missing = λ h. cc (q, h);
        fresh =
            λ f h l. absurd (early e (subst (λ x. now < x.expires) (sym (same_entry e f q h)) l) t);
        expired = λ f h l. (refl, refl);
      }

      step :
          (b : Bool)
          → has c.entries key ≡ b
          → (o : Option (CacheEntry V)) → find_key c.order key ≡ o
          → IsGot c key now (
              if b
              then elim o as (λ _. Option V × Cache V) [
                | none ↦ (none, c)
                | some e ↦
                    if ltb now e.expires
                    then (some e.value, record c { order = e ∷ remove_key c.order key })
                    else (
                      none,
                      record c { order = remove_key c.order key; entries = delete c.entries key },
                    )
              ]
              else (none, c))
      step true h none q = absent q
      step false h none q = absent q
      step true h (some e) q = found e q (ltb now e.expires) refl
      step false h (some e) q = cc (h, s.paired.same key, known e q)

  front_found :
      (c : Cache V) (e : CacheEntry V) (rest : List (CacheEntry V)) (later : ℕ)
      → c.order ≡ e ∷ rest
      → has c.entries e.key ≡ true
      → later < e.expires
      → (get c e.key later).0 ≡ some e.value
  unfolding get
  front_found c e rest later o h l =
      let found : find_key c.order e.key ≡ some e =
        ap (λ o. find_key o e.key) o ∙ ground (arith, str_eq_iff e.key e.key) in
      rw (h, found, lt→ltb later e.expires l)

  take-cons :
      (n : ℕ) (e : CacheEntry V) (o : List (CacheEntry V))
      → 0 < n
      → take n (e ∷ o) ≡ e ∷ take (n - 1) o
  take-cons zero e o h = ground arith
  take-cons (suc n) e o h = let k : n ≡ suc n - 1 = omega arith in ap (λ i. e ∷ take i o) k

  -- A value that was put is what the next lookup of its key returns, until it expires, in a cache that
  -- has any room.
  pub get-put :
      (c : Cache V) (key : String) (value : V) (now later : ℕ)
      → IsSound c
      → 0 < c.size
      → later < now + c.ttl
      → (get (put c key value now) key later).0 ≡ some value
  get-put c key value now later s room l =
      let e : CacheEntry V = record { key = key; value = value; expires = now + c.ttl } in
      let k = put-IsPut c key value now s in
      let o = k.newest ∙ take-cons c.size e (remove_key c.order key) room in
      front_found (put c key value now) e (take (c.size - 1) (remove_key c.order key)) later o
        (k.sound.paired.same key
          ∙ ap (λ o. has (keys o) key) o
          ∙ ground (arith, str_eq_iff key key))
        l
