-- ===== src/Search/Cache/Room.antt =====
-- internal/search/cache.go: the map and the list of a cache have the same keys, and the list has room.
use eika.Common.{
  take_all, ℕ, zero, suc, ◌+◌, ◌≤◌, ◌<◌, Bool, true, false, String, str_eq, str_eq_iff, List, [],
  ◌∷◌, map, length, take, ltb, if◌then◌else◌, arith, ◌≡◌, refl, sym, ap, ◌∙◌,
}
use eika.Search.Cache.{CacheEntry, Cache, has, delete, remove_key, drop_last, last_key, evict}

abbrev pub IsDistinct : List String → Type 0
IsDistinct [] = Unit
IsDistinct (k ∷ ks) = (has ks k ≡ false) × IsDistinct ks

has-delete :
    (es : List String) (x k : String)
    → has (delete es x) k ≡ (if str_eq x k then false else has es k)
has-delete [] x k = ground arith
has-delete (e ∷ es) x k =
    ground (arith, has-delete es x k, str_eq_iff e k, str_eq_iff e x, str_eq_iff x k)

module _ {V : Type 0} where
  abbrev pub keys : List (CacheEntry V) → List String
  keys o = map (λ e. e.key) o

  has-last_key :
      (e : CacheEntry V) (o : List (CacheEntry V)) → has (keys (e ∷ o)) (last_key (e ∷ o)) ≡ true
  has-last_key e [] = ground (arith, str_eq_iff e.key e.key)
  has-last_key e (f ∷ o) = ground (arith, has-last_key f o)

  has-drop_last :
      (e : CacheEntry V) (o : List (CacheEntry V)) (k : String)
      → IsDistinct (keys (e ∷ o))
      → has (keys (drop_last (e ∷ o))) k
        ≡ (if str_eq (last_key (e ∷ o)) k then false else has (keys (e ∷ o)) k)
  has-drop_last e [] k d = ground arith
  has-drop_last e (f ∷ o) k (a, d) = ground (
    arith,
    has-drop_last f o k d,
    has-last_key f o,
    a,
    str_eq_iff e.key k,
    str_eq_iff (last_key (f ∷ o)) k,
  )

  drop_last-IsDistinct :
      (e : CacheEntry V) (o : List (CacheEntry V))
      → IsDistinct (keys (e ∷ o))
      → IsDistinct (keys (drop_last (e ∷ o)))
  drop_last-IsDistinct e [] d = tt
  drop_last-IsDistinct e (f ∷ o) (a, d) =
      (ground (arith, has-drop_last f o e.key d, a), drop_last-IsDistinct f o d)

  pub has-remove_key :
      (o : List (CacheEntry V)) (x k : String)
      → IsDistinct (keys o)
      → has (keys (remove_key o x)) k ≡ (if str_eq x k then false else has (keys o) k)
  has-remove_key [] x k d = ground arith
  has-remove_key (e ∷ o) x k (a, d) =
      ground
        (arith, has-remove_key o x k d, a, str_eq_iff e.key x, str_eq_iff e.key k, str_eq_iff x k)

  pub remove_key-IsDistinct :
      (o : List (CacheEntry V)) (x : String)
      → IsDistinct (keys o)
      → IsDistinct (keys (remove_key o x))
  remove_key-IsDistinct [] x d = tt
  remove_key-IsDistinct (e ∷ o) x (a, d) =
      step (str_eq e.key x) (ground (arith, has-remove_key o x e.key d, a))
        (remove_key-IsDistinct o x d)
    where
      step :
          (b : Bool)
          → has (keys (remove_key o x)) e.key ≡ false
          → IsDistinct (keys (remove_key o x))
          → IsDistinct (keys (if b then o else e ∷ remove_key o x))
      step true h r = d
      step false h r = (h, r)

  pub length-remove_key :
      (o : List (CacheEntry V)) (x : String)
      → has (keys o) x ≡ true
      → length (remove_key o x) + 1 ≡ length o
  length-remove_key [] x h = cc h
  length-remove_key (e ∷ o) x h = ground (arith, length-remove_key o x)

  pub take-drop_last :
      (n : ℕ) (o : List (CacheEntry V)) → n < length o → take n (drop_last o) ≡ take n o
  take-drop_last zero o h = refl
  take-drop_last (suc n) [] h = ground arith
  take-drop_last (suc n) (e ∷ []) h = ground arith
  take-drop_last (suc n) (e ∷ f ∷ o) h = ap (λ l. e ∷ l) (take-drop_last n (f ∷ o) (omega arith))

  length-drop_last :
      (e : CacheEntry V) (o : List (CacheEntry V)) → length (drop_last (e ∷ o)) ≡ length o
  length-drop_last e [] = refl
  length-drop_last e (f ∷ o) = ap suc (length-drop_last f o)

  -- The map and the list have the same keys, each once.
  pub record IsPaired (entries : List String) (order : List (CacheEntry V)) : Type 0 where
    pub same : (k : String) → has entries k ≡ has (keys order) k
    pub distinct : IsDistinct (keys order)

  drop_last-IsPaired :
      (entries : List String) (e : CacheEntry V) (o : List (CacheEntry V))
      → IsPaired entries (e ∷ o)
      → IsPaired (delete entries (last_key (e ∷ o))) (drop_last (e ∷ o))
  drop_last-IsPaired entries e o p = record {
    same = λ k.
        ground (
          arith,
          has-delete entries (last_key (e ∷ o)) k,
          has-drop_last e o k p.distinct,
          p.same k,
        );
    distinct = drop_last-IsDistinct e o p.distinct;
  }

  pub remove_key-IsPaired :
      (entries : List String) (o : List (CacheEntry V)) (x : String)
      → IsPaired entries o
      → IsPaired (delete entries x) (remove_key o x)
  remove_key-IsPaired entries o x p = record {
    same = λ k. ground (arith, has-delete entries x k, has-remove_key o x k p.distinct, p.same k);
    distinct = remove_key-IsDistinct o x p.distinct;
  }

  -- What the eviction leaves: the newest entries that there is room for.
  pub record IsEvicted (size : ℕ) (order : List (CacheEntry V))
      (out : List String × List (CacheEntry V)) : Type 0 where
    pub newest : out.1 ≡ take size order
    pub paired : IsPaired out.0 out.1

  pub evict-IsEvicted :
      (fuel size : ℕ) (entries : List String) (order : List (CacheEntry V))
      → length order ≤ size + fuel
      → IsPaired entries order
      → IsEvicted size order (evict fuel size entries order)
  unfolding evict
  evict-IsEvicted zero size entries order h p = record {
    newest = sym (take_all size order (omega arith));
    paired = p;
  }
  evict-IsEvicted (suc fuel) size entries [] h p = stays (ltb size 0) (ground arith)
    where
      stays :
          (b : Bool)
          → b ≡ false
          → IsEvicted size [] (if b then evict fuel size (delete entries "") [] else (entries, []))
      stays true e = cc e
      stays false e = record { newest = sym (take_all size [] (omega arith)); paired = p }
  evict-IsEvicted (suc fuel) size entries (e ∷ o) h p = step (ltb size (length (e ∷ o))) refl (
      evict-IsEvicted fuel size (delete entries (last_key (e ∷ o))) (drop_last (e ∷ o))
        (omega (arith, length-drop_last e o)) (drop_last-IsPaired entries e o p))
    where
      rest : List String × List (CacheEntry V)
      rest = evict fuel size (delete entries (last_key (e ∷ o))) (drop_last (e ∷ o))

      step :
          (b : Bool)
          → ltb size (length (e ∷ o)) ≡ b
          → IsEvicted size (drop_last (e ∷ o)) rest
          → IsEvicted size (e ∷ o) (if b then rest else (entries, e ∷ o))
      step true l k = record {
        newest = k.newest ∙ take-drop_last size (e ∷ o) (ground arith);
        paired = k.paired;
      }
      step false l k = record { newest = sym (take_all size (e ∷ o) (ground arith)); paired = p }

  -- A cache as its methods keep it.
  pub record IsSound (c : Cache V) : Type 0 where
    pub paired : IsPaired c.entries c.order
    pub room : length c.order ≤ c.size
