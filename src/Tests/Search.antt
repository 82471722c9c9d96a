-- ===== src/Tests/Search.antt =====
-- Runs of internal/search/cache.go.
use eika.Common.{ℕ, ◌≡◌, refl, some, [], ◌∷◌, arith, map}
use eika.Search.Cache.{Cache, get, put}
use eika.Search.Cache.Room.{IsSound}
use eika.Search.Cache.Lookup.{IsPut, put-IsPut, IsGot, get-IsGot, get-put}

-- Two entries, and no room for a third.
abbrev full : Cache ℕ
full = record {
  size = 2;
  ttl = 100;
  entries = "b" ∷ "a" ∷ [];
  order =
      record { key = "b"; value = 2; expires = 150 }
      ∷ record { key = "a"; value = 1; expires = 140 }
      ∷ [];
}

full-IsSound : IsSound full
full-IsSound = record {
  paired = record { same = λ k. refl; distinct = (refl, (refl, tt)) };
  room = omega arith;
}

-- Looking the older one up keeps it, and the other goes.
evicted : map (λ e. e.key) (put (get full "a" 60).1 "c" 3 70).order ≡ "c" ∷ "a" ∷ []
unfolding get put
evicted = refl

put-IsPut_example : IsPut full (record { key = "c"; value = 3; expires = 170 }) (put full "c" 3 70)
put-IsPut_example = put-IsPut full "c" 3 70 full-IsSound

get-IsGot_example : IsGot full "a" 145 (get full "a" 145)
get-IsGot_example = get-IsGot full "a" 145 full-IsSound

get-put_example : (get (put full "c" 3 70) "c" 169).0 ≡ some 3
get-put_example = get-put full "c" 3 70 169 full-IsSound (omega arith) (omega arith)
