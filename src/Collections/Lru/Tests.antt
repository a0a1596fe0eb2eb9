-- ===== src/Collections/Lru/Tests.antt =====
-- Runs of an `LruCache` (src/shared/collections/src/lru.rs) with a list of pairs as its map.
use vanadinite.Prelude.{
  ℕ, ◌≡◌, ◌⊎◌, refl, Option, none, some, List, [], ◌∷◌, ◌==◌, if◌then◌else◌, length,
}
use vanadinite.Collections.Store.{Ptr, Store, done, fault, ◌>>=◌}
use vanadinite.Collections.Doubly.Chains.{node}
use vanadinite.Collections.Lru.{
  Keyed, LruEntry, LruCache, MapOps, stored, no_memory, get, insert, make_head, detach, evict,
  add_entry,
}
use vanadinite.Collections.Lru.Recent.{IsCache, Leads, get_lem}
use vanadinite.Collections.Lru.Fresh.{insert_fresh}

abbrev Pairs : Type 0
Pairs = List (ℕ × Ptr)

abbrev lookup : Pairs → ℕ → Option Ptr
lookup [] key = none
lookup ((k, p) ∷ m) key = if k == key then some p else lookup m key

abbrev without : Pairs → ℕ → Pairs
without [] key = []
without ((k, p) ∷ m) key = if k == key then m else (k, p) ∷ without m key

abbrev key_at : Pairs → Ptr → Option ℕ
key_at [] p = none
key_at ((k, q) ∷ m) p = if q == p then some k else key_at m p

abbrev deleted : Pairs → ℕ → Option Ptr → Option (Pairs × Ptr)
deleted m key none = none
deleted m key (some p) = some (without m key, p)

abbrev deleted_at : Pairs → Option ℕ → Option Pairs
deleted_at m none = none
deleted_at m (some key) = some (without m key)

abbrev pairs : MapOps ℕ Pairs
pairs = record {
  len = length;
  hash = λ k. k;
  lookup = lookup;
  reserve = λ m. some m;
  add = λ m k p. some ((k, p) ∷ m);
  delete = λ m k. deleted m k (lookup m k);
  delete_entry = λ m h p. deleted_at m (key_at m p);
  key_of = λ m h p. key_at m p;
}

abbrev keyed : ℕ → ℕ → Keyed ℕ
keyed k v = record { key_hash = k; value = v }

abbrev two : List (Ptr × Keyed ℕ)
two = (1, keyed 7 70) ∷ (2, keyed 8 80) ∷ []

abbrev entries : Store (LruEntry ℕ)
entries = record {
  cell = λ a.
      if a == 1
      then some (node (keyed 7 70) none (some 2))
      else if a == 2
      then some (node (keyed 8 80) (some 1) none)
      else none;
  pool = 3 ∷ 4 ∷ [];
}

abbrev cache : ℕ → LruCache Pairs
cache capacity = record {
  map = (7, 1) ∷ (8, 2) ∷ [];
  head = some 1;
  tail = some 2;
  cache_capacity = capacity;
}

cache-IsCache : IsCache entries (cache 3) two
cache-IsCache = (refl, refl, (refl, refl, (refl, refl, tt)), (refl, refl, (refl, refl, tt)))

-- In a full cache, the entry that was just read is the one that is evicted. The head of the cache is
-- then the address of the freed entry, and is written to.
evicting_the_recent : (get pairs (cache 2) 8 >>= λ r. insert pairs r.0 9 90) entries ≡ fault
unfolding get insert make_head detach evict add_entry
evicting_the_recent = refl

get_lem_example :
    (c : LruCache Pairs) × (s : Store (LruEntry ℕ)) × (get pairs (cache 3) 8 entries
      ≡ done (c, some 80) s)
    × Leads (cache 3) c s (some 1) ((2, keyed 8 80) ∷ (1, keyed 7 70) ∷ [])
get_lem_example =
    get_lem pairs entries (cache 3) 8 ((1, keyed 7 70) ∷ []) [] 2 (keyed 8 80) cache-IsCache refl

insert_fresh_example :
    ((entries.pool ≡ [])
      × (insert pairs (cache 3) 9 90 entries ≡ done (cache 3, no_memory) entries))
    ⊎ ((p : Ptr) × ((c : LruCache Pairs) × (s : Store (LruEntry ℕ)) × IsCache s c
            ((p, keyed 9 90) ∷ two)
          × (c.map ≡ (cache 3).map)
          × (c.cache_capacity ≡ (cache 3).cache_capacity)
          × (pairs.lookup c.map 9 ≡ none)
          × (((pairs.add (cache 3).map 9 p ≡ none)
                × (insert pairs (cache 3) 9 90 entries ≡ done (c, no_memory) s))
              ⊎ ((m : Pairs) × (pairs.add (cache 3).map 9 p ≡ some m)
                  × (insert pairs (cache 3) 9 90 entries
                      ≡ done (record c { map = m }, stored none) s)))))
insert_fresh_example = insert_fresh pairs entries (cache 3) 9 90 two cache-IsCache refl refl
