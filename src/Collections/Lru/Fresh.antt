-- ===== src/Collections/Lru/Fresh.antt =====
-- `insert` of a new key into an `LruCache` that has room (src/shared/collections/src/lru.rs).
use vanadinite.Prelude.{
  ◌≡◌, ◌⊎◌, inl, inr, refl, ap, ◌∙◌, false, Option, none, some, List, [], ◌∷◌, ◌==◌, if◌then◌else◌,
  arith,
}
use vanadinite.Collections.Store.{
  Ptr, Store, put, IsPool-put, done, modify_lem, allocate, allocate_lem, Grown,
}
use vanadinite.Collections.Cells.{has, first}
use vanadinite.Collections.Doubly.Chains.{node, Chain, Chain-put, Grown-Chain}
use vanadinite.Collections.Lru.{
  Keyed, LruEntry, LruCache, MapOps, same_ptr, make_head, stored, no_memory, add_entry, insert,
}
use vanadinite.Collections.Lru.Recent.{
  detach_run, IsCache, keeps_tail, swapped, rewritten, apart_from,
}

module _ {V Map : Type 0} where
  -- `make_head` of an entry without links puts it before all entries.
  make_head_new :
      (s : Store (LruEntry V)) (c : LruCache Map) (p : Ptr) (v : Keyed V)
      (xs : List (Ptr × Keyed V))
      → s.cell p ≡ some (node v none none)
      → has p xs ≡ false
      → IsCache s c xs
      → (c' : LruCache Map) × (s' : Store (LruEntry V)) × (make_head c p s ≡ done c' s')
        × (c'.map ≡ c.map)
        × (c'.cache_capacity ≡ c.cache_capacity)
        × IsCache s' c' ((p, v) ∷ xs)
  unfolding make_head
  make_head_new s c p v [] at out (head, tail, chain, pool) = (
    record { map = c.map; head = some p; tail = some p; cache_capacity = c.cache_capacity },
    s,
    rw (make_head, head, detach_run s s s p v none none at refl refl) refl,
    refl,
    refl,
    (refl, refl, (at, refl, tt), pool),
  )
  make_head_new s c p v ((h, w) ∷ xs) at out (head, tail, (at_h, out_h, rest), pool) =
      let n = node w none (first xs none) in
      let n' = node w (some p) (first xs none) in
      let s1 = put s h (some n') in
      let m' = node v none (some h) in
      let s2 = put s1 p (some m') in
      let differ' : (p == h) ≡ false = apart_from h w xs p out in
      let differ : (h == p) ≡ false = swapped h p differ' in
      let at_p : s1.cell p ≡ some (node v none none) = rw differ' at in
      let p_out : has p xs ≡ false = ground arith in
      let top : s2.cell p ≡ some m' = rewritten p (some m') (s1.cell p) in
      let here_after : s2.cell h ≡ some n' = rw differ (rewritten h (some n') (s.cell h)) in
      (
        record {
          map = c.map;
          head = some p;
          tail = if same_ptr c.head c.tail then c.head else c.tail;
          cache_capacity = c.cache_capacity;
        },
        s2,
        rw
            (
              make_head,
              head,
              differ,
              detach_run s s s p v none none at refl refl,
              modify_lem s h n (λ n. record n { prev = some p }) at_h,
              modify_lem s1 p (node v none none) (λ n. record n { next = some h }) at_p,
            )
            (ap
              (λ (k : Option Ptr).
                done
                  (record {
                    map = c.map;
                    head = some p;
                    tail = if same_ptr k c.tail then k else c.tail;
                    cache_capacity = c.cache_capacity;
                  })
                  s2)
              head),
        refl,
        refl,
        (
          refl,
          keeps_tail c.head c.tail ∙ tail,
          (
            top,
            out,
            (
              here_after,
              out_h,
              Chain-put s1 p (some m') (some h) xs none p_out
                  (Chain-put s h (some n') (some h) xs none out_h rest),
            ),
          ),
          IsPool-put s1 p (node v none none) (some m') at_p (IsPool-put s h n (some n') at_h pool),
        ),
      )

module _ {K V Map : Type 0} (maps : MapOps K Map) where
  -- `insert` of a new key into a cache with room fails without an effect when there is no memory for
  -- the entry. Else the entry becomes the most recently used one and the capacity stays. If the map
  -- takes the key, the call stores it there. If the map cannot take it, the call fails with the map
  -- as it was, without the key, and the list has an entry that the map lacks.
  pub insert_fresh :
      (s : Store (LruEntry V)) (c : LruCache Map) (key : K) (v : V) (xs : List (Ptr × Keyed V))
      → IsCache s c xs
      → maps.lookup c.map key ≡ none
      → (maps.len c.map == c.cache_capacity) ≡ false
      → ((s.pool ≡ []) × (insert maps c key v s ≡ done (c, no_memory) s))
        ⊎ ((p : Ptr) × ((c' : LruCache Map) × (s' : Store (LruEntry V)) × IsCache s' c'
                ((p, record { key_hash = maps.hash key; value = v }) ∷ xs)
              × (c'.map ≡ c.map)
              × (c'.cache_capacity ≡ c.cache_capacity)
              × (maps.lookup c'.map key ≡ none)
              × (((maps.add c.map key p ≡ none) × (insert maps c key v s ≡ done (c', no_memory) s'))
                  ⊎ ((m : Map) × (maps.add c.map key p ≡ some m)
                      × (insert maps c key v s ≡ done (record c' { map = m }, stored none) s')))))
  unfolding insert add_entry
  insert_fresh s c key v xs (head, tail, chain, pool) fresh room =
      elim (allocate_lem s (node k none none) pool) [
        | inl (empty, e) ↦ inl (empty, rw (insert, fresh, room, add_entry, e) refl)
        | inr (p, s1, g) ↦
            inr (p, grown p s1 g (Grown-Chain s s1 (node k none none) p none xs none g chain))
      ]
    where
      k : Keyed V
      k = record { key_hash = maps.hash key; value = v }

      Inserted : Ptr → Type 0
      Inserted p =
          (c' : LruCache Map) × (s' : Store (LruEntry V)) × IsCache s' c' ((p, k) ∷ xs)
          × (c'.map ≡ c.map)
          × (c'.cache_capacity ≡ c.cache_capacity)
          × (maps.lookup c'.map key ≡ none)
          × (((maps.add c.map key p ≡ none) × (insert maps c key v s ≡ done (c', no_memory) s'))
              ⊎ ((m : Map) × (maps.add c.map key p ≡ some m)
                  × (insert maps c key v s ≡ done (record c' { map = m }, stored none) s')))

      added :
          (p : Ptr) (s1 s2 : Store (LruEntry V)) (c' : LruCache Map)
          → allocate (node k none none) s ≡ done (some p) s1
          → make_head c p s1 ≡ done c' s2
          → c'.map ≡ c.map
          → (r : Option Map) → maps.add c.map key p ≡ r
          → ((maps.add c.map key p ≡ none) × (insert maps c key v s ≡ done (c', no_memory) s2))
            ⊎ ((m : Map) × (maps.add c.map key p ≡ some m)
                × (insert maps c key v s ≡ done (record c' { map = m }, stored none) s2))
      added p s1 s2 c' alloc run keeps none e =
          let e' : maps.add c'.map key p ≡ none = ap (λ m. maps.add m key p) keeps ∙ e in
          inl (e, rw (insert, fresh, room, add_entry, alloc, run, e') refl)
      added p s1 s2 c' alloc run keeps (some m) e =
          let e' : maps.add c'.map key p ≡ some m = ap (λ m. maps.add m key p) keeps ∙ e in
          inr (m, e, rw (insert, fresh, room, add_entry, alloc, run, e') refl)

      placed :
          (p : Ptr) (s1 : Store (LruEntry V))
          → allocate (node k none none) s ≡ done (some p) s1
          → (c' : LruCache Map) × (s' : Store (LruEntry V)) × (make_head c p s1 ≡ done c' s')
            × (c'.map ≡ c.map)
            × (c'.cache_capacity ≡ c.cache_capacity)
            × IsCache s' c' ((p, k) ∷ xs)
          → Inserted p
      placed p s1 alloc (c', s2, run, keeps, same, ok) =
          let lacks = ap (λ m. maps.lookup m key) keeps ∙ fresh in
          let result = added p s1 s2 c' alloc run keeps (maps.add c.map key p) refl in
          (c', s2, ok, keeps, same, lacks, result)

      grown :
          (p : Ptr) (s1 : Store (LruEntry V))
          → Grown s (node k none none) p s1
          → Chain s1.cell none xs none × (has p xs ≡ false)
          → Inserted p
      grown p s1 g (chain, out) = placed p s1 g.returns (
          make_head_new s1 c p k xs (g.cells p ∙ rewritten p (some (node k none none)) (s.cell p))
            out (head, tail, chain, g.ready))
