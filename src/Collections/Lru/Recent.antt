-- ===== src/Collections/Lru/Recent.antt =====
-- `make_head` and `get` of an `LruCache` (src/shared/collections/src/lru.rs).
use vanadinite.Prelude.{
  ◌≡◌, inl, inr, refl, ap, ◌∙◌, true, false, Option, none, some, List, [], ◌∷◌, ◌++◌, ◌==◌,
  if◌then◌else◌, arith, Bool-cases,
}
use vanadinite.Collections.Store.{
  Ptr, Store, put, IsPool, IsPool-put, done, and_then, load_lem, modify_lem,
}
use vanadinite.Collections.Cells.{has, first, last_of, Apart-tail, has-append, snoc_cases}
use vanadinite.Collections.Doubly.{if_some, set_next, set_prev}
use vanadinite.Collections.Doubly.Chains.{node, Chain, Chain-put, Chain-append, append-Chain}
use vanadinite.Collections.Doubly.Removal.{Sides, Split, skip_back, skip_ahead}
use vanadinite.Collections.Lru.{Keyed, LruEntry, LruCache, MapOps, same_ptr, detach, make_head, get}

-- The tail that `make_head` writes is the one that it reads.
pub keeps_tail : (h t : Option Ptr) → (if same_ptr h t then h else t) ≡ t
keeps_tail none none = refl
keeps_tail none (some q) = refl
keeps_tail (some p) none = refl
keeps_tail (some p) (some q) = elim (Bool-cases (p == q)) [
  | inl here ↦ let e : p ≡ q = ground arith in rw here (ap some e)
  | inr other ↦ rw other refl
]

module _ {V : Type 0} where
  -- `detach` writes the two neighbours, the earlier one first.
  pub detach_run :
      (s s1 s2 : Store (LruEntry V)) (p : Ptr) (v : Keyed V) (a b : Option Ptr)
      → s.cell p ≡ some (node v a b)
      → if_some a (λ r. set_next r b) s ≡ done tt s1
      → if_some b (λ q. set_prev q a) s1 ≡ done tt s2
      → detach p s ≡ done tt s2
  unfolding detach
  detach_run s s1 s2 p v none none at e e' =
      rw (detach, load_lem s p (node v none none) at) (e ∙ e')
  detach_run s s1 s2 p v none (some q) at e e' =
      rw (detach, load_lem s p (node v none (some q)) at)
        (ap (λ r. and_then r (λ _. set_prev q none)) e ∙ e')
  detach_run s s1 s2 p v (some r) none at e e' =
      rw (detach, load_lem s p (node v (some r) none) at) (e ∙ e')
  detach_run s s1 s2 p v (some r) (some q) at e e' =
      rw (detach, load_lem s p (node v (some r) (some q)) at)
        (ap (λ k. and_then k (λ _. set_prev q (some r))) e ∙ e')

  pub apart_from :
      (h : Ptr) (w : Keyed V) (us : List (Ptr × Keyed V)) (p : Ptr)
      → has p ((h, w) ∷ us) ≡ false
      → (p == h) ≡ false
  apart_from h w us p out = ground arith

  outside :
      (h : Ptr) (w : Keyed V) (us vs : List (Ptr × Keyed V)) (p : Ptr)
      → has p ((h, w) ∷ us) ≡ false
      → has p vs ≡ false
      → has p (us ++ vs) ≡ false
  outside h w us vs p out out' = ground (arith, has-append p us vs)

  -- The entry is out of the chain, and keeps its own links.
  pub detach_lem :
      (s : Store (LruEntry V)) (us vs : List (Ptr × Keyed V)) (p : Ptr) (v : Keyed V)
      → Chain s.cell none (us ++ (p, v) ∷ vs) none
      → IsPool s.cell s.pool
      → (s' : Store (LruEntry V)) × (detach p s ≡ done tt s')
        × Split us vs p
        × Sides s' us vs p v (last_of us none) (first vs none)
  detach_lem s us vs p v chain pool =
      let (left, (at, out, right), apart) = Chain-append s.cell none us ((p, v) ∷ vs) none chain in
      let (away, p_out) = Apart-tail us vs (p, v) apart in
      let split : Split us vs p = record { apart = away; left_out = p_out; right_out = out } in
      by_ahead at split (
        skip_ahead s us vs p v (some p) split
          (record { left = left; here = at; right = right; ready = pool }) (snoc_cases us))
    where
      by_back :
          (s1 : Store (LruEntry V))
          → s.cell p ≡ some (node v (last_of us none) (first vs none))
          → Split us vs p
          → if_some (last_of us none) (λ r. set_next r (first vs none)) s ≡ done tt s1
          → (s2 : Store (LruEntry V)) × (if_some
                (first vs none)
                (λ q. set_prev q (last_of us none))
                s1
              ≡ done tt s2)
            × Sides s2 us vs p v (last_of us none) (first vs none)
          → (s' : Store (LruEntry V)) × (detach p s ≡ done tt s')
            × Split us vs p
            × Sides s' us vs p v (last_of us none) (first vs none)
      by_back s1 at split run (s2, runs, h) =
          (s2, detach_run s s1 s2 p v (last_of us none) (first vs none) at run runs, split, h)

      by_ahead :
          s.cell p ≡ some (node v (last_of us none) (first vs none))
          → Split us vs p
          → (s1 : Store (LruEntry V)) × (if_some
                (last_of us none)
                (λ r. set_next r (first vs none))
                s
              ≡ done tt s1)
            × Sides s1 us vs p v (some p) (first vs none)
          → (s' : Store (LruEntry V)) × (detach p s ≡ done tt s')
            × Split us vs p
            × Sides s' us vs p v (last_of us none) (first vs none)
      by_ahead at split (s1, run, h) =
          by_back s1 at split run (skip_back s1 us vs p v (first vs none) split h)

pub swapped : (h p : Ptr) → (p == h) ≡ false → (h == p) ≡ false
swapped h p e = ground arith

pub rewritten : {A : Type 0} (p : Ptr) (x y : A) → (if p == p then x else y) ≡ x
rewritten p x y = let e : (p == p) ≡ true = ground arith in rw e refl

module _ {V Map : Type 0} where
  -- What `make_head` leaves: the order from the new head on, which still names `stale` as the entry
  -- before it, and the tail of before.
  abbrev pub Leads :
      LruCache Map → LruCache Map → Store (LruEntry V) → Option Ptr → List (Ptr × Keyed V) → Type 0
  Leads before c s stale xs =
      (c.head ≡ first xs none)
      × (c.tail ≡ before.tail)
      × (c.map ≡ before.map)
      × Chain s.cell stale xs none
      × IsPool s.cell s.pool

  -- `make_head` of an entry behind the head puts it before the others, which keep their order. It
  -- leaves the tail of the cache and the backward link of the entry as they were.
  pub make_head_lem :
      (s : Store (LruEntry V)) (c : LruCache Map) (h : Ptr) (w : Keyed V)
      (us vs : List (Ptr × Keyed V)) (p : Ptr) (v : Keyed V)
      → c.head ≡ some h
      → Chain s.cell none ((h, w) ∷ us ++ (p, v) ∷ vs) none
      → IsPool s.cell s.pool
      → (c' : LruCache Map) × (s' : Store (LruEntry V)) × (make_head c p s ≡ done c' s')
        × Leads c c' s' (last_of us (some h)) ((p, v) ∷ (h, w) ∷ us ++ vs)
  unfolding make_head
  make_head_lem s c h w us vs p v head chain pool =
      linked (detach_lem s ((h, w) ∷ us) vs p v chain pool)
    where
      Moved : Type 0
      Moved =
          (c' : LruCache Map) × (s' : Store (LruEntry V)) × (make_head c p s ≡ done c' s')
          × Leads c c' s' (last_of us (some h)) ((p, v) ∷ (h, w) ∷ us ++ vs)

      linked :
          (s1 : Store (LruEntry V)) × (detach p s ≡ done tt s1)
            × Split ((h, w) ∷ us) vs p
            × Sides s1 ((h, w) ∷ us) vs p v (last_of us (some h)) (first vs none)
          → Moved
      linked (s1, run, split, sides) =
          let (at, out, rest) =
            append-Chain s1.cell none ((h, w) ∷ us) vs none sides.left sides.right split.apart in
          let n = node w none (first (us ++ vs) none) in
          let n' = node w (some p) (first (us ++ vs) none) in
          let m = node v (last_of us (some h)) (first vs none) in
          let m' = node v (last_of us (some h)) (some h) in
          let s2 = put s1 h (some n') in
          let differ : (h == p) ≡ false = swapped h p (apart_from h w us p split.left_out) in
          let differ' : (p == h) ≡ false = apart_from h w us p split.left_out in
          let at_p : s2.cell p ≡ some m = rw differ' sides.here in
          let p_out : has p (us ++ vs) ≡ false =
            outside h w us vs p split.left_out split.right_out in
          let s3 = put s2 p (some m') in
          let top : s3.cell p ≡ some m' = rewritten p (some m') (s2.cell p) in
          let here_after : s3.cell h ≡ some n' = rw differ (rewritten h (some n') (s1.cell h)) in
          let p_all : has p ((h, w) ∷ us ++ vs) ≡ false = rw differ' p_out in
          (
            record {
              map = c.map;
              head = some p;
              tail = if same_ptr c.head c.tail then c.head else c.tail;
              cache_capacity = c.cache_capacity;
            },
            put s2 p (some m'),
            rw
                (
                  make_head,
                  head,
                  differ,
                  run,
                  modify_lem s1 h n (λ n. record n { prev = some p }) at,
                  modify_lem s2 p m (λ n. record n { next = some h }) at_p,
                )
                (ap
                  (λ (k : Option Ptr).
                    done
                      (record {
                        map = c.map;
                        head = some p;
                        tail = if same_ptr k c.tail then k else c.tail;
                        cache_capacity = c.cache_capacity;
                      })
                      s3)
                  head),
            (
              refl,
              keeps_tail c.head c.tail,
              refl,
              (
                top,
                p_all,
                (
                  here_after,
                  out,
                  Chain-put s2 p (some m') (some h) (us ++ vs) none p_out
                      (Chain-put s1 h (some n') (some h) (us ++ vs) none out rest),
                ),
              ),
              IsPool-put s2 p m (some m') at_p (IsPool-put s1 h n (some n') at sides.ready),
            ),
          )

  -- The entries of a cache that is in order, from the most recently used on.
  abbrev pub IsCache : Store (LruEntry V) → LruCache Map → List (Ptr × Keyed V) → Type 0
  IsCache s c xs =
      (c.head ≡ first xs none)
      × (c.tail ≡ last_of xs none)
      × Chain s.cell none xs none
      × IsPool s.cell s.pool

  make_head-Leads :
      (s : Store (LruEntry V)) (c : LruCache Map) (us vs : List (Ptr × Keyed V)) (p : Ptr)
      (v : Keyed V)
      → IsCache s c (us ++ (p, v) ∷ vs)
      → (c' : LruCache Map) × (s' : Store (LruEntry V)) × (make_head c p s ≡ done c' s')
        × Leads c c' s' (last_of us none) ((p, v) ∷ us ++ vs)
  unfolding make_head
  make_head-Leads s c [] vs p v (head, tail, chain, pool) =
      (c, s, at_head, (head, refl, refl, chain, pool))
    where
      at_head : make_head c p s ≡ done c s
      at_head = let e : (p == p) ≡ true = ground arith in rw (make_head, head, e) refl
  make_head-Leads s c ((h, w) ∷ us) vs p v (head, tail, chain, pool) =
      make_head_lem s c h w us vs p v head chain pool

module _ {K V Map : Type 0} (maps : MapOps K Map) where
  -- `get` of a key in a cache that is in order returns the value of its entry, and puts the entry
  -- before the others, which keep their order. It leaves the tail of the cache and the backward link of
  -- the entry as they were: after `get` of the last entry, that entry is the head and the tail.
  pub get_lem :
      (s : Store (LruEntry V)) (c : LruCache Map) (key : K) (us vs : List (Ptr × Keyed V)) (p : Ptr)
      (v : Keyed V)
      → IsCache s c (us ++ (p, v) ∷ vs)
      → maps.lookup c.map key ≡ some p
      → (c' : LruCache Map) × (s' : Store (LruEntry V)) × (get maps c key s
          ≡ done (c', some v.value) s')
        × Leads c c' s' (last_of us none) ((p, v) ∷ us ++ vs)
  unfolding get
  get_lem s c key us vs p v ok found = moved (make_head-Leads s c us vs p v ok)
    where
      moved :
          (c' : LruCache Map) × (s' : Store (LruEntry V)) × (make_head c p s ≡ done c' s')
            × Leads c c' s' (last_of us none) ((p, v) ∷ us ++ vs)
          → (c' : LruCache Map) × (s' : Store (LruEntry V)) × (get maps c key s
              ≡ done (c', some v.value) s')
            × Leads c c' s' (last_of us none) ((p, v) ∷ us ++ vs)
      moved (c', s', run, (head, tail, map, (at, out, rest), pool)) = (
        c',
        s',
        rw (get, found, run, load_lem s' p (node v (last_of us none) (first (us ++ vs) none)) at)
            refl,
        (head, tail, map, (at, out, rest), pool),
      )
