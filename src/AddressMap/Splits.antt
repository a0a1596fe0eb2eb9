-- ===== src/AddressMap/Splits.antt =====
-- The entry that `range(x..).next()` finds, with the entries below and above it.
use vanadinite.Prelude.{
  ℕ, ◌-◌, ◌<◌, ◌≤◌, ◌^◌, ◌≡◌, ◌≢◌, inl, inr, refl, sym, ap, none, some, [], ◌∷◌, ◌++◌, leb, arith,
  Bool-cases,
}
use vanadinite.BTreeMap.{insert, first_from}
use vanadinite.Paging.Virtual.{unchecked_before}
use vanadinite.AddressMap.{AddressMap, AddressRegion}
use vanadinite.AddressMap.Partition.{KeyFits, Tiles, KeysBelow}

pub record Split (top lo hi x key : ℕ) (old : AddressRegion) (m : AddressMap) : Type 0 where
  pub pre : AddressMap
  pub post : AddressMap
  pub parts : m ≡ pre ++ (key, old) ∷ post
  pub pre_tiles : Tiles top lo old.span.start pre
  pub proper : old.span.start < old.span.end
  pub fits : KeyFits top key old
  pub post_tiles : Tiles top old.span.end hi post
  pub below : KeysBelow x pre
  pub reached : x ≤ key
  pub covers : lo ≤ x → old.span.start ≤ x

pub Split-first_from :
    (top lo hi x key : ℕ) (old : AddressRegion) (m : AddressMap)
    → Tiles top lo hi m
    → first_from x m ≡ some (key, old)
    → Split top lo hi x key old m
unfolding first_from
Split-first_from top lo hi x key old [] t e = absurd (ground arith)
Split-first_from top lo hi x key old ((j, r) ∷ m) (s, p, k, t) e = elim (Bool-cases (leb x j)) [
  | inl here ↦
      let key_eq : j ≡ key = ground arith in
      let old_eq : r ≡ old = ground arith in
      rw (← key_eq, ← old_eq)
        (record {
          pre = [];
          post = m;
          parts = refl;
          pre_tiles = sym s;
          proper = omega arith;
          fits = k;
          post_tiles = t;
          below = tt;
          reached = ground arith;
          covers = λ h. omega arith;
        })
  | inr later ↦
      let rest = Split-first_from top r.span.end hi x key old m t (ground arith) in
      let past : j < x = ground arith in
      record {
        pre = (j, r) ∷ rest.pre;
        post = rest.post;
        parts = ap (λ n. (j, r) ∷ n) rest.parts;
        pre_tiles = (s, p, k, rest.pre_tiles);
        proper = rest.proper;
        fits = rest.fits;
        post_tiles = rest.post_tiles;
        below = (past, rest.below);
        reached = rest.reached;
        covers = λ h. rest.covers (omega arith);
      }
]

-- An insertion above an entry leaves it and what is below it.
pub insert_past :
    (i j : ℕ) (w v : AddressRegion) (m n : AddressMap)
    → KeysBelow j m
    → i < j
    → insert j v (m ++ (i, w) ∷ n) ≡ m ++ (i, w) ∷ insert j v n
unfolding insert
insert_past i j w v [] n b h = ground arith
insert_past i j w v ((key, r) ∷ m) n b h = ground (arith, insert_past i j w v m n b.1 h)

pub before_lem : (x : ℕ) → 0 < x → x < 2 ^ 64 → unchecked_before x ≡ x - 1
unfolding unchecked_before
before_lem x p h = omega arith

-- Entries above everything found: the search that fails.
pub first_from-none :
    (top lo hi x : ℕ) (m : AddressMap) → Tiles top lo hi m → lo ≤ x → x < hi → first_from x m ≢ none
unfolding first_from
first_from-none top lo hi x [] t h lt = absurd (omega arith)
first_from-none top lo hi x ((j, r) ∷ m) (s, p, k, t) h lt = elim (Bool-cases (leb x j)) [
  | inl here ↦ λ e. ground arith
  | inr later ↦ λ e. first_from-none top r.span.end hi x m t (ground arith) lt (ground arith)
]
