-- ===== src/AddressMap/Lookup.antt =====
-- A new map, and what `find` and the two iterators read from a partition
-- (src/kernel/vanadinite/src/mem/manager/address_map.rs).
use vanadinite.Prelude.{
  ℕ, ◌<◌, ◌≤◌, ◌^◌, ◌≡◌, inl, inr, refl, none, some, [], ◌∷◌, leb, is_some, if◌then◌else◌, arith,
  Bool-cases,
}
use vanadinite.BTreeMap.{first_from}
use vanadinite.AddressMap.{
  AddressMap, AddressRegion, AddressSpace, userspace, kernelspace, address_range, new, find,
}
use vanadinite.AddressMap.Partition.{Tiles, IsPartition, owner, Tiles-le}

-- A new map of either space partitions its address range, and nothing in it is owned.
pub new-IsPartition :
    (space : AddressSpace)
    → let range = address_range space in
      IsPartition range.start range.end (new space)
      × ((a : ℕ) → owner a (new space) ≡ none)
      × (range.end < 2 ^ 64)
unfolding new
new-IsPartition userspace =
    ((refl, omega arith, inr (refl, refl, refl), refl), λ a. ground arith, omega arith)
new-IsPartition kernelspace =
    ((refl, omega arith, inr (refl, refl, refl), refl), λ a. ground arith, omega arith)

find-Tiles :
    (top lo hi : ℕ) (m : AddressMap) (a : ℕ)
    → Tiles top lo hi m
    → lo ≤ a
    → a < hi
    → hi ≤ top
    → (r : AddressRegion) × (find m a ≡ some r)
      × (r.span.start ≤ a)
      × (a < r.span.end)
      × (owner a m ≡ (if is_some r.region then some r else none))
unfolding find first_from
find-Tiles top lo hi [] a t above inside small = absurd (omega arith)
find-Tiles top lo hi ((key, r) ∷ m) a (s, p, k, t) above inside small =
    elim (Bool-cases (leb a key)) [
      | inl here ↦
          let top_le = Tiles-le top r.span.end hi m t in
          let within : a < r.span.end = ground arith in
          (r, rw (here, find) refl, omega arith, within, ground arith)
      | inr later ↦
          let past : r.span.end ≤ a = ground arith in
          let (r', found, first, last, own) =
            find-Tiles top r.span.end hi m a t past inside small in
          (r', ground arith, first, last, ground arith)
    ]

-- In a partition, `find` returns for each address of the range the region whose span holds it; the
-- address is owned exactly if that region is occupied, and then by it.
pub find_lem :
    (lo hi : ℕ) (m : AddressMap) (a : ℕ)
    → IsPartition lo hi m
    → lo ≤ a
    → a < hi
    → (r : AddressRegion) × (find m a ≡ some r)
      × (r.span.start ≤ a)
      × (a < r.span.end)
      × (owner a m ≡ (if is_some r.region then some r else none))
find_lem lo hi m a t above inside =
    let whole : hi ≤ hi = omega arith in find-Tiles hi lo hi m a t above inside whole
