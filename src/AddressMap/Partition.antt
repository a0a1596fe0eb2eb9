-- ===== src/AddressMap/Partition.antt =====
-- The representation invariant of an address map and the view of it as a function of addresses.
use vanadinite.Prelude.{
  ℕ, ◌+◌, ◌<◌, ◌≤◌, ◌≡◌, ◌⊎◌, refl, ◌&&◌, Option, none, some, [], ◌∷◌, ◌++◌, leb, ltb, is_some,
  if◌then◌else◌, arith,
}
use vanadinite.BTreeMap.{insert, remove, get, first_from}
use vanadinite.AddressMap.{AddressMap, AddressRegion}

-- A key is the last address of its region; it may be one more for an unoccupied region at the top.
abbrev pub KeyFits : ℕ → ℕ → AddressRegion → Type 0
KeyFits top key r =
    (key + 1 ≡ r.span.end) ⊎ ((key ≡ r.span.end) × (r.span.end ≡ top) × (r.region ≡ none))

-- The spans of the regions tile the addresses from `lo` to `hi`, in the order of the keys.
abbrev pub Tiles : ℕ → ℕ → ℕ → AddressMap → Type 0
Tiles top lo hi [] = lo ≡ hi
Tiles top lo hi ((key, r) ∷ m) =
    (r.span.start ≡ lo) × (lo < r.span.end) × KeyFits top key r × Tiles top r.span.end hi m

-- The map partitions the addresses from `lo` to `hi`.
abbrev pub IsPartition : ℕ → ℕ → AddressMap → Type 0
IsPartition lo hi m = Tiles hi lo hi m

-- The region that holds an address.
abbrev pub region_at : ℕ → AddressMap → Option AddressRegion
region_at a [] = none
region_at a ((_, r) ∷ m) = if leb r.span.start a && ltb a r.span.end then some r else region_at a m

-- The region that holds an address, if it is occupied.
abbrev pub owner : ℕ → AddressMap → Option AddressRegion
owner a [] = none
owner a ((_, r) ∷ m) =
    if leb r.span.start a && ltb a r.span.end
    then (if is_some r.region then some r else none)
    else owner a m

abbrev pub KeysBelow : ℕ → AddressMap → Type 0
KeysBelow x [] = Unit
KeysBelow x ((key, _) ∷ m) = (key < x) × KeysBelow x m

abbrev pub KeysFrom : ℕ → AddressMap → Type 0
KeysFrom x [] = Unit
KeysFrom x ((key, _) ∷ m) = (x ≤ key) × KeysFrom x m

pub Tiles-le : (top lo hi : ℕ) (m : AddressMap) → Tiles top lo hi m → lo ≤ hi
Tiles-le top lo hi [] t = omega arith
Tiles-le top lo hi ((key, r) ∷ m) (s, p, k, t) = omega (arith, Tiles-le top r.span.end hi m t)

pub Tiles-append :
    (top lo mid hi : ℕ) (m n : AddressMap)
    → Tiles top lo mid m
    → Tiles top mid hi n
    → Tiles top lo hi (m ++ n)
Tiles-append top lo mid hi [] n t u = rw t u
Tiles-append top lo mid hi ((key, r) ∷ m) n (s, p, k, t) u =
    (s, p, k, Tiles-append top r.span.end mid hi m n t u)

pub KeysFrom-weaken : (x y : ℕ) (m : AddressMap) → x ≤ y → KeysFrom y m → KeysFrom x m
KeysFrom-weaken x y [] h k = tt
KeysFrom-weaken x y ((key, _) ∷ m) h k = (omega arith, KeysFrom-weaken x y m h k.1)

pub KeysFrom-of_Tiles : (top lo hi : ℕ) (m : AddressMap) → Tiles top lo hi m → KeysFrom lo m
KeysFrom-of_Tiles top lo hi [] t = tt
KeysFrom-of_Tiles top lo hi ((key, r) ∷ m) (s, p, k, t) = (
  omega arith,
  KeysFrom-weaken lo r.span.end m (omega arith) (KeysFrom-of_Tiles top r.span.end hi m t),
)

pub KeysFrom-append : (x : ℕ) (m n : AddressMap) → KeysFrom x m → KeysFrom x n → KeysFrom x (m ++ n)
KeysFrom-append x [] n h k = k
KeysFrom-append x ((key, _) ∷ m) n h k = (h.0, KeysFrom-append x m n h.1 k)

-- Below the top, the keys of a tiling lie below its end.
pub KeysBelow-of_Tiles :
    (top lo hi : ℕ) (m : AddressMap) → Tiles top lo hi m → hi < top → KeysBelow hi m
KeysBelow-of_Tiles top lo hi [] t h = tt
KeysBelow-of_Tiles top lo hi ((key, r) ∷ m) (s, p, k, t) h =
    (omega (arith, Tiles-le top r.span.end hi m t), KeysBelow-of_Tiles top r.span.end hi m t h)

pub KeysBelow-weaken : (x y : ℕ) (m : AddressMap) → x ≤ y → KeysBelow x m → KeysBelow y m
KeysBelow-weaken x y [] h k = tt
KeysBelow-weaken x y ((key, _) ∷ m) h k = (omega arith, KeysBelow-weaken x y m h k.1)

pub owner_outside :
    (top lo hi a : ℕ) (m : AddressMap) → Tiles top lo hi m → (a < lo) ⊎ (hi ≤ a) → owner a m ≡ none
owner_outside top lo hi a [] t h = refl
owner_outside top lo hi a ((key, r) ∷ m) (s, p, k, t) h =
    ground
      (arith, Tiles-le top r.span.end hi m t, owner_outside top r.span.end hi a m t (omega arith))

pub owner-append :
    (top lo hi a : ℕ) (m n : AddressMap)
    → Tiles top lo hi m
    → owner a (m ++ n) ≡ (if leb lo a && ltb a hi then owner a m else owner a n)
owner-append top lo hi a [] n t = ground arith
owner-append top lo hi a ((key, r) ∷ m) n (s, p, k, t) =
    ground (arith, Tiles-le top r.span.end hi m t, owner-append top r.span.end hi a m n t)

-- Inserting a key between those of two parts of a map.
pub insert-append :
    (j : ℕ) (v : AddressRegion) (m n : AddressMap)
    → KeysBelow j m
    → KeysFrom (j + 1) n
    → insert j v (m ++ n) ≡ m ++ (j, v) ∷ n
unfolding insert
insert-append j v [] [] b f = refl
insert-append j v [] ((key, r) ∷ n) b f = ground arith
insert-append j v ((key, r) ∷ m) n b f = ground (arith, insert-append j v m n b.1 f)

pub remove-append :
    (key : ℕ) (v : AddressRegion) (m n : AddressMap)
    → KeysBelow key m
    → remove key (m ++ (key, v) ∷ n) ≡ m ++ n
unfolding remove
remove-append key v [] n b = ground arith
remove-append key v ((j, r) ∷ m) n b = ground (arith, remove-append key v m n b.1)

pub get-append :
    (key : ℕ) (v : AddressRegion) (m n : AddressMap)
    → KeysBelow key m
    → get key (m ++ (key, v) ∷ n) ≡ some v
unfolding get
get-append key v [] n b = ground arith
get-append key v ((j, r) ∷ m) n b = ground (arith, get-append key v m n b.1)

pub first_from-append :
    (x key : ℕ) (v : AddressRegion) (m n : AddressMap)
    → KeysBelow x m
    → x ≤ key
    → first_from x (m ++ (key, v) ∷ n) ≡ some (key, v)
unfolding first_from
first_from-append x key v [] n b h = ground arith
first_from-append x key v ((j, r) ∷ m) n b h = ground (arith, first_from-append x key v m n b.1 h)

pub first_from_below : (x : ℕ) (m : AddressMap) → KeysBelow x m → first_from x m ≡ none
unfolding first_from
first_from_below x [] b = refl
first_from_below x ((j, r) ∷ m) b = ground (arith, first_from_below x m b.1)
