-- ===== src/AddressMap/Coalesce.antt =====
-- The two loops of `AddressMap::free` (src/kernel/vanadinite/src/mem/manager/address_map.rs), on a
-- map from which the freed region has been taken: `pre` below it, `post` above it.
use vanadinite.Prelude.{
  ℕ, zero, suc, ◌<◌, ◌≤◌, ◌≡◌, inl, inr, refl, ap, ◌∙◌, true, false, none, some, [], ◌∷◌, ◌++◌, ltb,
  is_none, arith, length, Bool-cases, lt→ltb,
}
use vanadinite.BTreeMap.{first_from, first_below}
use vanadinite.AddressMap.{AddressMap, AddressRegion, coalesce_below, coalesce_above}
use vanadinite.AddressMap.Partition.{
  Tiles, owner, KeysBelow, KeysFrom, Tiles-le, KeysBelow-weaken, remove-append, owner_outside,
}

abbrev pub with_start : AddressRegion → ℕ → AddressRegion
with_start r s = record r { span = record { start = s; end = r.span.end } }

abbrev pub with_end : AddressRegion → ℕ → AddressRegion
with_end r e = record r { span = record { start = r.span.start; end = e } }

-- The map is empty or its first region is occupied.
abbrev pub FirstOccupied : AddressMap → Type 0
FirstOccupied [] = Unit
FirstOccupied ((_, r) ∷ m) = is_none r.region ≡ false

-- All regions of the map are unoccupied.
abbrev pub AllVacant : AddressMap → Type 0
AllVacant [] = Unit
AllVacant ((_, r) ∷ m) = (is_none r.region ≡ true) × AllVacant m

first_from-skip :
    (x : ℕ) (m n : AddressMap) → KeysBelow x m → first_from x (m ++ n) ≡ first_from x n
unfolding first_from
first_from-skip x [] n b = refl
first_from-skip x ((j, r) ∷ m) n b = ground (arith, first_from-skip x m n b.1)

-- An unoccupied region at the front owns nothing.
ownerless :
    (top hi a key : ℕ) (e : AddressRegion) (post : AddressMap)
    → is_none e.region ≡ true
    → Tiles top e.span.end hi post
    → owner a post ≡ owner a ((key, e) ∷ post)
ownerless top hi a key e post vacant t =
    let outside : (a < e.span.end → owner a post ≡ none) =
      λ h. owner_outside top e.span.end hi a post t (inl h) in
    ground (arith, outside)

-- What the upper loop leaves: the regions that it did not absorb, and the new end. Those that it
-- absorbed are the unoccupied ones before them.
pub record Raised (top hi fuel : ℕ) (r : AddressRegion) (pre post : AddressMap) : Type 0 where
  pub rest : AddressMap
  pub limit : ℕ
  pub returns : coalesce_above fuel (pre ++ post) r ≡ (pre ++ rest, with_end r limit)
  pub rest_tiles : Tiles top limit hi rest
  pub grows : r.span.end ≤ limit
  pub stops : FirstOccupied rest
  pub owners : (a : ℕ) → owner a rest ≡ owner a post
  pub taken : AddressMap
  pub parts : post ≡ taken ++ rest
  pub taken_vacant : AllVacant taken
  pub taken_tiles : Tiles top r.span.end limit taken

-- With a round for each region above, the loop ends by its test.
pub coalesce_above_lem :
    (top hi fuel : ℕ) (r : AddressRegion) (pre post : AddressMap)
    → KeysBelow r.span.end pre
    → Tiles top r.span.end hi post
    → length post ≤ fuel
    → Raised top hi fuel r pre post
unfolding coalesce_above first_from
coalesce_above_lem top hi zero r pre [] b t f = record {
  rest = [];
  limit = r.span.end;
  returns = refl;
  rest_tiles = t;
  grows = omega arith;
  stops = tt;
  owners = λ a. refl;
  taken = [];
  parts = refl;
  taken_vacant = tt;
  taken_tiles = refl;
}
coalesce_above_lem top hi zero r pre (_ ∷ _) b t f = absurd (omega arith)
coalesce_above_lem top hi (suc fuel) r pre [] b t f = record {
  rest = [];
  limit = r.span.end;
  returns = rw (first_from-skip r.span.end pre [] b, coalesce_above) refl;
  rest_tiles = t;
  grows = omega arith;
  stops = tt;
  owners = λ a. refl;
  taken = [];
  parts = refl;
  taken_vacant = tt;
  taken_tiles = refl;
}
coalesce_above_lem top hi (suc fuel) r pre ((key, e) ∷ post) b (s, p, k, t) f =
    elim (Bool-cases (is_none e.region)) [
      | inr occupied ↦ record {
        rest = (key, e) ∷ post;
        limit = r.span.end;
        returns = rw (found, coalesce_above) (rw occupied refl);
        rest_tiles = (s, p, k, t);
        grows = omega arith;
        stops = occupied;
        owners = λ a. refl;
        taken = [];
        parts = refl;
        taken_vacant = tt;
        taken_tiles = refl;
      }
      | inl vacant ↦
          let next = with_end r e.span.end in
          let above =
            coalesce_above_lem top hi fuel next pre post
              (KeysBelow-weaken r.span.end e.span.end pre (omega arith) b) t (omega arith) in
          let last = Tiles-le top e.span.end hi post t in
          record {
            rest = above.rest;
            limit = above.limit;
            returns =
                rw (found, coalesce_above)
                  (rw
                    (
                      vacant,
                      remove-append key e pre post (KeysBelow-weaken r.span.end key pre reached b),
                    )
                    above.returns);
            rest_tiles = above.rest_tiles;
            grows = let g = above.grows in omega arith;
            stops = above.stops;
            owners = λ a. above.owners a ∙ ownerless top hi a key e post vacant t;
            taken = (key, e) ∷ above.taken;
            parts = ap (λ m. (key, e) ∷ m) above.parts;
            taken_vacant = (vacant, above.taken_vacant);
            taken_tiles = (s, p, k, above.taken_tiles);
          }
    ]
  where
    reached : r.span.end ≤ key
    reached = omega arith

    found : first_from r.span.end (pre ++ (key, e) ∷ post) ≡ some (key, e)
    found = first_from-skip r.span.end pre ((key, e) ∷ post) b ∙ ground arith

first_below-none : (x : ℕ) (m : AddressMap) → KeysFrom x m → first_below x m ≡ none
unfolding first_below
first_below-none x [] f = refl
first_below-none x ((j, r) ∷ m) f = ground arith

pub coalesce_below_stop :
    (fuel : ℕ) (r : AddressRegion) (m : AddressMap)
    → KeysFrom r.span.start m
    → coalesce_below fuel m r ≡ (m, r)
unfolding coalesce_below
coalesce_below_stop zero r m f = refl
coalesce_below_stop (suc fuel) r m f = rw (first_below-none r.span.start m f, coalesce_below) refl

-- If the lowest region is occupied, the lower loop does nothing.
pub coalesce_below_occupied :
    (fuel key : ℕ) (e r : AddressRegion) (m : AddressMap)
    → is_none e.region ≡ false
    → coalesce_below fuel ((key, e) ∷ m) r ≡ ((key, e) ∷ m, r)
unfolding coalesce_below first_below
coalesce_below_occupied zero key e r m h = refl
coalesce_below_occupied (suc fuel) key e r m h = elim (Bool-cases (ltb key r.span.start)) [
  | inl low ↦ rw (low, coalesce_below) (rw h refl)
  | inr high ↦ rw (high, coalesce_below) refl
]

-- If the lowest region is unoccupied and lies below, the lower loop absorbs it and nothing else,
-- wherever it ends: the span then begins at the bottom of the map.
pub coalesce_below_absorbs :
    (lo fuel key : ℕ) (e r : AddressRegion) (m : AddressMap)
    → e.span.start ≡ lo
    → KeysFrom lo m
    → is_none e.region ≡ true
    → key < r.span.start
    → coalesce_below (suc fuel) ((key, e) ∷ m) r ≡ (m, with_start r lo)
unfolding coalesce_below first_below
coalesce_below_absorbs lo fuel key e r m s f h low =
    rw (lt→ltb key r.span.start low, coalesce_below)
      (rw (h, remove-append key e [] m tt, s) (coalesce_below_stop fuel (with_start r lo) m f))
