-- ===== src/AddressMap/Lower.antt =====
-- The lower loop of `AddressMap::free` where it is right
-- (src/kernel/vanadinite/src/mem/manager/address_map.rs).
use vanadinite.Prelude.{
  ℕ, zero, suc, ◌<◌, ◌≤◌, ◌≡◌, ◌⊎◌, inl, inr, refl, false, [], ◌∷◌, ◌++◌, is_none, arith, length,
  Bool-cases,
}
use vanadinite.AddressMap.{AddressMap, AddressRegion, coalesce_below}
use vanadinite.AddressMap.Partition.{
  Tiles, owner, KeysBelow, Tiles-le, KeysFrom-of_Tiles, KeysFrom-weaken,
}
use vanadinite.AddressMap.Coalesce.{
  with_start, coalesce_below_occupied, coalesce_below_absorbs, coalesce_below_stop,
}

-- The lowest region of the map is occupied, or it reaches up to `x`.
abbrev pub LowestIsNear : ℕ → AddressMap → Type 0
LowestIsNear x [] = Unit
LowestIsNear x ((_, r) ∷ m) = (is_none r.region ≡ false) ⊎ (x ≤ r.span.end)

-- What the lower loop leaves of the part below.
pub record Lowered (top lo fuel : ℕ) (r : AddressRegion) (pre post : AddressMap) : Type 0 where
  pub rest : AddressMap
  pub limit : ℕ
  pub returns : coalesce_below fuel (pre ++ post) r ≡ (rest ++ post, with_start r limit)
  pub rest_tiles : Tiles top lo limit rest
  pub shrinks : limit ≤ r.span.start
  pub owners : (a : ℕ) → owner a rest ≡ owner a pre

pub lower :
    (top lo hi fuel key : ℕ) (r : AddressRegion) (pre post : AddressMap)
    → Tiles top lo r.span.start pre
    → KeysBelow r.span.start pre
    → r.span.start < r.span.end
    → Tiles top r.span.end hi post
    → LowestIsNear r.span.start (pre ++ (key, r) ∷ post)
    → length (pre ++ post) ≤ fuel
    → Lowered top lo fuel r pre post
lower top lo hi fuel key r [] post t low p u near f = record {
  rest = [];
  limit = r.span.start;
  returns = coalesce_below_stop fuel r post (
      KeysFrom-weaken r.span.start r.span.end post (omega arith)
        (KeysFrom-of_Tiles top r.span.end hi post u));
  rest_tiles = t;
  shrinks = omega arith;
  owners = λ a. refl;
}
lower top lo hi zero key r ((k0, e) ∷ pre) post (s, q, k, t) low p u near f = absurd (omega arith)
lower top lo hi (suc fuel) key r ((k0, e) ∷ pre) post (s, q, k, t) low p u (inl occ) f = record {
  rest = (k0, e) ∷ pre;
  limit = r.span.start;
  returns = coalesce_below_occupied (suc fuel) k0 e r (pre ++ post) occ;
  rest_tiles = (s, q, k, t);
  shrinks = omega arith;
  owners = λ a. refl;
}
lower top lo hi (suc fuel) key r ((k0, e) ∷ ((k1, e1) ∷ pre)) post (s, q, k, t) low p u (inr near)
      f =
    absurd (omega (arith, Tiles-le top e1.span.end r.span.start pre t.3))
lower top lo hi (suc fuel) key r ((k0, e) ∷ []) post (s, q, k, t) low p u (inr near) f =
    elim (Bool-cases (is_none e.region)) [
      | inl vac ↦ record {
        rest = [];
        limit = lo;
        returns =
            coalesce_below_absorbs lo fuel k0 e r post s
              (KeysFrom-weaken lo r.span.end post (omega arith)
                (KeysFrom-of_Tiles top r.span.end hi post u))
              vac low.0;
        rest_tiles = refl;
        shrinks = omega arith;
        owners = λ a. ground arith;
      }
      | inr occ ↦ record {
        rest = (k0, e) ∷ [];
        limit = r.span.start;
        returns = coalesce_below_occupied (suc fuel) k0 e r post occ;
        rest_tiles = (s, q, k, t);
        shrinks = omega arith;
        owners = λ a. refl;
      }
    ]
