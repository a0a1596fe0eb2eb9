-- ===== src/AddressMap/Splice.antt =====
-- The four ways in which `AddressMap::alloc` splits an unoccupied region
-- (src/kernel/vanadinite/src/mem/manager/address_map.rs).
use vanadinite.Prelude.{
  ℕ, ◌+◌, ◌-◌, ◌<◌, ◌≤◌, ◌^◌, ◌≡◌, ap, ◌∙◌, Bool, true, false, ◌&&◌, none, some, [], ◌∷◌, ◌++◌, leb,
  ltb, ◌==◌, is_some, if◌then◌else◌, arith,
}
use vanadinite.BTreeMap.{insert}
use vanadinite.Paging.Virtual.{unchecked_before}
use vanadinite.AddressMap.{AddressMap, AddressRegion, vacant, splice}
use vanadinite.AddressMap.Partition.{
  Tiles, owner, KeysBelow, KeysFrom, KeysBelow-weaken, KeysFrom-weaken, insert-append,
}
use vanadinite.AddressMap.Splits.{insert_past, before_lem}

-- What takes the place of the old entry.
abbrev pub replacement : Bool → Bool → AddressRegion → AddressRegion → AddressMap
replacement true false old active =
    (active.span.end - 1, active)
    ∷ (
      old.span.end - 1,
      record old { span = record { start = active.span.end; end = old.span.end } },
    )
    ∷ []
replacement false true old active =
    (
      active.span.start - 1,
      record old { span = record { start = old.span.start; end = active.span.start } },
    )
    ∷ (active.span.end - 1, active)
    ∷ []
replacement true true old active = (active.span.end - 1, active) ∷ []
replacement false false old active =
    (active.span.start - 1, vacant old.span.start active.span.start)
    ∷ (active.span.end - 1, active)
    ∷ (old.span.end - 1, vacant active.span.end old.span.end)
    ∷ []

module _ (old active : AddressRegion) (free : old.region ≡ none)
    (taken : is_some active.region ≡ true) (proper : active.span.start < active.span.end)
    (first : old.span.start ≤ active.span.start) (last : active.span.end ≤ old.span.end) where
  module _ (word : old.span.end < 2 ^ 64) (pre post : AddressMap)
      (below : KeysBelow old.span.start pre) (above : KeysFrom old.span.end post) where
    -- An insertion between the two parts, at a key inside the old span.
    place :
        (e : ℕ) (v : AddressRegion) (n : AddressMap)
        → old.span.start < e
        → KeysFrom e n
        → e ≤ old.span.end
        → insert (unchecked_before e) v (pre ++ n) ≡ pre ++ (e - 1, v) ∷ n
    place e v n p f q = rw (before_lem e (omega arith) (omega arith)) (
        insert-append (e - 1) v pre n
          (KeysBelow-weaken old.span.start (e - 1) pre (omega arith) below)
          (KeysFrom-weaken (e - 1 + 1) e n (omega arith) f))

    -- The same above an entry of the old span.
    place_past :
        (i e : ℕ) (w v : AddressRegion) (n : AddressMap)
        → old.span.start < e
        → i + 1 < e
        → KeysFrom e n
        → e ≤ old.span.end
        → insert (unchecked_before e) v (pre ++ (i, w) ∷ n) ≡ pre ++ (i, w) ∷ (e - 1, v) ∷ n
    place_past i e w v n p lt f q = rw (before_lem e (omega arith) (omega arith)) (
        insert_past i (e - 1) w v pre n
          (KeysBelow-weaken old.span.start (e - 1) pre (omega arith) below) (omega arith)
        ∙ ap (λ t. pre ++ (i, w) ∷ t)
            (insert-append (e - 1) v [] n tt (KeysFrom-weaken (e - 1 + 1) e n (omega arith) f)))

    -- The same above two entries of the old span.
    place_past_two :
        (i j e : ℕ) (u w v : AddressRegion) (n : AddressMap)
        → old.span.start < e
        → i < j
        → j + 1 < e
        → KeysFrom e n
        → e ≤ old.span.end
        → insert (unchecked_before e) v (pre ++ (i, u) ∷ (j, w) ∷ n)
          ≡ pre ++ (i, u) ∷ (j, w) ∷ (e - 1, v) ∷ n
    place_past_two i j e u w v n p lt lt' f q = rw (before_lem e (omega arith) (omega arith)) (
        insert_past i (e - 1) u v pre ((j, w) ∷ n)
          (KeysBelow-weaken old.span.start (e - 1) pre (omega arith) below) (omega arith)
        ∙ ap (λ t. pre ++ (i, u) ∷ t)
            (insert_past j (e - 1) w v [] n tt (omega arith)
              ∙ ap (λ t. (j, w) ∷ t)
                  (insert-append (e - 1) v [] n tt
                    (KeysFrom-weaken (e - 1 + 1) e n (omega arith) f))))

    pub splice_lem :
        (b c : Bool)
        → (old.span.start == active.span.start) ≡ b
        → (old.span.end == active.span.end) ≡ c
        → splice b c (pre ++ post) old active ≡ pre ++ (replacement b c old active ++ post)
    unfolding splice
    splice_lem true true hb hc =
        place active.span.end active post (omega arith)
          (KeysFrom-weaken active.span.end old.span.end post last above) last
    splice_lem true false hb hc =
        let far : active.span.end < old.span.end = ground arith in
        rw
          (place old.span.end
            (record old { span = record { start = active.span.end; end = old.span.end } }) post
            (omega arith) above (omega arith))
          (place active.span.end active _ (omega arith)
            (omega arith, KeysFrom-weaken active.span.end old.span.end post last above) last)
    splice_lem false true hb hc =
        let far : old.span.start < active.span.start = ground arith in
        let above' = KeysFrom-weaken active.span.end old.span.end post last above in
        rw
          (place active.span.start
            (record old { span = record { start = old.span.start; end = active.span.start } }) post
            far (KeysFrom-weaken active.span.start active.span.end post (omega arith) above')
            (omega arith))
          (place_past (active.span.start - 1) active.span.end _ active post (omega arith)
            (omega arith) above' last)
    splice_lem false false hb hc =
        let near : old.span.start < active.span.start = ground arith in
        let far : active.span.end < old.span.end = ground arith in
        let above' = KeysFrom-weaken active.span.end old.span.end post last above in
        rw
          (
            place active.span.start (vacant old.span.start active.span.start) post near
                (KeysFrom-weaken active.span.start active.span.end post (omega arith) above')
                (omega arith),
            place_past (active.span.start - 1) active.span.end
                (vacant old.span.start active.span.start) active post (omega arith) (omega arith)
                above' last,
          )
          (place_past_two (active.span.start - 1) (active.span.end - 1) old.span.end _ _
            (vacant active.span.end old.span.end) post (omega arith) (omega arith) (omega arith)
            above (omega arith))

  pub replacement-Tiles :
      (top : ℕ) (b c : Bool)
      → (old.span.start == active.span.start) ≡ b
      → (old.span.end == active.span.end) ≡ c
      → Tiles top old.span.start old.span.end (replacement b c old active)
  replacement-Tiles top true true hb hc = ground arith
  replacement-Tiles top true false hb hc = ground arith
  replacement-Tiles top false true hb hc = ground arith
  replacement-Tiles top false false hb hc = ground arith

  -- In the old span the new region owns its own span and nothing else is owned.
  pub owner-replacement :
      (a : ℕ) (b c : Bool)
      → (old.span.start == active.span.start) ≡ b
      → (old.span.end == active.span.end) ≡ c
      → owner a (replacement b c old active)
        ≡ (if leb active.span.start a && ltb a active.span.end then some active else none)
  owner-replacement a true true hb hc = ground arith
  owner-replacement a true false hb hc = ground arith
  owner-replacement a false true hb hc = ground arith
  owner-replacement a false false hb hc = ground arith
