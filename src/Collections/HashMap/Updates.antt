-- ===== src/Collections/HashMap/Updates.antt =====
-- A write to the slot where the search for its key ends
-- (src/shared/collections/src/hash_map/mod.rs).
use mathlib.Core.Path.{subst}
use vanadinite.Prelude.{
  ℕ, zero, suc, ◌<◌, ◌≡◌, ◌⊎◌, inl, inr, refl, sym, ap, ◌∙◌, Bool-cases, true, false, none, some,
  List, [], ◌∷◌, ◌==◌, if◌then◌else◌, arith, length, set, length-set,
}
use vanadinite.Collections.HashMap.Slots.{
  Key, Slot, vacant, occupied, occupied_at, read, occupied_count,
}
use vanadinite.Collections.HashMap.Searches.{slot_of, read-set}
use vanadinite.Collections.HashMap.Paths.{search-match}
use vanadinite.Collections.HashMap.Contents.{
  contents, Reachable, Lacks, Stores, contents-cases, Lacks-contents, contents-at,
}
use vanadinite.Collections.HashMap.{slot_for_key}

module _ {K V : Type 0} where
  pub count-set-vacant :
      (slots : List (Slot K V)) (i : ℕ) (k : K) (v : V)
      → i < length slots
      → read slots i ≡ vacant
      → occupied_count (set slots i (occupied k v)) ≡ suc (occupied_count slots)
  count-set-vacant [] i k v small at = absurd (omega arith)
  count-set-vacant (vacant ∷ slots) zero k v small at = refl
  count-set-vacant (occupied l w ∷ slots) zero k v small at = absurd (ground arith)
  count-set-vacant (vacant ∷ slots) (suc i) k v small at =
      count-set-vacant slots i k v (omega arith) at
  count-set-vacant (occupied l w ∷ slots) (suc i) k v small at =
      ap suc (count-set-vacant slots i k v (omega arith) at)

  pub count-set_occupied :
      (slots : List (Slot K V)) (i : ℕ) (k l : K) (v w : V)
      → read slots i ≡ occupied l w
      → occupied_count (set slots i (occupied k v)) ≡ occupied_count slots
  count-set_occupied [] i k l v w at = absurd (ground arith)
  count-set_occupied (vacant ∷ slots) zero k l v w at = absurd (ground arith)
  count-set_occupied (occupied l' w' ∷ slots) zero k l v w at = refl
  count-set_occupied (vacant ∷ slots) (suc i) k l v w at = count-set_occupied slots i k l v w at
  count-set_occupied (occupied l' w' ∷ slots) (suc i) k l v w at =
      ap suc (count-set_occupied slots i k l v w at)

  pub read-set_other :
      (slots : List (Slot K V)) (i p : ℕ) (s : Slot K V)
      → i < length slots
      → (i == p) ≡ false
      → read (set slots i s) p ≡ read slots p
  read-set_other slots i p s small other = read-set slots i p s small ∙ rw other refl

  pub read-set_self :
      (slots : List (Slot K V)) (i : ℕ) (s : Slot K V)
      → i < length slots
      → read (set slots i s) i ≡ s
  read-set_self slots i s small =
      let same : (i == i) ≡ true = ground arith in read-set slots i i s small ∙ rw same refl

module _ {K V : Type 0} (keys : Key K) (slots : List (Slot K V)) (i : ℕ) (key : K) (v : V)
    (reachable : Reachable keys slots) (small : i < length slots)
    (ends : slot_of (slot_for_key keys slots key) ≡ some i)
    (fits : (k : K) (w : V) → read slots i ≡ occupied k w → keys.eq k key ≡ true) where
  abbrev written : List (Slot K V)
  written = set slots i (occupied key v)

  passes :
      (j : K) (p : ℕ) (k : K) (w : V)
      → read slots p ≡ occupied k w
      → keys.eq k j ≡ false
      → (k' : K) × (w' : V) × (read written p ≡ occupied k' w') × (keys.eq k' j ≡ false)
  passes j p k w at other = elim (Bool-cases (i == p)) [
    | inr apart ↦ (k, w, read-set_other slots i p _ small apart ∙ at, other)
    | inl here ↦
        let place : i ≡ p = ground arith in
        let same = fits k w (ap (λ (n : ℕ). read slots n) place ∙ at) in
        (
          key,
          v,
          ap (λ (n : ℕ). read written n) (sym place) ∙ read-set_self slots i _ small,
          sym (keys.eq_trans k key j same) ∙ other,
        )
  ]

  search_kept :
      (j : K) (p : ℕ) (k : K) (w : V)
      → slot_of (slot_for_key keys slots j) ≡ some p
      → read written p ≡ occupied k w
      → keys.eq k j ≡ true
      → slot_for_key keys written j ≡ occupied_at p
  unfolding slot_for_key
  search_kept j p k w at_end at same =
      search-match slots written (keys.hash j) (λ l _. keys.eq l j) (λ l _. keys.eq l j)
        (length-set slots i _) (passes j) p k w at_end at same

  key_inj : (k l : K) (w u : V) → occupied k w ≡ occupied l u → k ≡ l
  key_inj k l w u e = ground arith

  pub set-Reachable : Reachable keys written
  set-Reachable p k w at = elim (Bool-cases (i == p)) [
    | inr apart ↦
        let before = sym (read-set_other slots i p _ small apart) ∙ at in
        search_kept k p k w (ap slot_of (reachable p k w before)) at (keys.eq_refl k)
    | inl here ↦
        let place : i ≡ p = ground arith in
        let now =
          sym (read-set_self slots i (occupied key v) small)
          ∙ ap (λ (n : ℕ). read written n) place
          ∙ at in
        subst (λ l. slot_for_key keys written l ≡ occupied_at p) (key_inj key k v w now)
          (search_kept key p k w (ends ∙ ap some place) at
            (ap (λ l. keys.eq l key) (sym (key_inj key k v w now)) ∙ keys.eq_refl key))
  ]

  pub contents-set :
      (j : K) → contents keys written j ≡ (if keys.eq key j then some v else contents keys slots j)
  contents-set j = elim (Bool-cases (keys.eq key j)) [
    | inl same ↦
        contents-at keys written j set-Reachable i key v (read-set_self slots i _ small) same
        ∙ rw same refl
    | inr other ↦ by_cases other (contents-cases keys slots j) ∙ rw other refl
  ]
    where
      lacks : keys.eq key j ≡ false → Lacks keys slots j → Lacks keys written j
      lacks other l p k w at = elim (Bool-cases (i == p)) [
        | inr apart ↦ l p k w (sym (read-set_other slots i p _ small apart) ∙ at)
        | inl here ↦
            let place : i ≡ p = ground arith in
            let now =
              sym (read-set_self slots i (occupied key v) small)
              ∙ ap (λ (n : ℕ). read written n) place
              ∙ at in
            subst (λ x. keys.eq x j ≡ false) (key_inj key k v w now) other
      ]

      stays : keys.eq key j ≡ false → (s : Stores keys slots j) → (i == s.index) ≡ false
      stays other s = elim (Bool-cases (i == s.index)) [
        | inr apart ↦ apart
        | inl here ↦
            let place : i ≡ s.index = ground arith in
            let same = fits s.key s.value (ap (λ (n : ℕ). read slots n) place ∙ s.at) in
            let clash : true ≡ false = sym s.same ∙ keys.eq_trans s.key key j same ∙ other in
            absurd (ground arith)
      ]

      by_cases :
          keys.eq key j ≡ false
          → ((contents keys slots j ≡ none) × Lacks keys slots j) ⊎ Stores keys slots j
          → contents keys written j ≡ contents keys slots j
      by_cases other (inl (e, l)) = Lacks-contents keys written j (lacks other l) ∙ sym e
      by_cases other (inr s) =
          contents-at keys written j set-Reachable s.index s.key s.value
            (read-set_other slots i s.index _ small (stays other s) ∙ s.at) s.same
          ∙ sym s.found
