-- ===== src/Collections/Store.antt =====
-- Memory for nodes of one type, as the containers of src/shared/collections/src use it through raw
-- pointers. The allocator is a parameter of the state, the addresses that it will hand out in order;
-- an empty list is `AllocError`. An access to an address that holds no node is a fault.
use mathlib.Core.Path.{subst}
use vanadinite.Prelude.{
  ℕ, ◌≡◌, ◌⊎◌, inl, inr, refl, sym, ◌∙◌, Bool-cases, Bool, true, false, ◌||◌, Option, none, some,
  List, [], ◌∷◌, ◌==◌, if◌then◌else◌, arith,
}

-- `NonNull<Node<T>>`
abbrev pub Ptr : Type 0
Ptr = ℕ

pub record Store (N : Type 0) : Type 0 where
  pub cell : Ptr → Option N
  pub pool : List Ptr

pub data Run (N A : Type 0) : Type 0 where
  done : A → Store N → Run N A
  fault : Run N A
  out_of_fuel : Run N A

pub data Allocated : Type 0 where
  allocated : Allocated
  alloc_error : Allocated

-- The store after a raw write: `none` gives the address back.
abbrev pub put : {N : Type 0} → Store N → Ptr → Option N → Store N
put s p n = record s { cell = λ a. if a == p then n else s.cell a }

abbrev pub member : Ptr → List Ptr → Bool
member a [] = false
member a (p ∷ ps) = (a == p) || member a ps

abbrev pub M : Type 0 → Type 0 → Type 0
M N A = Store N → Run N A

module _ {N : Type 0} where
  abbrev pub pure : {A : Type 0} → A → M N A
  pure = done

  abbrev pub and_then : {A B : Type 0} → Run N A → (A → M N B) → Run N B
  and_then (done a s) k = k a s
  and_then fault k = fault
  and_then out_of_fuel k = out_of_fuel

  infixl 5 ◌>>=◌ ◌>>◌
  abbrev pub ◌>>=◌ : {A B : Type 0} → M N A → (A → M N B) → M N B
  m >>= k = λ s. and_then (m s) k

  abbrev pub ◌>>◌ : {A B : Type 0} → M N A → M N B → M N B
  m >> k = m >>= λ _. k

  unfoldable pub load : Ptr → M N N
  load p s = elim (s.cell p) [ none ↦ fault | some n ↦ done n s ]

  -- A write to a field of the node.
  unfoldable pub modify : Ptr → (N → N) → M N (Unit {0})
  modify p f s = elim (s.cell p) [ none ↦ fault | some n ↦ done tt (put s p (some (f n))) ]

  unfoldable pub allocate : N → M N (Option Ptr)
  allocate n s = by_pool s.pool
    where
      by_pool : List Ptr → Run N (Option Ptr)
      by_pool [] = done none s
      by_pool (p ∷ ps) =
          done (some p) (record { cell = λ a. if a == p then some n else s.cell a; pool = ps })

  unfoldable pub deallocate : Ptr → M N (Unit {0})
  deallocate p s = elim (s.cell p) [ none ↦ fault | some n ↦ done tt (put s p none) ]

  -- The addresses that the allocator will hand out are distinct and hold no node.
  abbrev pub IsPool : (Ptr → Option N) → List Ptr → Type 0
  IsPool c [] = Unit
  IsPool c (p ∷ ps) = (c p ≡ none) × (member p ps ≡ false) × IsPool c ps

  pub IsPool-frame :
      (c d : Ptr → Option N) (ps : List Ptr)
      → ((a : Ptr) → member a ps ≡ true → d a ≡ c a)
      → IsPool c ps
      → IsPool d ps
  IsPool-frame c d [] same h = tt
  IsPool-frame c d (p ∷ ps) same (free, distinct, rest) = (
    same p (ground arith) ∙ free,
    distinct,
    IsPool-frame c d ps (λ a m. same a (ground (arith, m))) rest,
  )

  pub IsPool-none :
      (c : Ptr → Option N) (ps : List Ptr) (a : Ptr) → IsPool c ps → member a ps ≡ true → c a ≡ none
  IsPool-none c [] a h m = absurd (ground arith)
  IsPool-none c (p ∷ ps) a (free, distinct, rest) m = ground (arith, IsPool-none c ps a rest)

  pub load_lem : (s : Store N) (p : Ptr) (n : N) → s.cell p ≡ some n → load p s ≡ done n s
  unfolding load
  load_lem s p n h = rw (load, h) refl

  pub modify_lem :
      (s : Store N) (p : Ptr) (n : N) (f : N → N)
      → s.cell p ≡ some n
      → modify p f s ≡ done tt (put s p (some (f n)))
  unfolding modify
  modify_lem s p n f h = rw (modify, h) refl

  pub deallocate_lem :
      (s : Store N) (p : Ptr) (n : N) → s.cell p ≡ some n → deallocate p s ≡ done tt (put s p none)
  unfolding deallocate
  deallocate_lem s p n h = rw (deallocate, h) refl

  pub dangling_load : (s : Store N) (p : Ptr) → s.cell p ≡ none → load p s ≡ fault
  unfolding load
  dangling_load s p h = rw (load, h) refl

  pub dangling_modify : (s : Store N) (p : Ptr) (f : N → N) → s.cell p ≡ none → modify p f s ≡ fault
  unfolding modify
  dangling_modify s p f h = rw (modify, h) refl

  -- A store after an allocation of `p`.
  pub record Grown (s : Store N) (n : N) (p : Ptr) (s' : Store N) : Type 0 where
    pub returns : allocate n s ≡ done (some p) s'
    pub free : s.cell p ≡ none
    pub cells : (a : Ptr) → s'.cell a ≡ (if a == p then some n else s.cell a)
    pub ready : IsPool s'.cell s'.pool

  pub allocate_lem :
      (s : Store N) (n : N)
      → IsPool s.cell s.pool
      → ((s.pool ≡ []) × (allocate n s ≡ done none s))
        ⊎ ((p : Ptr) × (s' : Store N) × Grown s n p s')
  unfolding allocate
  allocate_lem s n h = by_pool s.pool refl h
    where
      apart :
          (p : Ptr) (ps : List Ptr) (a : Ptr)
          → member p ps ≡ false
          → member a ps ≡ true
          → (if a == p then some n else s.cell a) ≡ s.cell a
      apart p ps a out m = elim (Bool-cases (a == p)) [
        | inr other ↦ rw other refl
        | inl here ↦
            let e : a ≡ p = ground arith in
            let bad : member p ps ≡ true = subst (λ k. member k ps ≡ true) e m in
            absurd (ground arith)
      ]

      by_pool :
          (ps : List Ptr)
          → s.pool ≡ ps
          → IsPool s.cell ps
          → ((s.pool ≡ []) × (allocate n s ≡ done none s))
            ⊎ ((p : Ptr) × (s' : Store N) × Grown s n p s')
      by_pool [] e h = inl (e, rw (allocate, e) refl)
      by_pool (p ∷ ps) e (free, distinct, rest) = inr (
        p,
        record { cell = λ a. if a == p then some n else s.cell a; pool = ps },
        record {
          returns = rw (allocate, e) refl;
          free = free;
          cells = λ a. refl;
          ready = IsPool-frame s.cell _ ps (λ a m. apart p ps a distinct m) rest;
        },
      )

  -- A write to an allocated node leaves the allocator ready.
  pub IsPool-put :
      (s : Store N) (p : Ptr) (n : N) (m : Option N)
      → s.cell p ≡ some n
      → IsPool s.cell s.pool
      → IsPool (put s p m).cell s.pool
  IsPool-put s p n m at h = IsPool-frame s.cell (put s p m).cell s.pool same h
    where
      same : (a : Ptr) → member a s.pool ≡ true → (put s p m).cell a ≡ s.cell a
      same a i = elim (Bool-cases (a == p)) [
        | inr other ↦ rw other refl
        | inl here ↦
            let e : a ≡ p = ground arith in
            let free : s.cell p ≡ none =
              subst (λ k. s.cell k ≡ none) e (IsPool-none s.cell s.pool a h i) in
            let clash : none ≡ some n = sym free ∙ at in absurd (ground arith)
      ]
