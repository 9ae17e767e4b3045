-- ===== src/SkipList/Shape.antt =====
-- The lists that the pointers of a skip list spell out, level by level.
use am_kv.Prelude.{
  ℕ, ◌≡◌, refl, ap, true, false, ltb, if◌then◌else◌, List, [], ◌∷◌, ◌++◌, All, Option, none, some,
  ◌⊎◌, inl, inr, Bool-cases,
}
use am_kv.SkipList.{Ptr, head}

-- The nodes that have a pointer at a level.
unfoldable pub at_level : (Ptr → ℕ) → ℕ → List Ptr → List Ptr
at_level height i [] = []
at_level height i (p ∷ ps) =
    if ltb i (height p) then p ∷ at_level height i ps else at_level height i ps

abbrev pub first : List Ptr → Option Ptr
first [] = none
first (p ∷ ps) = some p

-- The pointers lead from each node to the next, and from the last nowhere.
abbrev pub Linked : (Ptr → Option Ptr) → List Ptr → Type 0
Linked next [] = Unit
Linked next (p ∷ ps) = (next p ≡ first ps) × Linked next ps

-- The last node; the head if there is none.
abbrev pub last_of : List Ptr → Ptr
last_of [] = head
last_of (p ∷ []) = p
last_of (p ∷ q ∷ ps) = last_of (q ∷ ps)

pub last_of-snoc : (ps : List Ptr) (x : Ptr) → last_of (ps ++ (x ∷ [])) ≡ x
last_of-snoc [] x = refl
last_of-snoc (p ∷ []) x = refl
last_of-snoc (p ∷ q ∷ ps) x = last_of-snoc (q ∷ ps) x

pub Linked-suffix :
    (next : Ptr → Option Ptr) (ps qs : List Ptr) → Linked next (ps ++ qs) → Linked next qs
Linked-suffix next [] qs h = h
Linked-suffix next (p ∷ ps) qs h = Linked-suffix next ps qs h.1

module _ (height : Ptr → ℕ) (i : ℕ) where
  pub at_level-append :
      (ps qs : List Ptr)
      → at_level height i (ps ++ qs) ≡ at_level height i ps ++ at_level height i qs
  unfolding at_level
  at_level-append [] qs = refl
  at_level-append (p ∷ ps) qs = elim (Bool-cases (ltb i (height p))) [
    | inl e ↦ rw (e, at_level-append ps qs)
    | inr e ↦ rw (e, at_level-append ps qs)
  ]

  pub at_level-taller :
      (ps : List Ptr) (x : Ptr) (qs : List Ptr)
      → ltb i (height x) ≡ true
      → at_level height i (ps ++ (x ∷ qs)) ≡ at_level height i ps ++ (x ∷ at_level height i qs)
  unfolding at_level
  at_level-taller ps x qs e = rw (at_level-append ps (x ∷ qs), e)

  pub at_level-lower :
      (ps : List Ptr) (x : Ptr) (qs : List Ptr)
      → ltb i (height x) ≡ false
      → at_level height i (ps ++ (x ∷ qs)) ≡ at_level height i (ps ++ qs)
  unfolding at_level
  at_level-lower ps x qs e = rw (at_level-append ps (x ∷ qs), e, at_level-append ps qs)

  -- Either no node has a pointer at the level, or there is a first one.
  pub first_taller :
      (ps : List Ptr)
      → (at_level height i ps ≡ [])
        ⊎ ((us : List Ptr) × (q : Ptr) × (vs : List Ptr) × (ps ≡ us ++ (q ∷ vs))
            × (at_level height i us ≡ [])
            × (ltb i (height q) ≡ true))
  unfolding at_level
  first_taller [] = inl refl
  first_taller (p ∷ ps) = elim (Bool-cases (ltb i (height p))) [
    | inl e ↦ inr ([], p, ps, refl, refl, e)
    | inr e ↦ elim (first_taller ps) [
      | inl none_left ↦ inl (rw e none_left)
      | inr (us, q, vs, split, low, tall) ↦
          inr (p ∷ us, q, vs, ap (λ t. p ∷ t) split, rw e low, tall)
    ]
  ]

  pub All-at_level {κ} :
      (P : Ptr → Type κ) (ps : List Ptr) → All P ps → All P (at_level height i ps)
  unfolding at_level
  All-at_level P [] h = tt
  All-at_level P (p ∷ ps) h = elim (Bool-cases (ltb i (height p))) [
    | inl e ↦ rw e (h.0, All-at_level P ps h.1)
    | inr e ↦ rw e (All-at_level P ps h.1)
  ]
