-- ===== src/SkipList/Sorted.antt =====
-- What a skip list stands for: its nodes in the order of level 0, by ascending keys.
use am_kv.Prelude.{
  ℕ, ◌-◌, ◌<◌, ◌≤◌, ◌≡◌, refl, sym, ap, subst, arith, true, false, if◌then◌else◌, List, [], ◌∷◌,
  ◌++◌, Bytes, All, inl, inr, Bool-cases, length, length-append, Returns,
}
use am_kv.Comparator.{Comparator, Laws, less}
use am_kv.SkipList.{Ptr, head, SkipList, Found, find_greater_or_equal}
use am_kv.SkipList.Shape.{at_level, Linked}
use am_kv.SkipList.Searching.{Finds, search-Finds}

module _ (c : Comparator) (laws : Laws c) where
  -- Each key is less than all behind it.
  abbrev pub Ascending : (Ptr → Bytes) → List Ptr → Type 0
  Ascending key [] = Unit
  Ascending key (p ∷ ps) = All (λ q. less c (key p) (key q) ≡ true) ps × Ascending key ps

  -- A node that is allocated, not the head, and no higher than the list.
  abbrev pub IsNode : SkipList → Ptr → Type 0
  IsNode s p = (0 < p) × (p < s.fresh) × (0 < s.height p) × (s.height p ≤ s.max_height)

  pub record Represents (s : SkipList) (ns : List Ptr) : Type 0 where
    pub linked : (i : ℕ) → i < 12 → Linked (s.next i) (at_level s.height i (head ∷ ns))
    pub ascending : Ascending s.key ns
    pub nodes : All (IsNode s) ns
    pub head_height : s.height head ≡ 12
    pub some_level : 0 < s.max_height
    pub low : s.max_height ≤ 12
    pub few : length ns < s.fresh

  -- The nodes before a key, and those from it on.
  unfoldable pub before : (Ptr → Bytes) → Bytes → List Ptr → List Ptr
  before key t [] = []
  before key t (p ∷ ps) = if less c (key p) t then p ∷ before key t ps else []

  unfoldable pub from : (Ptr → Bytes) → Bytes → List Ptr → List Ptr
  from key t [] = []
  from key t (p ∷ ps) = if less c (key p) t then from key t ps else p ∷ ps

  module _ (key : Ptr → Bytes) (t : Bytes) where
    pub before-from : (ns : List Ptr) → before key t ns ++ from key t ns ≡ ns
    unfolding before from
    before-from [] = refl
    before-from (p ∷ ps) = elim (Bool-cases (less c (key p) t)) [
      | inl e ↦ rw (e, before-from ps)
      | inr e ↦ rw e
    ]

    pub All-before : (ns : List Ptr) → All (λ q. less c (key q) t ≡ true) (before key t ns)
    unfolding before
    All-before [] = tt
    All-before (p ∷ ps) = elim (Bool-cases (less c (key p) t)) [
      | inl e ↦ rw e (e, All-before ps)
      | inr e ↦ rw e tt
    ]

    -- Behind a key that is not less, none is.
    not_less_behind :
        (p : Ptr) (ps : List Ptr)
        → less c (key p) t ≡ false
        → All (λ q. less c (key p) (key q) ≡ true) ps
        → All (λ q. less c (key q) t ≡ false) ps
    not_less_behind p [] e h = tt
    not_less_behind p (q ∷ ps) e h = (
      elim (Bool-cases (less c (key q) t)) [
        | inl f ↦ cc (laws.less_trans (key p) (key q) t h.0 f)
        | inr f ↦ f
      ],
      not_less_behind p ps e h.1,
    )

    pub All-from :
        (ns : List Ptr) → Ascending key ns → All (λ q. less c (key q) t ≡ false) (from key t ns)
    unfolding from
    All-from [] h = tt
    All-from (p ∷ ps) h = elim (Bool-cases (less c (key p) t)) [
      | inl e ↦ rw e (All-from ps h.1)
      | inr e ↦ rw e (e, not_less_behind p ps e h.0)
    ]

  module _ (s : SkipList) (ns : List Ptr) (r : Represents s ns) (t : Bytes) where
    cut-Linked :
        (i : ℕ)
        → i < 12
        → Linked (s.next i) (at_level s.height i ((head ∷ before s.key t ns) ++ from s.key t ns))
    cut-Linked i h =
        subst (λ l. Linked (s.next i) (at_level s.height i (head ∷ l)))
          (sym (before-from s.key t ns)) (r.linked i h)

    -- What the search for a key finds in the list that is represented.
    abbrev pub FindsKey : (ℕ → Ptr) → Found → Type 0
    FindsKey = Finds s (before s.key t ns) (from s.key t ns) (s.max_height - 1)

    pub find_greater_or_equal-Finds :
        (prev : ℕ → Ptr) → Returns (FindsKey prev) (find_greater_or_equal c prev t s)
    unfolding find_greater_or_equal
    find_greater_or_equal-Finds prev =
        search-Finds s (λ q. less c (s.key q) t) (before s.key t ns) (from s.key t ns) cut-Linked
          (All-from s.key t ns r.ascending) (All-before s.key t ns) r.head_height r.low r.some_level
          (omega (
            arith,
            r.few,
            ap length (before-from s.key t ns),
            length-append (before s.key t ns) (from s.key t ns),
          ))
          prev
