-- ===== src/SkipList/Nodes.antt =====
-- Lists of nodes: how they change with what they are read by, and with a node put between two.
use am_kv.Prelude.{
  le→ltb_false, All-append_right, ℕ, ◌<◌, ◌≤◌, ◌≡◌, refl, ◌∙◌, subst, arith, true, false, ltb,
  ltb→lt, ◌==◌, List, [], ◌∷◌, ◌++◌, Bytes, All, All-append, Option, inl, inr, Bool-cases,
}
use am_kv.Comparator.{Comparator, Laws, less}
use am_kv.SkipList.{Ptr}
use am_kv.SkipList.Shape.{at_level, Linked, All-at_level}
use am_kv.SkipList.Linking.{Apart}
use am_kv.SkipList.Sorted.{Ascending}

-- Two lists of pointers, or of keys, that agree on some nodes.
pub Linked-ext :
    (n m : Ptr → Option Ptr) (ps : List Ptr) → ((p : Ptr) → m p ≡ n p) → Linked n ps → Linked m ps
Linked-ext n m [] e h = tt
Linked-ext n m (p ∷ ps) e h = (e p ∙ h.0, Linked-ext n m ps e h.1)

pub at_level-same :
    (h k : Ptr → ℕ) (i : ℕ) (ps : List Ptr)
    → All (λ q. k q ≡ h q) ps
    → at_level k i ps ≡ at_level h i ps
unfolding at_level
at_level-same h k i [] e = refl
at_level-same h k i (p ∷ ps) e = rw (e.0, at_level-same h k i ps e.1)

pub All-map {κ} :
    (P Q : Ptr → Type κ) (ps : List Ptr) → ((p : Ptr) → P p → Q p) → All P ps → All Q ps
All-map P Q [] f h = tt
All-map P Q (p ∷ ps) f h = (f p h.0, All-map P Q ps f h.1)

pub All-both {κ} :
    (P Q R : Ptr → Type κ) (ps : List Ptr)
    → ((p : Ptr) → P p → Q p → R p)
    → All P ps
    → All Q ps
    → All R ps
All-both P Q R [] f h k = tt
All-both P Q R (p ∷ ps) f h k = (f p h.0 k.0, All-both P Q R ps f h.1 k.1)

pub All-left {κ} : (P : Ptr → Type κ) (ps qs : List Ptr) → All P (ps ++ qs) → All P ps
All-left P [] qs h = tt
All-left P (p ∷ ps) qs h = (h.0, All-left P ps qs h.1)

pub Apart-at_level : (h : Ptr → ℕ) (i : ℕ) (ps : List Ptr) → Apart ps → Apart (at_level h i ps)
unfolding at_level
Apart-at_level h i [] a = tt
Apart-at_level h i (p ∷ ps) a = elim (Bool-cases (ltb i (h p))) [
  | inl e ↦ rw e (All-at_level h i (λ q. (q == p) ≡ false) ps a.0, Apart-at_level h i ps a.1)
  | inr e ↦ rw e (Apart-at_level h i ps a.1)
]

-- A level that no node reaches.
pub at_level-none :
    (h : Ptr → ℕ) (i : ℕ) (ps : List Ptr) → All (λ q. h q ≤ i) ps → at_level h i ps ≡ []
unfolding at_level
at_level-none h i [] a = refl
at_level-none h i (p ∷ ps) a = rw (le→ltb_false i (h p) a.0, at_level-none h i ps a.1)

-- A level's nodes reach it.
pub All-tall : (h : Ptr → ℕ) (i : ℕ) (ps : List Ptr) → All (λ q. i < h q) (at_level h i ps)
unfolding at_level
All-tall h i [] = tt
All-tall h i (p ∷ ps) = elim (Bool-cases (ltb i (h p))) [
  | inl e ↦ rw e (ltb→lt i (h p) e, All-tall h i ps)
  | inr e ↦ rw e (All-tall h i ps)
]

module _ (c : Comparator) (laws : Laws c) where
  pub Ascending-Apart : (key : Ptr → Bytes) (ps : List Ptr) → Ascending c laws key ps → Apart ps
  Ascending-Apart key [] h = tt
  Ascending-Apart key (p ∷ ps) h = (
    All-map (λ q. less c (key p) (key q) ≡ true) (λ q. (q == p) ≡ false) ps
        (λ q e. elim (Bool-cases (q == p)) [
          | inl same ↦
              let k : q ≡ p = ground arith in
              let f : less c (key p) (key p) ≡ true =
                subst (λ r. less c (key p) (key r) ≡ true) k e in
              cc (laws.less_irrefl (key p))
          | inr f ↦ f
        ])
        h.0,
    Ascending-Apart key ps h.1,
  )

  pub Ascending-same :
      (key key' : Ptr → Bytes) (ps : List Ptr)
      → All (λ q. key' q ≡ key q) ps
      → Ascending c laws key ps
      → Ascending c laws key' ps
  Ascending-same key key' [] e h = tt
  Ascending-same key key' (p ∷ ps) e h =
      (same_less p ps e.0 e.1 h.0, Ascending-same key key' ps e.1 h.1)
    where
      same_less :
          (p : Ptr) (qs : List Ptr)
          → key' p ≡ key p
          → All (λ q. key' q ≡ key q) qs
          → All (λ q. less c (key p) (key q) ≡ true) qs
          → All (λ q. less c (key' p) (key' q) ≡ true) qs
      same_less p [] f g k = tt
      same_less p (q ∷ qs) f g k = (rw (f, g.0) k.0, same_less p qs f g.1 k.1)

  -- A node between those of smaller and those of greater keys.
  pub Ascending-between :
      (key : Ptr → Bytes) (ps : List Ptr) (x : Ptr) (qs : List Ptr)
      → Ascending c laws key (ps ++ qs)
      → All (λ q. less c (key q) (key x) ≡ true) ps
      → All (λ q. less c (key x) (key q) ≡ true) qs
      → Ascending c laws key (ps ++ (x ∷ qs))
  Ascending-between key [] x qs a h k = (k, a)
  Ascending-between key (p ∷ ps) x qs a h k = (
    All-append (λ q. less c (key p) (key q) ≡ true) ps (x ∷ qs)
        (All-left (λ q. less c (key p) (key q) ≡ true) ps qs a.0)
        (h.0, All-append_right (λ q. less c (key p) (key q) ≡ true) ps qs a.0),
    Ascending-between key ps x qs a.1 h.1 k,
  )
