-- ===== src/SkipList/Linking.antt =====
-- The loop of `Insert` that puts the new node between two others, level by level.
use am_kv.Prelude.{
  ne→==_false, ℕ, zero, suc, ◌+◌, ◌<◌, ◌≤◌, ◌≡◌, refl, ◌∙◌, arith, false, lt→ltb, ◌==◌, ==_refl,
  if◌then◌else◌, List, [], ◌∷◌, ◌++◌, All, Option, some, inl, inr, Bool-cases, ok, Returns,
  Returns-map,
}
use am_kv.SkipList.{Ptr, SkipList, set_next, set_at, link_loop}
use am_kv.SkipList.Shape.{Linked, last_of}
use am_kv.SkipList.Searching.{load_next_lem}

-- The pointers of a level when `x` has been put behind `l`.
abbrev pub put_behind : (Ptr → Option Ptr) → Ptr → Ptr → Ptr → Option Ptr
put_behind next l x p = if p == l then some x else if p == x then next l else next p

-- No node occurs twice.
abbrev pub Apart : List Ptr → Type 0
Apart [] = Unit
Apart (p ∷ ps) = All (λ q. (q == p) ≡ false) ps × Apart ps

pub All-last {κ} :
    (P : Ptr → Type κ) (p : Ptr) (ps qs : List Ptr) → All P ((p ∷ ps) ++ qs) → P (last_of (p ∷ ps))
All-last P p [] qs h = h.0
All-last P p (q ∷ ps) qs h = All-last P q ps qs h.1

module _ (next : Ptr → Option Ptr) (x : Ptr) where
  Linked-behind :
      (l : Ptr) (qs : List Ptr)
      → All (λ q. (q == l) ≡ false) qs
      → All (λ q. (q == x) ≡ false) qs
      → Linked next qs
      → Linked (put_behind next l x) qs
  Linked-behind l [] h k c = tt
  Linked-behind l (q ∷ qs) h k c = (rw (h.0, k.0) c.0, Linked-behind l qs h.1 k.1 c.1)

  -- A node that is put behind the last of the first part follows it.
  pub Linked-put_behind :
      (p : Ptr) (ps qs : List Ptr)
      → Linked next ((p ∷ ps) ++ qs)
      → Apart ((p ∷ ps) ++ qs)
      → All (λ q. (q == x) ≡ false) ((p ∷ ps) ++ qs)
      → Linked (put_behind next (last_of (p ∷ ps)) x) ((p ∷ ps) ++ (x ∷ qs))
  Linked-put_behind p [] qs c a k = (
    rw (==_refl p),
    (
      let e : (x == p) ≡ false = ground (arith, k.0) in rw (e, ==_refl x) c.0,
      Linked-behind p qs a.0 k.1 c.1,
    ),
  )
  Linked-put_behind p (q ∷ ps) qs c a k = (
    let e : (p == last_of (q ∷ ps)) ≡ false =
          ground (arith, All-last (λ r. (r == p) ≡ false) q ps qs a.0) in
        rw (e, k.0) c.0,
    Linked-put_behind q ps qs c.1 a.1 k.1,
  )

-- The state behind the loop over the levels from `i` on.
pub record Links (left i : ℕ) (x : Ptr) (prev : ℕ → Ptr) (s s' : SkipList) : Type 0 where
  pub same_key : s'.key ≡ s.key
  pub same_height : s'.height ≡ s.height
  pub same_fresh : s'.fresh ≡ s.fresh
  pub same_max : s'.max_height ≡ s.max_height
  pub inside :
      (j : ℕ) (p : Ptr) → i ≤ j → j < i + left → s'.next j p ≡ put_behind (s.next j) (prev j) x p
  pub below : (j : ℕ) (p : Ptr) → j < i → s'.next j p ≡ s.next j p
  pub above : (j : ℕ) (p : Ptr) → i + left ≤ j → s'.next j p ≡ s.next j p

set_next_lem :
    (level : ℕ) (x : Ptr) (y : Option Ptr) (s : SkipList)
    → level < s.height x
    → set_next level x y s
      ≡ ok (record s { next = λ l p. if l == level then set_at x y (s.next l) p else s.next l p })
unfolding set_next
set_next_lem level x y s h = rw (lt→ltb level (s.height x) h)

-- The state behind one round.
linked_state : ℕ → Ptr → Ptr → SkipList → SkipList
linked_state i x l s = record s {
  next = λ j p.
      if j == i
      then set_at l (some x)
          (λ q. if j == i then set_at x (s.next i l) (s.next j) q else s.next j q) p
      else if j == i
      then set_at x (s.next i l) (s.next j) p
      else s.next j p;
}

linked_state-here :
    (i : ℕ) (x l : Ptr) (s : SkipList) (p : Ptr)
    → (linked_state i x l s).next i p ≡ put_behind (s.next i) l x p
unfolding linked_state
linked_state-here i x l s p = rw (==_refl i)

linked_state-else :
    (i : ℕ) (x l : Ptr) (s : SkipList) (j : ℕ) (p : Ptr)
    → (j == i) ≡ false
    → (linked_state i x l s).next j p ≡ s.next j p
unfolding linked_state
linked_state-else i x l s j p e = rw e

module _ (x : Ptr) (prev : ℕ → Ptr) (left i : ℕ) (s s' : SkipList)
    (k : Links left (i + 1) x prev (linked_state i x (prev i) s) s') where
  Links-inside :
      (j : ℕ) (p : Ptr)
      → i ≤ j
      → j < i + suc left
      → s'.next j p ≡ put_behind (s.next j) (prev j) x p
  Links-inside j p h h' = elim (Bool-cases (j == i)) [
    | inl e ↦
        let q : j ≡ i = ground arith in
        rw q (k.below i p (omega arith) ∙ linked_state-here i x (prev i) s p)
    | inr e ↦
        k.inside j p (ground arith) (ground arith)
        ∙ rw (linked_state-else i x (prev i) s j (prev j) e, linked_state-else i x (prev i) s j p e)
            refl
  ]

  Links-step : Links (suc left) i x prev s s'
  unfolding linked_state
  Links-step = record {
    same_key = k.same_key;
    same_height = k.same_height;
    same_fresh = k.same_fresh;
    same_max = k.same_max;
    inside = Links-inside;
    below = λ j p h.
        k.below j p (omega arith)
        ∙ linked_state-else i x (prev i) s j p (ne→==_false j i (λ e. omega arith));
    above = λ j p h.
        k.above j p (omega arith)
        ∙ linked_state-else i x (prev i) s j p (ne→==_false j i (λ e. omega arith));
  }

-- The loop ends without a fault if the new node and the one before it are high enough at each level.
pub link_loop-Links :
    (left i : ℕ) (x : Ptr) (prev : ℕ → Ptr) (s : SkipList)
    → ((j : ℕ) → i ≤ j → j < i + left → (j < s.height x) × (j < s.height (prev j)))
    → Returns (Links left i x prev s) (link_loop left i x prev s)
unfolding link_loop linked_state
link_loop-Links zero i x prev s h = record {
  same_key = refl;
  same_height = refl;
  same_fresh = refl;
  same_max = refl;
  inside = λ j p a b. absurd (omega arith);
  below = λ j p a. refl;
  above = λ j p a. refl;
}
link_loop-Links (suc left) i x prev s h =
    let tall = h i (omega arith) (omega arith) in
    let s1 = record s {
      next = λ l p. if l == i then set_at x (s.next i (prev i)) (s.next l) p else s.next l p;
    } in
    rw
      (
        load_next_lem s i (prev i) (lt→ltb i (s.height (prev i)) tall.1),
        set_next_lem i x (s.next i (prev i)) s tall.0,
        set_next_lem i (prev i) (some x) s1 tall.1,
      )
      (Returns-map (link_loop left (i + 1) x prev (linked_state i x (prev i) s))
        (link_loop-Links left (i + 1) x prev (linked_state i x (prev i) s)
          (λ j a b. h j (omega arith) (omega arith)))
        (λ s' k. Links-step x prev left i s s' k))
