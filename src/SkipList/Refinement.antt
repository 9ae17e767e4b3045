-- ===== src/SkipList/Refinement.antt =====
-- The skip list as an implementation of a set of keys in ascending order.
use am_kv.Prelude.{
  suc, length, lt→ltb, ℕ, ◌-◌, ◌<◌, ◌≤◌, ◌≡◌, refl, sym, ap, ◌∙◌, subst, arith, Bool, true, false,
  ◌||◌, ◌==◌, if◌then◌else◌, List, [], ◌∷◌, ◌++◌, Bytes, All, All-append_right, inl, inr,
  Bool-cases, Result, Returns, Returns-map, Returns-bind, ok, fault, failed_assertion, ◌>>=◌,
}
use am_kv.Comparator.{Comparator, Laws, less, equal}
use am_kv.SkipList.{
  Ptr, head, SkipList, Found, set_at, new_skip_list, is_key_at, find_greater_or_equal, insert_at,
  insert, contains,
}
use am_kv.SkipList.Shape.{at_level, Linked, first}
use am_kv.SkipList.Searching.{Finds, set_at_self, set_at_other}
use am_kv.SkipList.Nodes.{All-left, All-map}
use am_kv.SkipList.Inserting.{insert-Inserted, All-old}
use am_kv.SkipList.Sorted.{
  Ascending, IsNode, Represents, before, from, before-from, All-before, All-from,
  find_greater_or_equal-Finds,
}

abbrev pub keys_of : (Ptr → Bytes) → List Ptr → List Bytes
keys_of key [] = []
keys_of key (p ∷ ps) = key p ∷ keys_of key ps

pub eq_of_Returns : {A : Type 0} (a : A) (m : Result A) → Returns (λ b. b ≡ a) m → m ≡ ok a
eq_of_Returns a (ok b) h = ap ok h
eq_of_Returns a (fault e) h = absurd h

bind-fault :
    {A B : Type 0} (P : A → Type 0) (m : Result A) (f : A → Result B)
    → Returns P m
    → ((a : A) → P a → f a ≡ fault failed_assertion)
    → (m >>= f) ≡ fault failed_assertion
bind-fault P (ok a) f h k = k a h
bind-fault P (fault e) f h k = absurd h

new_skip_list-Linked :
    (i : ℕ) → i < 12 → Linked (new_skip_list.next i) (at_level new_skip_list.height i (head ∷ []))
unfolding new_skip_list at_level
new_skip_list-Linked i h = rw (lt→ltb i 12 h) (refl, tt)

pub length-keys_of : (key : Ptr → Bytes) (ps : List Ptr) → length (keys_of key ps) ≡ length ps
length-keys_of key [] = refl
length-keys_of key (p ∷ ps) = ap suc (length-keys_of key ps)

module _ (c : Comparator) where
  -- The specification: a sorted list of keys, each once.
  abbrev pub has_key : Bytes → List Bytes → Bool
  has_key t [] = false
  has_key t (k ∷ ks) = equal c t k || has_key t ks

  abbrev pub insert_key : Bytes → List Bytes → List Bytes
  insert_key t [] = t ∷ []
  insert_key t (k ∷ ks) = if less c k t then k ∷ insert_key t ks else t ∷ k ∷ ks

  module _ (laws : Laws c) where
    -- The skip list stands for these keys.
    abbrev pub Holds : SkipList → List Bytes → Type 0
    Holds s ks = (ns : List Ptr) × Represents c laws s ns × (keys_of s.key ns ≡ ks)

    pub level_zero :
        (s : SkipList) (ps : List Ptr) → All (IsNode c laws s) ps → at_level s.height 0 ps ≡ ps
    unfolding at_level
    level_zero s [] h = refl
    level_zero s (p ∷ ps) h = rw (lt→ltb 0 (s.height p) h.0.2, level_zero s ps h.1)

    insert_key-cut :
        (key : Ptr → Bytes) (t : Bytes) (ns : List Ptr)
        → insert_key t (keys_of key ns)
          ≡ keys_of key (before c laws key t ns) ++ (t ∷ keys_of key (from c laws key t ns))
    unfolding before from
    insert_key-cut key t [] = refl
    insert_key-cut key t (p ∷ ps) = elim (Bool-cases (less c (key p) t)) [
      | inl e ↦ rw (e, insert_key-cut key t ps)
      | inr e ↦ rw e
    ]

    keys_of-append :
        (key : Ptr → Bytes) (ps qs : List Ptr)
        → keys_of key (ps ++ qs) ≡ keys_of key ps ++ keys_of key qs
    keys_of-append key [] qs = refl
    keys_of-append key (p ∷ ps) qs = rw (keys_of-append key ps qs)

    keys_of-same :
        (key key' : Ptr → Bytes) (ps : List Ptr)
        → All (λ q. key' q ≡ key q) ps
        → keys_of key' ps ≡ keys_of key ps
    keys_of-same key key' [] h = refl
    keys_of-same key key' (p ∷ ps) h = rw (h.0, keys_of-same key key' ps h.1)

    has_key-All :
        (key : Ptr → Bytes) (t : Bytes) (ps : List Ptr)
        → has_key t (keys_of key ps) ≡ false
        → All (λ q. equal c t (key q) ≡ false) ps
    has_key-All key t [] h = tt
    has_key-All key t (p ∷ ps) h = elim (Bool-cases (equal c t (key p))) [
      | inl e ↦ cc
      | inr e ↦ (e, has_key-All key t ps (rw e at h))
    ]

    All-has_key :
        (key : Ptr → Bytes) (t : Bytes) (ps : List Ptr)
        → All (λ q. equal c t (key q) ≡ false) ps
        → has_key t (keys_of key ps) ≡ false
    All-has_key key t [] h = refl
    All-has_key key t (p ∷ ps) h = rw h.0 (All-has_key key t ps h.1)

    -- A key that is less, or greater, is another.
    pub less-equal : (x y : Bytes) → less c x y ≡ true → equal c y x ≡ false
    less-equal x y h = elim (Bool-cases (equal c y x)) [
      | inl e ↦
          let q : y ≡ x = laws.eq_of_equal y x e in
          let f : less c x x ≡ true = subst (λ z. less c x z ≡ true) q h in cc (laws.less_irrefl x)
      | inr e ↦ e
    ]

    pub greater-equal : (x y : Bytes) → less c x y ≡ true → equal c x y ≡ false
    greater-equal x y h = elim (Bool-cases (equal c x y)) [
      | inl e ↦
          let q : x ≡ y = laws.eq_of_equal x y e in
          let f : less c y y ≡ true = subst (λ z. less c z y ≡ true) q h in cc (laws.less_irrefl y)
      | inr e ↦ e
    ]

    -- The first key that is not less tells whether the key is there.
    is_key_at-has :
        (s : SkipList) (t : Bytes) (ps : List Ptr)
        → Ascending c laws s.key ps
        → All (λ q. less c (s.key q) t ≡ false) ps
        → is_key_at c s t (first ps) ≡ has_key t (keys_of s.key ps)
    is_key_at-has s t [] a h = refl
    is_key_at-has s t (p ∷ ps) a h = elim (Bool-cases (equal c t (s.key p))) [
      | inl e ↦ rw e
      | inr e ↦
          let less_p : less c t (s.key p) ≡ true = elim (Bool-cases (less c t (s.key p))) [
            | inl f ↦ f
            | inr f ↦ cc (laws.less_total t (s.key p) f e, h.0)
          ] in
          rw e (
            sym (
              All-has_key s.key t ps (
                All-map (λ q. less c (s.key p) (s.key q) ≡ true) (λ q. equal c t (s.key q) ≡ false)
                  ps
                  (λ q g.
                    greater-equal t (s.key q) (laws.less_trans t (s.key p) (s.key q) less_p g))
                  a.0)))
    ]

    has_key-append :
        (t : Bytes) (ks js : List Bytes)
        → has_key t ks ≡ false
        → has_key t (ks ++ js) ≡ has_key t js
    has_key-append t [] js h = refl
    has_key-append t (k ∷ ks) js h = elim (Bool-cases (equal c t k)) [
      | inl e ↦ cc
      | inr e ↦ rw e (has_key-append t ks js (rw e at h))
    ]

    Ascending-right :
        (key : Ptr → Bytes) (ps qs : List Ptr)
        → Ascending c laws key (ps ++ qs)
        → Ascending c laws key qs
    Ascending-right key [] qs a = a
    Ascending-right key (p ∷ ps) qs a = Ascending-right key ps qs a.1

    module _ (s : SkipList) (ns : List Ptr) (r : Represents c laws s ns) (t : Bytes) where
      pub found_first :
          (prev : ℕ → Ptr) (found : Found)
          → Finds s
              (before c laws s.key t ns)
              (from c laws s.key t ns)
              (s.max_height - 1)
              prev
              found
          → found.0 ≡ first (from c laws s.key t ns)
      found_first prev found f =
          f.behind
          ∙ ap first (
              level_zero s (from c laws s.key t ns) (
                All-append_right (IsNode c laws s) (before c laws s.key t ns)
                  (from c laws s.key t ns)
                  (subst (All (IsNode c laws s)) (sym (before-from c laws s.key t ns)) r.nodes)))

      is_key_at-found :
          is_key_at c s t (first (from c laws s.key t ns)) ≡ has_key t (keys_of s.key ns)
      is_key_at-found =
          let cut = before-from c laws s.key t ns in
          is_key_at-has s t (from c laws s.key t ns)
            (Ascending-right s.key (before c laws s.key t ns) (from c laws s.key t ns)
              (subst (Ascending c laws s.key) (sym cut) r.ascending))
            (All-from c laws s.key t ns r.ascending)
          ∙ sym (
              ap (λ l. has_key t (keys_of s.key l)) (sym cut)
              ∙ ap (has_key t)
                  (keys_of-append s.key (before c laws s.key t ns) (from c laws s.key t ns))
              ∙ has_key-append t (keys_of s.key (before c laws s.key t ns))
                  (keys_of s.key (from c laws s.key t ns))
                  (All-has_key s.key t (before c laws s.key t ns) (
                    All-map (λ q. less c (s.key q) t ≡ true) (λ q. equal c t (s.key q) ≡ false)
                      (before c laws s.key t ns) (λ q g. less-equal (s.key q) t g)
                      (All-before c laws s.key t ns))))

      keys-inserted :
          (h : ℕ) (s' : SkipList)
          → s'.key ≡ set_at s.fresh t s.key
          → keys_of s'.key (before c laws s.key t ns ++ (s.fresh ∷ from c laws s.key t ns))
            ≡ insert_key t (keys_of s.key ns)
      keys-inserted h s' e =
          let b = before c laws s.key t ns in
          let a = from c laws s.key t ns in
          let same : All (λ q. s'.key q ≡ s.key q) (b ++ a) =
            All-map (λ q. (q == s.fresh) ≡ false) (λ q. s'.key q ≡ s.key q) (b ++ a)
              (λ q n. rw e (set_at_other s.fresh t s.key q n)) (All-old c laws s ns r t h).1 in
          let own : s'.key s.fresh ≡ t = rw e (set_at_self s.fresh t s.key) in
          rw (
            keys_of-append s'.key b (s.fresh ∷ a),
            keys_of-same s.key s'.key b (All-left (λ q. s'.key q ≡ s.key q) b a same),
            keys_of-same s.key s'.key a (All-append_right (λ q. s'.key q ≡ s.key q) b a same),
            own,
            insert_key-cut s.key t ns,
          )

    -- `Contains` says whether the key is one of those that the list holds.
    pub contains-Holds :
        (s : SkipList) (ks : List Bytes) (t : Bytes)
        → Holds s ks
        → contains c t s ≡ ok (has_key t ks)
    unfolding contains
    contains-Holds s ks t (ns, r, e) = eq_of_Returns (has_key t ks) (contains c t s) (
        Returns-bind
          (Finds s (before c laws s.key t ns) (from c laws s.key t ns) (s.max_height - 1)
            (λ _. head))
          (λ b. b ≡ has_key t ks) (find_greater_or_equal c (λ _. head) t s)
          (λ found. ok (is_key_at c s t found.0))
          (find_greater_or_equal-Finds c laws s ns r t (λ _. head))
          (λ found f.
            ap (is_key_at c s t) (found_first s ns r t (λ _. head) found f)
            ∙ (is_key_at-found s ns r t ∙ ap (has_key t) e)))

    -- A key that the list does not hold is inserted in its place, whatever height from 1 to 12 its
    -- node is given and whatever the array of `Insert` holds before. Nothing is read out of bounds,
    -- and the search ends.
    pub insert-Holds :
        (s : SkipList) (ks : List Bytes) (t : Bytes) (h : ℕ) (prev : ℕ → Ptr)
        → Holds s ks
        → has_key t ks ≡ false
        → 0 < h
        → h ≤ 12
        → Returns (λ s'. Holds s' (insert_key t ks)) (insert c prev t h s)
    insert-Holds s ks t h prev (ns, r, e) absent some_height bounded =
        Returns-map (insert c prev t h s)
          (insert-Inserted c laws s ns r t h some_height bounded
            (has_key-All s.key t ns (ap (has_key t) e ∙ absent)) prev)
          (λ s' i. (
            before c laws s.key t ns ++ (s.fresh ∷ from c laws s.key t ns),
            i.represents,
            keys-inserted s ns r t h s' i.key ∙ ap (insert_key t) e,
          ))

    -- A key that the list holds is not inserted again: the assertion of `Insert` fails.
    pub insert-twice :
        (s : SkipList) (ks : List Bytes) (t : Bytes) (h : ℕ) (prev : ℕ → Ptr)
        → Holds s ks
        → has_key t ks ≡ true
        → insert c prev t h s ≡ fault failed_assertion
    unfolding insert insert_at
    insert-twice s ks t h prev (ns, r, e) present =
        bind-fault
          (Finds s (before c laws s.key t ns) (from c laws s.key t ns) (s.max_height - 1) prev)
          (find_greater_or_equal c prev t s) (insert_at c t h s)
          (find_greater_or_equal-Finds c laws s ns r t prev)
          (λ found f.
            let there : is_key_at c s t found.0 ≡ true =
              ap (is_key_at c s t) (found_first s ns r t prev found f)
              ∙ (is_key_at-found s ns r t ∙ (ap (has_key t) e ∙ present)) in
            rw there)

    -- The list that the constructor makes holds no key.
    pub new_skip_list-Holds : Holds new_skip_list []
    unfolding new_skip_list at_level
    new_skip_list-Holds = (
      [],
      record {
        linked = new_skip_list-Linked;
        ascending = tt;
        nodes = tt;
        head_height = refl;
        some_level = omega arith;
        low = omega arith;
        few = omega arith;
      },
      refl,
    )
