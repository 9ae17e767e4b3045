-- ===== src/SkipList/Inserting.antt =====
-- `Insert` puts a key that is not in the list into its place.
use am_kv.Prelude.{
  append-nil, ℕ, ◌+◌, ◌-◌, ◌<◌, ◌≤◌, ◌≡◌, refl, sym, ap, ◌∙◌, subst, arith, true, false, ltb,
  lt→ltb, ltb→lt, ltb_false→le, ◌==◌, if◌then◌else◌, List, [], ◌∷◌, ◌++◌, Bytes, All, All-append,
  All-append_right, inl, inr, Bool-cases, length, length-append, Returns, Returns-map, Returns-bind,
}
use am_kv.Comparator.{Comparator, Laws, less, equal}
use am_kv.SkipList.{
  Ptr, head, SkipList, Found, set_at, new_node, raise, raise_prev, link_loop, is_key_at, insert_at,
  insert,
}
use am_kv.SkipList.Shape.{
  at_level, Linked, first, last_of, at_level-append, at_level-taller, at_level-lower, All-at_level,
}
use am_kv.SkipList.Searching.{Finds, set_at_self, set_at_other}
use am_kv.SkipList.Linking.{put_behind, Apart, All-last, Linked-put_behind, Links, link_loop-Links}
use am_kv.SkipList.Nodes.{
  All-both, Linked-ext, at_level-same, All-map, All-left, Apart-at_level, at_level-none, All-tall,
  Ascending-Apart, Ascending-same, Ascending-between,
}
use am_kv.SkipList.Sorted.{
  Ascending, IsNode, Represents, before, from, before-from, All-before, All-from,
  find_greater_or_equal-Finds,
}

-- The list with room for the new node, which is not linked yet.
record Prepared (s : SkipList) (key : Bytes) (height : ℕ) (s1 : SkipList) : Type 0 where
  key_is : s1.key ≡ set_at s.fresh key s.key
  height_is : s1.height ≡ set_at s.fresh height s.height
  next_is : s1.next ≡ s.next
  fresh_is : s1.fresh ≡ s.fresh + 1
  kept : s.max_height ≤ s1.max_height
  raised : height ≤ s1.max_height
  low : s.max_height ≤ 12 → height ≤ 12 → s1.max_height ≤ 12

prepared :
    (key : Bytes) (height : ℕ) (s : SkipList)
    → Prepared s key height (new_node key height (raise height s)).1
unfolding new_node raise
prepared key height s = elim (Bool-cases (ltb s.max_height height)) [
  | inl e ↦ record {
    key_is = rw e;
    height_is = rw e;
    next_is = rw e;
    fresh_is = rw e;
    kept = rw e (omega (arith, ltb→lt s.max_height height e));
    raised = rw e (omega arith);
    low = rw e (λ a b. b);
  }
  | inr e ↦ record {
    key_is = rw e;
    height_is = rw e;
    next_is = rw e;
    fresh_is = rw e;
    kept = rw e (omega arith);
    raised = rw e (omega (arith, ltb_false→le s.max_height height e));
    low = rw e (λ a b. a);
  }
]

node_is :
    (key : Bytes) (height : ℕ) (s : SkipList) → (new_node key height (raise height s)).0 ≡ s.fresh
unfolding new_node raise
node_is key height s = elim (Bool-cases (ltb s.max_height height)) [ inl e ↦ rw e | inr e ↦ rw e ]

module _ (c : Comparator) (laws : Laws c) (s : SkipList) (ns : List Ptr)
    (r : Represents c laws s ns) (t : Bytes) (h : ℕ) where
  abbrev pre : List Ptr
  pre = before c laws s.key t ns

  abbrev post : List Ptr
  post = from c laws s.key t ns

  halves : pre ++ post ≡ ns
  halves = before-from c laws s.key t ns

  pre-nodes : All (IsNode c laws s) pre
  pre-nodes =
      All-left (IsNode c laws s) pre post (subst (All (IsNode c laws s)) (sym halves) r.nodes)

  post-nodes : All (IsNode c laws s) post
  post-nodes =
      All-append_right (IsNode c laws s) pre post
        (subst (All (IsNode c laws s)) (sym halves) r.nodes)

  head-old : 0 < s.fresh
  head-old = omega (arith, r.few)

  -- The nodes that are in the list are not the new one.
  old : (p : Ptr) → p < s.fresh → (p == s.fresh) ≡ false
  old p e = ground arith

  pub All-old : All (λ q. (q == s.fresh) ≡ false) ((head ∷ pre) ++ post)
  All-old = (
    old head head-old,
    subst (All (λ q. (q == s.fresh) ≡ false)) (sym halves)
        (All-map (IsNode c laws s) (λ q. (q == s.fresh) ≡ false) ns (λ q n. old q n.1) r.nodes),
  )

  All-Apart : Apart ((head ∷ pre) ++ post)
  All-Apart =
      subst (λ l. Apart (head ∷ l)) (sym halves)
        (
          All-map (IsNode c laws s) (λ q. (q == head) ≡ false) ns (λ q n. ground (arith, n.0))
              r.nodes,
          Ascending-Apart c laws s.key ns r.ascending,
        )

  -- Where the search ended, at each level of the new node.
  module _ (prev : ℕ → Ptr) (found : Found)
      (f : Finds s pre post (s.max_height - 1) prev found) where
    last-prev :
        (j : ℕ) → j < h → raise_prev s h found.1 j ≡ last_of (at_level s.height j (head ∷ pre))
    unfolding raise_prev at_level
    last-prev j e = elim (Bool-cases (ltb j s.max_height)) [
      | inl low ↦ rw low (f.lasts j (omega (arith, ltb→lt j s.max_height low)))
      | inr high ↦
          let n = at_level-none s.height j pre (
            All-map (IsNode c laws s) (λ q. s.height q ≤ j) pre
              (λ q n. omega (arith, n.3, ltb_false→le j s.max_height high)) pre-nodes) in
          elim (Bool-cases (ltb j (s.height head))) [
            | inl a ↦ rw (high, lt→ltb j h e, a, n)
            | inr b ↦ rw (high, lt→ltb j h e, b, n)
          ]
    ]

  head-level : (j : ℕ) → j < 12 → at_level s.height j (head ∷ pre) ≡ head ∷ at_level s.height j pre
  unfolding at_level
  head-level j e =
      at_level-taller s.height j [] head pre
        (lt→ltb j (s.height head) (omega (arith, r.head_height)))

  -- The last node before the new one reaches the level.
  last-tall :
      (j : ℕ)
      → j < 12
      → (j < s.height (last_of (at_level s.height j (head ∷ pre))))
        × ((last_of (at_level s.height j (head ∷ pre)) == s.fresh) ≡ false)
  last-tall j e =
      let all = All-left (λ q. (q == s.fresh) ≡ false) (head ∷ pre) post All-old in
      rw (head-level j e) (
        All-last (λ q. j < s.height q) head (at_level s.height j pre) []
            (
              omega (arith, r.head_height),
              rw (append-nil (at_level s.height j pre)) (All-tall s.height j pre),
            ),
        All-last (λ q. (q == s.fresh) ≡ false) head (at_level s.height j pre) []
            (
              all.0,
              rw (append-nil (at_level s.height j pre))
                  (All-at_level s.height j (λ q. (q == s.fresh) ≡ false) pre all.1),
            ),
      )

  -- The new node behind the last of the first part, at one level.
  put-level :
      (i : ℕ)
      → i < 12
      → Linked (s.next i) (at_level s.height i (head ∷ pre) ++ at_level s.height i post)
      → Linked
          (put_behind (s.next i) (last_of (at_level s.height i (head ∷ pre))) s.fresh)
          (at_level s.height i (head ∷ pre) ++ (s.fresh ∷ at_level s.height i post))
  put-level i low =
      let cut = at_level-append s.height i (head ∷ pre) post in
      let e = ap (λ l. l ++ at_level s.height i post) (head-level i low) in
      let apart =
        subst Apart (cut ∙ e) (Apart-at_level s.height i ((head ∷ pre) ++ post) All-Apart) in
      let others =
        subst (All (λ q. (q == s.fresh) ≡ false)) (cut ∙ e)
          (All-at_level s.height i (λ q. (q == s.fresh) ≡ false) ((head ∷ pre) ++ post) All-old) in
      rw (head-level i low) (λ chain.
        Linked-put_behind (s.next i) s.fresh head (at_level s.height i pre)
          (at_level s.height i post) chain apart others)

  -- A level of the list with the new node in its place.
  at_level-new :
      (k : Ptr → ℕ) (i : ℕ)
      → k ≡ set_at s.fresh h s.height
      → at_level k i (head ∷ (pre ++ (s.fresh ∷ post))) ≡ (
          if ltb i h
          then at_level s.height i (head ∷ pre) ++ (s.fresh ∷ at_level s.height i post)
          else at_level s.height i (head ∷ ns))
  at_level-new k i e =
      let same : All (λ q. k q ≡ s.height q) ((head ∷ pre) ++ post) =
        All-map (λ q. (q == s.fresh) ≡ false) (λ q. k q ≡ s.height q) ((head ∷ pre) ++ post)
          (λ q n. rw e (set_at_other s.fresh h s.height q n)) All-old in
      let own : k s.fresh ≡ h = rw e (set_at_self s.fresh h s.height) in
      elim (Bool-cases (ltb i h)) [
        | inl a ↦ rw (
          a,
          at_level-taller k i (head ∷ pre) s.fresh post (rw own a),
          at_level-same s.height k i (head ∷ pre)
              (All-left (λ q. k q ≡ s.height q) (head ∷ pre) post same),
          at_level-same s.height k i post
              (All-append_right (λ q. k q ≡ s.height q) (head ∷ pre) post same),
        )
        | inr b ↦ rw (
          b,
          at_level-lower k i (head ∷ pre) s.fresh post (rw own b),
          at_level-same s.height k i ((head ∷ pre) ++ post) same,
          halves,
        )
      ]

  module _ (some_height : 0 < h) (bounded : h ≤ 12)
      (new : All (λ q. equal c t (s.key q) ≡ false) ns) (prev : ℕ → Ptr) (found : Found)
      (f : Finds s pre post (s.max_height - 1) prev found) (s1 : SkipList)
      (p : Prepared s t h s1) where
    tall-enough :
        (j : ℕ)
        → 0 ≤ j
        → j < 0 + h
        → (j < s1.height s.fresh) × (j < s1.height (raise_prev s h found.1 j))
    tall-enough j a b =
        let l = last-tall j (omega arith) in
        rw
          (
            p.height_is,
            set_at_self s.fresh h s.height,
            last-prev prev found f j (omega arith),
            set_at_other s.fresh h s.height (last_of (at_level s.height j (head ∷ pre))) l.1,
          )
          (omega arith, l.0)

    post-greater : All (λ q. less c t (s.key q) ≡ true) post
    post-greater =
        All-both (λ q. less c (s.key q) t ≡ false) (λ q. equal c t (s.key q) ≡ false)
          (λ q. less c t (s.key q) ≡ true) post
          (λ q a b. elim (Bool-cases (less c t (s.key q))) [
            | inl yes_less ↦ yes_less
            | inr not_less ↦ cc (laws.less_total t (s.key q) not_less b)
          ])
          (All-from c laws s.key t ns r.ascending)
          (All-append_right (λ q. equal c t (s.key q) ≡ false) pre post
            (subst (All (λ q. equal c t (s.key q) ≡ false)) (sym halves) new))

    module _ (s' : SkipList) (k : Links h 0 s.fresh (raise_prev s h found.1) s1 s') where
      key-new : s'.key ≡ set_at s.fresh t s.key
      key-new = k.same_key ∙ p.key_is

      height-new : s'.height ≡ set_at s.fresh h s.height
      height-new = k.same_height ∙ p.height_is

      Linked-new :
          (i : ℕ)
          → i < 12
          → Linked (s'.next i) (at_level s'.height i (head ∷ (pre ++ (s.fresh ∷ post))))
      Linked-new i low =
          let old_level =
            subst (λ l. Linked (s.next i) (at_level s.height i (head ∷ l))) (sym halves)
              (r.linked i low) in
          let cut = at_level-append s.height i (head ∷ pre) post in
          rw (at_level-new s'.height i height-new) (elim (Bool-cases (ltb i h)) [
            | inl a ↦ rw a (
                Linked-ext
                  (put_behind (s.next i) (last_of (at_level s.height i (head ∷ pre))) s.fresh)
                  (s'.next i)
                  (at_level s.height i (head ∷ pre) ++ (s.fresh ∷ at_level s.height i post))
                  (λ q.
                    k.inside i q (omega arith) (omega (arith, ltb→lt i h a))
                    ∙ rw (p.next_is, last-prev prev found f i (ltb→lt i h a)) refl)
                  (put-level i low (subst (Linked (s.next i)) cut old_level)))
            | inr b ↦ rw b (
                Linked-ext (s.next i) (s'.next i) (at_level s.height i (head ∷ ns))
                  (λ q. k.above i q (omega (arith, ltb_false→le i h b)) ∙ rw p.next_is refl)
                  (r.linked i low))
          ])

      Ascending-new : Ascending c laws s'.key (pre ++ (s.fresh ∷ post))
      Ascending-new =
          let same : All (λ q. s'.key q ≡ s.key q) (pre ++ post) =
            All-map (λ q. (q == s.fresh) ≡ false) (λ q. s'.key q ≡ s.key q) (pre ++ post)
              (λ q n. rw key-new (set_at_other s.fresh t s.key q n)) All-old.1 in
          let own : s'.key s.fresh ≡ t = rw key-new (set_at_self s.fresh t s.key) in
          Ascending-between c laws s'.key pre s.fresh post
            (Ascending-same c laws s.key s'.key (pre ++ post) same
              (subst (Ascending c laws s.key) (sym halves) r.ascending))
            (All-both (λ q. s'.key q ≡ s.key q) (λ q. less c (s.key q) t ≡ true)
              (λ q. less c (s'.key q) (s'.key s.fresh) ≡ true) pre (λ q a b. rw (a, own) b)
              (All-left (λ q. s'.key q ≡ s.key q) pre post same) (All-before c laws s.key t ns))
            (All-both (λ q. s'.key q ≡ s.key q) (λ q. less c t (s.key q) ≡ true)
              (λ q. less c (s'.key s.fresh) (s'.key q) ≡ true) post (λ q a b. rw (a, own) b)
              (All-append_right (λ q. s'.key q ≡ s.key q) pre post same) post-greater)

      nodes-new : All (IsNode c laws s') (pre ++ (s.fresh ∷ post))
      nodes-new =
          let own : IsNode c laws s' s.fresh =
            rw (height-new, set_at_self s.fresh h s.height, k.same_max, k.same_fresh, p.fresh_is)
              (head-old, omega arith, some_height, p.raised) in
          let step : (q : Ptr) → (q == s.fresh) ≡ false → IsNode c laws s q → IsNode c laws s' q =
            λ q e n.
              rw
                (
                  height-new,
                  set_at_other s.fresh h s.height q e,
                  k.same_max,
                  k.same_fresh,
                  p.fresh_is,
                )
                (n.0, omega (arith, n.1), n.2, omega (arith, n.3, p.kept)) in
          let fresh_nodes = All-old.1 in
          All-append (IsNode c laws s') pre (s.fresh ∷ post)
            (All-both (λ q. (q == s.fresh) ≡ false) (IsNode c laws s) (IsNode c laws s') pre step
              (All-left (λ q. (q == s.fresh) ≡ false) pre post fresh_nodes) pre-nodes)
            (
              own,
              All-both (λ q. (q == s.fresh) ≡ false) (IsNode c laws s) (IsNode c laws s') post step
                  (All-append_right (λ q. (q == s.fresh) ≡ false) pre post fresh_nodes) post-nodes,
            )

      Represents-new : Represents c laws s' (pre ++ (s.fresh ∷ post))
      Represents-new = record {
        linked = Linked-new;
        ascending = Ascending-new;
        nodes = nodes-new;
        head_height =
            rw (height-new, set_at_other s.fresh h s.height head (old head head-old)) r.head_height;
        some_level = rw k.same_max (omega (arith, r.some_level, p.kept));
        low = rw k.same_max (p.low r.low bounded);
        few =
            rw (k.same_fresh, p.fresh_is)
              (omega (
                arith,
                r.few,
                ap length halves,
                length-append pre post,
                length-append pre (s.fresh ∷ post),
              ));
      }

  is_key_at-none :
      (ps : List Ptr)
      → All (λ q. equal c t (s.key q) ≡ false) ps
      → is_key_at c s t (first ps) ≡ false
  is_key_at-none [] e = refl
  is_key_at-none (q ∷ ps) e = e.0

  -- The list with the new key, and its nodes.
  pub record Inserted (s' : SkipList) : Type 0 where
    pub represents : Represents c laws s' (pre ++ (s.fresh ∷ post))
    pub key : s'.key ≡ set_at s.fresh t s.key

  pub insert-Inserted :
      0 < h
      → h ≤ 12
      → All (λ q. equal c t (s.key q) ≡ false) ns
      → (prev : ℕ → Ptr) → Returns Inserted (insert c prev t h s)
  unfolding insert insert_at
  insert-Inserted some_height bounded new prev =
      Returns-bind (Finds s pre post (s.max_height - 1) prev) Inserted _ (insert_at c t h s)
        (find_greater_or_equal-Finds c laws s ns r t prev)
        (λ found f.
          let p = prepared t h s in
          let absent : is_key_at c s t found.0 ≡ false = rw f.behind (
            is_key_at-none (at_level s.height 0 post) (
              All-at_level s.height 0 (λ q. equal c t (s.key q) ≡ false) post
                (All-append_right (λ q. equal c t (s.key q) ≡ false) pre post
                  (subst (All (λ q. equal c t (s.key q) ≡ false)) (sym halves) new)))) in
          rw (absent, node_is t h s)
            (Returns-map
              (link_loop h 0 s.fresh (raise_prev s h found.1) (new_node t h (raise h s)).1)
              (link_loop-Links h 0 s.fresh (raise_prev s h found.1) (new_node t h (raise h s)).1
                (tall-enough some_height bounded new prev found f (new_node t h (raise h s)).1 p))
              (λ s' k. record {
                represents =
                    Represents-new some_height bounded new prev found f (new_node t h (raise h s)).1
                      p s' k;
                key =
                    key-new some_height bounded new prev found f (new_node t h (raise h s)).1 p s'
                      k;
              })))
