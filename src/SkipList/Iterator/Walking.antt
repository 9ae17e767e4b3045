-- ===== src/SkipList/Iterator/Walking.antt =====
-- What the iterator shows of a list that holds keys in ascending order.
use am_kv.Prelude.{
  length-append, ℕ, zero, suc, ◌-◌, ◌<◌, ◌≡◌, refl, sym, ap, subst, arith, lt→ltb, if◌then◌else◌,
  List, [], ◌∷◌, Bytes, All, All-append_right, inl, inr, Bool-cases, Returns-bind, ok, ◌>>=◌,
  length,
}
use am_kv.Comparator.{Comparator, Laws, less}
use am_kv.SkipList.{Ptr, head, SkipList, find_greater_or_equal}
use am_kv.SkipList.Shape.{at_level, Linked, first, Linked-suffix}
use am_kv.SkipList.Searching.{Finds, load_next_lem}
use am_kv.SkipList.Sorted.{
  IsNode, Represents, before, from, before-from, find_greater_or_equal-Finds,
}
use am_kv.SkipList.Refinement.{
  length-keys_of, keys_of, Holds, level_zero, found_first, eq_of_Returns,
}
use am_kv.SkipList.Iterator.{seek_to_first, next, iterator_key, seek, keys_loop}

-- The keys from the first on that is not less.
abbrev pub keys_from : Comparator → Bytes → List Bytes → List Bytes
keys_from c t [] = []
keys_from c t (k ∷ ks) = if less c k t then keys_from c t ks else k ∷ ks

module _ (c : Comparator) (laws : Laws c) (s : SkipList) where
  pub keys_of-from :
      (t : Bytes) (ns : List Ptr)
      → keys_of s.key (from c laws s.key t ns) ≡ keys_from c t (keys_of s.key ns)
  unfolding from
  keys_of-from t [] = refl
  keys_of-from t (p ∷ ps) = elim (Bool-cases (less c (s.key p) t)) [
    | inl e ↦ rw (e, keys_of-from t ps)
    | inr e ↦ rw e
  ]

  module _ (ns : List Ptr) (r : Represents c laws s ns) where
    chain : Linked (s.next 0) (head ∷ ns)
    unfolding at_level
    chain =
        let e : at_level s.height 0 (head ∷ ns) ≡ head ∷ ns = rw (
          lt→ltb 0 (s.height head) (omega (arith, r.head_height)),
          level_zero c laws s ns r.nodes,
        ) in
        subst (Linked (s.next 0)) e (r.linked 0 (omega arith))

    keys_loop-suffix :
        (fuel : ℕ) (ps : List Ptr)
        → Linked (s.next 0) ps
        → All (IsNode c laws s) ps
        → length ps < fuel
        → keys_loop fuel s (first ps) ≡ ok (keys_of s.key ps)
    unfolding keys_loop iterator_key next
    keys_loop-suffix zero ps l n enough = absurd (omega arith)
    keys_loop-suffix (suc fuel) [] l n enough = refl
    keys_loop-suffix (suc fuel) (p ∷ ps) l n enough = rw (
      load_next_lem s 0 p (lt→ltb 0 (s.height p) n.0.2),
      l.0,
      keys_loop-suffix fuel ps l.1 n.1 (omega arith),
    )

  -- Going from the first node to the last shows the keys of the list, in ascending order; one round
  -- more than there are keys is enough.
  pub keys_loop-seek_to_first :
      (ks : List Bytes) (fuel : ℕ)
      → Holds c laws s ks
      → length ks < fuel
      → (seek_to_first s >>= keys_loop fuel s) ≡ ok ks
  unfolding seek_to_first
  keys_loop-seek_to_first ks fuel (ns, r, e) enough =
      let l = chain ns r in
      rw (
        load_next_lem s 0 head (lt→ltb 0 (s.height head) (omega (arith, r.head_height))),
        l.0,
        keys_loop-suffix ns r fuel ns l.1 r.nodes
            (omega (arith, length-keys_of s.key ns, ap length e)),
        e,
      )

  -- `Seek` and going on from there shows the keys that are not less than the target.
  pub keys_loop-seek :
      (ks : List Bytes) (t : Bytes) (fuel : ℕ)
      → Holds c laws s ks
      → length ks < fuel
      → (seek c t s >>= keys_loop fuel s) ≡ ok (keys_from c t ks)
  unfolding seek
  keys_loop-seek ks t fuel (ns, r, e) enough =
      let cut = before-from c laws s.key t ns in
      let l = chain ns r in
      let b = before c laws s.key t ns in
      let a = from c laws s.key t ns in
      let short : length a < fuel =
        omega (arith, length-keys_of s.key ns, ap length e, ap length cut, length-append b a) in
      let at : seek c t s ≡ ok (first a) = eq_of_Returns (first a) (seek c t s) (
        Returns-bind (Finds s b a (s.max_height - 1) (λ _. head)) (λ x. x ≡ first a)
          (find_greater_or_equal c (λ _. head) t s) (λ found. ok found.0)
          (find_greater_or_equal-Finds c laws s ns r t (λ _. head))
          (λ found f. found_first c laws s ns r t (λ _. head) found f)) in
      rw (
        at,
        keys_loop-suffix ns r fuel a
            (Linked-suffix (s.next 0) (head ∷ b) a
              (subst (λ q. Linked (s.next 0) (head ∷ q)) (sym cut) l))
            (All-append_right (IsNode c laws s) b a
              (subst (All (IsNode c laws s)) (sym cut) r.nodes))
            short,
        keys_of-from t ns,
        e,
      )
