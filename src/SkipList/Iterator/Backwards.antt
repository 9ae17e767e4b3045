-- ===== src/SkipList/Iterator/Backwards.antt =====
-- Where the iterator goes backwards.
use am_kv.Prelude.{
  ℕ, ◌-◌, ◌≡◌, refl, sym, ap, ◌∙◌, subst, arith, lt→ltb, true, if◌then◌else◌, List, [], ◌∷◌, Bytes,
  All, Bool-cases, inl, inr, Option, none, some, Returns, Returns-bind, append-nil, ne→==_false,
}
use am_kv.Comparator.{Comparator, Laws, less}
use am_kv.SkipList.{
  Ptr, head, SkipList, Found, search, find_greater_or_equal, find_less_than, find_last,
}
use am_kv.SkipList.Iterator.{seek_to_last, prev, but_head}
use am_kv.SkipList.Nodes.{All-left}
use am_kv.SkipList.Refinement.{keys_of, Holds, level_zero}
use am_kv.SkipList.Searching.{Finds, search-Finds}
use am_kv.SkipList.Shape.{at_level, Linked, last_of}
use am_kv.SkipList.Sorted.{
  IsNode, Represents, before, from, before-from, find_greater_or_equal-Finds,
}

abbrev pub last_key : List Bytes → Option Bytes
last_key [] = none
last_key (k ∷ []) = some k
last_key (k ∷ j ∷ ks) = last_key (j ∷ ks)

-- The keys in front of one, in an ascending list.
abbrev pub keys_before : Comparator → Bytes → List Bytes → List Bytes
keys_before c t [] = []
keys_before c t (k ∷ ks) = if less c k t then k ∷ keys_before c t ks else []

-- The key that the iterator stands at.
abbrev pub key_shown : SkipList → Option Ptr → Option Bytes
key_shown s none = none
key_shown s (some x) = some (s.key x)

All-true : (ps : List Ptr) → All (λ q. true ≡ true) ps
All-true [] = tt
All-true (p ∷ ps) = (refl, All-true ps)

module _ (c : Comparator) (laws : Laws c) (s : SkipList) where
  last_of-key_shown :
      (p : Ptr) (ps : List Ptr)
      → All (IsNode c laws s) (p ∷ ps)
      → key_shown s (but_head (last_of (p ∷ ps))) ≡ last_key (keys_of s.key (p ∷ ps))
  last_of-key_shown p [] h = rw (ne→==_false p 0 (λ e. omega (arith, h.0.0)))
  last_of-key_shown p (q ∷ ps) h = last_of-key_shown q ps h.1

  head_last-key_shown :
      (ps : List Ptr)
      → All (IsNode c laws s) ps
      → key_shown s (but_head (last_of (head ∷ ps))) ≡ last_key (keys_of s.key ps)
  head_last-key_shown [] h = refl
  head_last-key_shown (p ∷ ps) h = last_of-key_shown p ps h

  keys_of-before :
      (t : Bytes) (ns : List Ptr)
      → keys_of s.key (before c laws s.key t ns) ≡ keys_before c t (keys_of s.key ns)
  unfolding before
  keys_of-before t [] = refl
  keys_of-before t (p ∷ ps) = elim (Bool-cases (less c (s.key p) t)) [
    | inl e ↦ rw (e, keys_of-before t ps)
    | inr e ↦ rw e
  ]

  -- The last node in front of the cut, at the lowest level.
  lowest-Finds :
      (pre post : List Ptr) (level : ℕ) (array : ℕ → Ptr) (found : Found)
      → s.height head ≡ 12
      → All (IsNode c laws s) pre
      → Finds s pre post level array found
      → found.1 0 ≡ last_of (head ∷ pre)
  unfolding at_level
  lowest-Finds pre post level array found tall nodes f =
      f.lasts 0 (omega arith)
      ∙ rw (lt→ltb 0 (s.height head) (omega (arith, tall)), level_zero c laws s pre nodes)

  module _ (ns : List Ptr) (r : Represents c laws s ns) where
    find_last-last_of : Returns (λ x. x ≡ last_of (head ∷ ns)) (find_last s)
    unfolding find_last
    find_last-last_of =
        Returns-bind (Finds s ns [] (s.max_height - 1) (λ _. head)) _
          (search (λ q. true) (λ _. head) s) _
          (search-Finds s (λ q. true) ns []
            (λ i h.
              subst (λ l. Linked (s.next i) (at_level s.height i (head ∷ l))) (sym (append-nil ns))
                (r.linked i h))
            tt (All-true ns) r.head_height r.low r.some_level r.few (λ _. head))
          (λ found f.
            lowest-Finds ns [] (s.max_height - 1) (λ _. head) found r.head_height r.nodes f)

    find_less_than-last_of :
        (t : Bytes)
        → Returns (λ x. x ≡ last_of (head ∷ before c laws s.key t ns)) (find_less_than c t s)
    unfolding find_less_than find_greater_or_equal
    find_less_than-last_of t =
        let pre = before c laws s.key t ns in
        let post = from c laws s.key t ns in
        Returns-bind (Finds s pre post (s.max_height - 1) (λ _. head)) _
          (find_greater_or_equal c (λ _. head) t s) _
          (find_greater_or_equal-Finds c laws s ns r t (λ _. head))
          (λ found f.
            lowest-Finds pre post (s.max_height - 1) (λ _. head) found r.head_height
              (All-left (IsNode c laws s) pre post
                (subst (All (IsNode c laws s)) (sym (before-from c laws s.key t ns)) r.nodes))
              f)

  -- `SeekToLast` goes to the last key, and `Prev` at any node to the last key that is less than the
  -- node's, or the iterator is not valid if there is none. The searches end.
  pub backwards-Holds :
      (ks : List Bytes) (x : Ptr)
      → Holds c laws s ks
      → Returns (λ it. key_shown s it ≡ last_key ks) (seek_to_last s)
        × Returns (λ it. key_shown s it ≡ last_key (keys_before c (s.key x) ks)) (prev c s (some x))
  unfolding seek_to_last prev
  backwards-Holds ks x (ns, r, e) =
      let pre = before c laws s.key (s.key x) ns in
      let post = from c laws s.key (s.key x) ns in
      (
        Returns-bind (λ y. y ≡ last_of (head ∷ ns)) _ (find_last s) _ (find_last-last_of ns r)
            (λ y q.
              ap (λ z. key_shown s (but_head z)) q
              ∙ (head_last-key_shown ns r.nodes ∙ ap last_key e)),
        Returns-bind (λ y. y ≡ last_of (head ∷ pre)) _ (find_less_than c (s.key x) s) _
            (find_less_than-last_of ns r (s.key x))
            (λ y q.
              ap (λ z. key_shown s (but_head z)) q
              ∙ (head_last-key_shown pre (
                    All-left (IsNode c laws s) pre post (
                      subst (All (IsNode c laws s)) (sym (before-from c laws s.key (s.key x) ns))
                        r.nodes))
                  ∙ (ap last_key (keys_of-before (s.key x) ns)
                      ∙ ap (λ l. last_key (keys_before c (s.key x) l)) e))),
      )
