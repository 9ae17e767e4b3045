-- ===== src/SkipList/Searching.antt =====
-- The loop of the three searches, on a list that is cut in two by its test.
use am_kv.Prelude.{
  Returns-map, ne→==_false, All-append_right, lt→ltb, ltb→lt, ==_refl, ℕ, zero, suc, ◌+◌, ◌-◌, ◌<◌,
  ◌≤◌, ◌≡◌, refl, sym, ap, ◌∙◌, arith, Bool, true, false, ltb, ◌==◌, List, [], ◌∷◌, ◌++◌,
  append_assoc, All, some, inl, inr, Bool-cases, length, length-append, Result, ok, Returns, subst,
}
use am_kv.SkipList.{
  Ptr, head, SkipList, Found, load_next, set_at, search_down, search_step, search_loop, search,
}
use am_kv.SkipList.Shape.{
  at_level, first, Linked, last_of, last_of-snoc, Linked-suffix, at_level-append, at_level-taller,
  first_taller, All-at_level,
}

pub load_next_lem :
    (s : SkipList) (level : ℕ) (x : Ptr)
    → ltb level (s.height x) ≡ true
    → load_next s level x ≡ ok (s.next level x)
unfolding load_next
load_next_lem s level x h = rw h

pub set_at_self {ℓ} : {A : Type ℓ} (p : ℕ) (v : A) (f : ℕ → A) → set_at p v f p ≡ v
set_at_self p v f = rw (==_refl p)

pub set_at_other {ℓ} :
    {A : Type ℓ} (p : ℕ) (v : A) (f : ℕ → A) (q : ℕ) → (q == p) ≡ false → set_at p v f q ≡ f q
set_at_other p v f q e = rw e

-- What a search from a level on has found, in nodes that are cut in two: the first node behind the
-- cut, and the last one before it at each of the levels below.
pub record Finds (s : SkipList) (pre post : List Ptr) (level : ℕ) (prev : ℕ → Ptr) (found : Found)
    : Type 0 where
  pub behind : found.0 ≡ first (at_level s.height 0 post)
  pub lasts : (i : ℕ) → i ≤ level → found.1 i ≡ last_of (at_level s.height i (head ∷ pre))
  pub others : (i : ℕ) → level < i → found.1 i ≡ prev i

module _ (s : SkipList) (right : Ptr → Bool) (pre post : List Ptr)
    (linked : (i : ℕ) → i < 12 → Linked (s.next i) (at_level s.height i ((head ∷ pre) ++ post)))
    (stay : All (λ q. right q ≡ false) post) where
  -- The position of the search: at `x`, with the nodes `vs` between it and the end.
  record Here (level : ℕ) (x : Ptr) (us vs : List Ptr) : Type 0 where
    low : level < 12
    tall : level < s.height x
    cut : head ∷ pre ≡ us ++ (x ∷ vs)
    go : All (λ q. right q ≡ true) vs
    chain : Linked (s.next level) (x ∷ at_level s.height level (vs ++ post))

  regroup :
      (us : List Ptr) (x : Ptr) (vs : List Ptr)
      → head ∷ pre ≡ us ++ (x ∷ vs)
      → (head ∷ pre) ++ post ≡ us ++ (x ∷ (vs ++ post))
  regroup us x vs cut = ap (λ t. t ++ post) cut ∙ append_assoc us (x ∷ vs) post

  Here-lasts :
      (level : ℕ) (x : Ptr) (us vs : List Ptr)
      → Here level x us vs
      → at_level s.height level vs ≡ []
      → last_of (at_level s.height level (head ∷ pre)) ≡ x
  Here-lasts level x us vs here low =
      rw
        (
          here.cut,
          at_level-taller s.height level us x vs (lt→ltb level (s.height x) here.tall),
          low,
        )
        (last_of-snoc (at_level s.height level us) x)

  Here-down : (l : ℕ) (x : Ptr) (us vs : List Ptr) → Here (suc l) x us vs → Here l x us vs
  Here-down l x us vs here =
      let low : l < 12 = omega (arith, here.low) in
      let tall : l < s.height x = omega (arith, here.tall) in
      record {
        low = low;
        tall = tall;
        cut = here.cut;
        go = here.go;
        chain =
            Linked-suffix (s.next l) (at_level s.height l us) (x ∷ at_level s.height l (vs ++ post))
              (subst (Linked (s.next l))
                (ap (at_level s.height l) (regroup us x vs here.cut)
                  ∙ at_level-taller s.height l us x (vs ++ post) (lt→ltb l (s.height x) tall))
                (linked l low));
      }

  -- What a node to the right looks like from here.
  module _ (level : ℕ) (x : Ptr) (us ws : List Ptr) (q : Ptr) (vs : List Ptr)
      (here : Here level x us (ws ++ (q ∷ vs))) (low : at_level s.height level ws ≡ [])
      (tall : ltb level (s.height q) ≡ true) where
    ahead :
        at_level s.height level ((ws ++ (q ∷ vs)) ++ post)
        ≡ q ∷ at_level s.height level (vs ++ post)
    ahead =
        rw (
          append_assoc ws (q ∷ vs) post,
          at_level-taller s.height level ws q (vs ++ post) tall,
          low,
        )

    next-ahead : s.next level x ≡ some q
    next-ahead = here.chain.0 ∙ ap first ahead

    right-ahead : right q ≡ true
    right-ahead = (All-append_right (λ p. right p ≡ true) ws (q ∷ vs) here.go).0

    Here-right : Here level q (us ++ (x ∷ ws)) vs
    Here-right = record {
      low = here.low;
      tall = ltb→lt level (s.height q) tall;
      cut = here.cut ∙ sym (append_assoc us (x ∷ ws) (q ∷ vs));
      go = (All-append_right (λ p. right p ≡ true) ws (q ∷ vs) here.go).1;
      chain = subst (Linked (s.next level)) ahead here.chain.1;
    }

  Finds-down :
      (l : ℕ) (x : Ptr) (us vs : List Ptr) (prev : ℕ → Ptr) (found : Found)
      → Here (suc l) x us vs
      → at_level s.height (suc l) vs ≡ []
      → Finds s pre post l (set_at (suc l) x prev) found
      → Finds s pre post (suc l) prev found
  Finds-down l x us vs prev found here low f = record {
    behind = f.behind;
    lasts = λ i h. elim (Bool-cases (i == suc l)) [
      | inl e ↦
          let q : i ≡ suc l = ground arith in
          rw q (
            f.others (suc l) (omega arith)
            ∙ (set_at_self (suc l) x prev ∙ sym (Here-lasts (suc l) x us vs here low)))
      | inr e ↦ f.lasts i (ground arith)
    ];
    others = λ i h. f.others i (omega arith) ∙ set_at_other (suc l) x prev i (ground arith);
  }

  search_step-stop :
      (level : ℕ) (x : Ptr) (prev : ℕ → Ptr) (again : ℕ → Ptr → (ℕ → Ptr) → Result Found)
      (ps : List Ptr)
      → All (λ q. right q ≡ false) ps
      → search_step right level x prev again (first ps) ≡ search_down level x prev again (first ps)
  unfolding search_step
  search_step-stop level x prev again [] h = refl
  search_step-stop level x prev again (p ∷ ps) h = rw h.0

  -- A level down, or the end.
  search_down-Finds :
      (level : ℕ) (x : Ptr) (us vs : List Ptr) (prev : ℕ → Ptr)
      (again : ℕ → Ptr → (ℕ → Ptr) → Result Found)
      → Here level x us vs
      → at_level s.height level vs ≡ []
      → ((l : ℕ)
          → level ≡ suc l
          → Returns (Finds s pre post l (set_at level x prev)) (again l x (set_at level x prev)))
      → Returns
          (Finds s pre post level prev)
          (search_down level x prev again (first (at_level s.height level post)))
  unfolding search_down
  search_down-Finds zero x us vs prev again here low ih = record {
    behind = refl;
    lasts = λ i h.
        let e : i ≡ 0 = omega arith in
        rw e (set_at_self 0 x prev ∙ sym (Here-lasts 0 x us vs here low));
    others = λ i h. set_at_other 0 x prev i (ne→==_false i 0 (λ e. omega arith));
  }
  search_down-Finds (suc l) x us vs prev again here low ih =
      let e : suc l - 1 ≡ l = omega arith in
      rw (ne→==_false (suc l) 0 (λ e. omega arith), e)
        (Returns-map (again l x (set_at (suc l) x prev)) (ih l refl)
          (λ found f. Finds-down l x us vs prev found here low f))

  -- The search ends within as many rounds as there are nodes ahead and levels below, and finds
  -- the cut.
  search_loop-Finds :
      (fuel level : ℕ) (x : Ptr) (us vs : List Ptr) (prev : ℕ → Ptr)
      → Here level x us vs
      → length vs + level < fuel
      → Returns (Finds s pre post level prev) (search_loop right fuel s level x prev)
  unfolding search_loop search_step
  search_loop-Finds zero level x us vs prev here enough = absurd (omega arith)
  search_loop-Finds (suc f) level x us vs prev here enough =
      rw (load_next_lem s level x (lt→ltb level (s.height x) here.tall))
        (elim (first_taller s.height level vs) [
          | inr (ws, q, vs', split, low, tall) ↦
              let here' = subst (Here level x us) split here in
              let shorter : length vs' + level < f =
                omega (arith, ap length split, length-append ws (q ∷ vs')) in
              rw
                (
                  next-ahead level x us ws q vs' here' low tall,
                  search_step,
                  right-ahead level x us ws q vs' here' low tall,
                )
                (search_loop-Finds f level q (us ++ (x ∷ ws)) vs' prev
                  (Here-right level x us ws q vs' here' low tall) shorter)
          | inl low ↦
              let stop : s.next level x ≡ first (at_level s.height level post) =
                here.chain.0
                ∙ ap first (
                    at_level-append s.height level vs post
                    ∙ ap (λ t. t ++ at_level s.height level post) low) in
              rw
                (
                  stop,
                  search_step-stop level x prev (search_loop right f s)
                      (at_level s.height level post)
                      (All-at_level s.height level (λ q. right q ≡ false) post stay),
                )
                (search_down-Finds level x us vs prev (search_loop right f s) here low (λ l e.
                  search_loop-Finds f l x us vs (set_at level x prev)
                    (Here-down l x us vs (subst (λ k. Here k x us vs) e here)) (omega arith)))
        ])

  module _ (go : All (λ q. right q ≡ true) pre) (heights : s.height head ≡ 12)
      (low : s.max_height ≤ 12) (some_level : 0 < s.max_height) (few : length pre < s.fresh) where
    pub search-Finds :
        (prev : ℕ → Ptr) → Returns (Finds s pre post (s.max_height - 1) prev) (search right prev s)
    unfolding search at_level
    search-Finds prev =
        let tall : s.max_height - 1 < s.height head = omega arith in
        let e : ltb (s.max_height - 1) (s.height head) ≡ true =
          lt→ltb (s.max_height - 1) (s.height head) tall in
        search_loop-Finds (s.fresh + s.max_height) (s.max_height - 1) head [] pre prev
          (record {
            low = omega arith;
            tall = tall;
            cut = refl;
            go = go;
            chain =
                subst (Linked (s.next (s.max_height - 1)))
                  (at_level-taller s.height (s.max_height - 1) [] head (pre ++ post) e)
                  (linked (s.max_height - 1) (omega arith));
          })
          (omega arith)
