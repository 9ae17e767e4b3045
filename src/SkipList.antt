-- ===== src/SkipList.antt =====
-- amkv/lsm/skiplist.h and skiplist_iter.h: nodes at addresses, each with its key, its height and its
-- `next_` pointers. Address 0 is `head_`; `newNode` answers with an address that is not in use yet.
-- What `randomHeight` draws is an argument: `util::Random` is no file of the repository.
pub mod Shape
pub mod Searching
pub mod Sorted
pub mod Linking
pub mod Nodes
pub mod Inserting
pub mod Refinement
pub mod Iterator
mod Examples
use am_kv.Prelude.{
  ℕ, zero, suc, ◌+◌, ◌-◌, ◌<◌, Bool, true, false, not, ◌&&◌, Option, none, some, Bytes, [], ltb,
  ◌==◌, if◌then◌else◌, Result, ok, fault, over_read, no_fuel, failed_assertion, ◌>>=◌,
}
use am_kv.Comparator.{Comparator, less, equal}

abbrev pub max_height_limit : ℕ
max_height_limit = 12

abbrev pub Ptr : Type 0
Ptr = ℕ

abbrev pub head : Ptr
head = 0

pub record SkipList : Type 0 where
  pub key : Ptr → Bytes
  pub height : Ptr → ℕ
  pub next : ℕ → Ptr → Option Ptr
  pub fresh : Ptr
  pub max_height : ℕ

-- The constructor: a head of the greatest height, with null pointers.
pub new_skip_list : SkipList
new_skip_list = record {
  key = λ _. [];
  height = λ _. max_height_limit;
  next = λ _ _. none;
  fresh = 1;
  max_height = 1;
}

-- A value at one argument.
abbrev pub set_at {ℓ} : {A : Type ℓ} → ℕ → A → (ℕ → A) → ℕ → A
set_at p v f q = if q == p then v else f q

-- `x->Next(level)`: a node has as many pointers as its height.
pub load_next : SkipList → ℕ → Ptr → Result (Option Ptr)
load_next s level x = if ltb level (s.height x) then ok (s.next level x) else fault over_read

-- `x->SetNext(level, y)`.
pub set_next : ℕ → Ptr → Option Ptr → SkipList → Result SkipList
set_next level x y s =
    if ltb level (s.height x)
    then ok (record s { next = λ l p. if l == level then set_at x y (s.next l) p else s.next l p })
    else fault over_read

pub new_node : Bytes → ℕ → SkipList → Ptr × SkipList
new_node key height s = (
  s.fresh,
  record s {
    key = set_at s.fresh key s.key;
    height = set_at s.fresh height s.height;
    fresh = s.fresh + 1;
  },
)

-- The node that the search ended in front of, and what the array `prev` holds.
abbrev pub Found : Type 0
Found = Option Ptr × (ℕ → Ptr)

-- `prev[level] = x`, and a level down, or the end at level 0.
pub search_down :
    ℕ → Ptr → (ℕ → Ptr) → (ℕ → Ptr → (ℕ → Ptr) → Result Found) → Option Ptr → Result Found
search_down level x prev again nxt =
    if level == 0 then ok (nxt, set_at level x prev) else again (level - 1) x (set_at level x prev)

-- A round: to the next node if the test says so.
pub search_step :
    (Ptr → Bool)
    → ℕ
    → Ptr
    → (ℕ → Ptr)
    → (ℕ → Ptr → (ℕ → Ptr) → Result Found)
    → Option Ptr
    → Result Found
search_step right level x prev again none = search_down level x prev again none
search_step right level x prev again (some q) =
    if right q then again level q prev else search_down level x prev again (some q)

-- The loop of `findGreaterOrEqual`, of `findLessThan` and of `findLast`, which differ in the test
-- that goes to the right and in what they return. `again` is the rest of the rounds.
pub search_loop : (Ptr → Bool) → ℕ → SkipList → ℕ → Ptr → (ℕ → Ptr) → Result Found
search_loop right zero s level x prev = fault no_fuel
search_loop right (suc fuel) s level x prev =
    load_next s level x >>= search_step right level x prev (search_loop right fuel s)

-- A round goes to a node that was not visited, or a level down.
pub search : (Ptr → Bool) → (ℕ → Ptr) → SkipList → Result Found
search right prev s = search_loop right (s.fresh + s.max_height) s (s.max_height - 1) head prev

-- The loop of `Insert` over the levels from `i` on.
pub link_loop : ℕ → ℕ → Ptr → (ℕ → Ptr) → SkipList → Result SkipList
link_loop zero i x prev s = ok s
link_loop (suc left) i x prev s = do
  behind ← load_next s i (prev i)
  s1 ← set_next i x behind s
  s2 ← set_next i (prev i) (some x) s1
  link_loop left (i + 1) x prev s2

-- The levels that the list has not had yet begin at the head.
pub raise_prev : SkipList → ℕ → (ℕ → Ptr) → ℕ → Ptr
raise_prev s height prev i =
    if ltb i s.max_height then prev i else if ltb i height then head else prev i

pub raise : ℕ → SkipList → SkipList
raise height s = if ltb s.max_height height then record s { max_height = height } else s

module _ (c : Comparator) where
  -- `prev` is what the array holds before, if anything looks at it.
  pub find_greater_or_equal : (ℕ → Ptr) → Bytes → SkipList → Result Found
  find_greater_or_equal prev target s = search (λ q. less c (s.key q) target) prev s

  pub find_less_than : Bytes → SkipList → Result Ptr
  find_less_than target s = do
    (_, prev) ← search (λ q. less c (s.key q) target) (λ _. head) s
    ok (prev 0)

  abbrev pub is_key_at : SkipList → Bytes → Option Ptr → Bool
  is_key_at s target none = false
  is_key_at s target (some x) = equal c target (s.key x)

  pub contains : Bytes → SkipList → Result Bool
  contains target s = do
    (x, _) ← find_greater_or_equal (λ _. head) target s
    ok (is_key_at s target x)

  -- Behind the search of `Insert`.
  pub insert_at : Bytes → ℕ → SkipList → Found → Result SkipList
  insert_at key height s (x, prev) =
      let (node, s') = new_node key height (raise height s) in
      if is_key_at s key x
      then fault failed_assertion
      else link_loop height 0 node (raise_prev s height prev) s'

  pub insert : (ℕ → Ptr) → Bytes → ℕ → SkipList → Result SkipList
  insert prev key height s = find_greater_or_equal prev key s >>= insert_at key height s

pub find_last : SkipList → Result Ptr
find_last s = do (_, prev) ← search (λ q. true) (λ _. head) s; ok (prev 0)
