-- ===== src/Waiters/Search.antt =====
-- `VecDeque::binary_search_by_key` as `Waiters` uses it: the ids of the queue are searched by
-- halving, which is right only because they ascend.
use Prim.Native.Nat.{compare, Ordering}
use compio_pool.Prelude.{
  ℕ, zero, suc, ◌+◌, ◌-◌, ◌/◌, ◌≤◌, ◌<◌, ◌≡◌, refl, Option, none, some, List, [], ◌∷◌, length, ltb,
  if◌then◌else◌, arith,
}

-- A parked waiter: its id and its waker.
abbrev pub Entry : Type 0
Entry = ℕ × ℕ

-- The id at a position.
abbrev pub key_at : List Entry → ℕ → Option ℕ
key_at [] i = none
key_at ((id, w) ∷ es) zero = some id
key_at ((id, w) ∷ es) (suc i) = key_at es i

-- The half that is searched on, by how the key in the middle compares.
abbrev narrow : Ordering → Option ℕ → Option ℕ → Option ℕ → Option ℕ
narrow Ordering.lt right here left = right
narrow Ordering.eq right here left = here
narrow Ordering.gt right here left = left

-- The rounds left, the key, and the bounds of the part that is searched, upper excluded.
search_between : List Entry → ℕ → ℕ → ℕ → ℕ → Option ℕ
search_between es key zero lo hi = none
search_between es key (suc rounds) lo hi =
    let mid = (lo + hi) / 2 in
    let right = search_between es key rounds (mid + 1) hi in
    let left = search_between es key rounds lo mid in
    if ltb lo hi
    then elim (key_at es mid) [
      | none ↦ none
      | some k ↦ narrow (compare k key) right (some mid) left
    ]
    else none

-- The position where `key` stands.
unfoldable pub binary_search_by_key : List Entry → ℕ → Option ℕ
unfolding search_between
binary_search_by_key es key = search_between es key (suc (length es)) 0 (length es)

-- Ids ascend strictly between two bounds, both excluded.
abbrev pub Ascending : ℕ → List Entry → ℕ → Type 0
Ascending lo [] hi = lo < hi
Ascending lo ((id, w) ∷ es) hi = (lo < id) × Ascending id es hi

-- Whatever the search returns is a position of the key.
search_between_sound :
    (es : List Entry) (key rounds lo hi pos : ℕ)
    → search_between es key rounds lo hi ≡ some pos
    → key_at es pos ≡ some key
unfolding search_between
search_between_sound es key zero lo hi pos h = cc
search_between_sound es key (suc r) lo hi pos h =
    let mid = (lo + hi) / 2 in
    ground (
      arith,
      search_between_sound es key r (mid + 1) hi pos,
      search_between_sound es key r lo mid pos,
    )

pub key_at-above :
    (lo : ℕ) (es : List Entry) (hi p k : ℕ) → Ascending lo es hi → key_at es p ≡ some k → lo < k
key_at-above lo [] hi p k a h = cc
key_at-above lo ((id, w) ∷ es) hi zero k a h = ground arith
key_at-above lo ((id, w) ∷ es) hi (suc p) k a h =
    omega (arith, key_at-above id es hi p k a.1 h, a.0)

key_at_mono :
    (lo : ℕ) (es : List Entry) (hi p q j k : ℕ)
    → Ascending lo es hi
    → p < q
    → key_at es p ≡ some j
    → key_at es q ≡ some k
    → j < k
key_at_mono lo [] hi p q j k a l h h' = cc
key_at_mono lo ((id, w) ∷ es) hi p zero j k a l h h' = absurd (omega arith)
key_at_mono lo ((id, w) ∷ es) hi zero (suc q) j k a l h h' =
    ground (arith, key_at-above id es hi q k a.1 h')
key_at_mono lo ((id, w) ∷ es) hi (suc p) (suc q) j k a l h h' =
    key_at_mono id es hi p q j k a.1 (omega arith) h h'

key_at-inside : (es : List Entry) (p : ℕ) → p < length es → (k : ℕ) × (key_at es p ≡ some k)
key_at-inside [] p h = absurd (omega arith)
key_at-inside ((id, w) ∷ es) zero h = (id, refl)
key_at-inside ((id, w) ∷ es) (suc p) h = key_at-inside es p (omega arith)

key_at-length : (es : List Entry) (p k : ℕ) → key_at es p ≡ some k → p < length es
key_at-length [] p k h = cc
key_at-length ((id, w) ∷ es) zero k h = omega arith
key_at-length ((id, w) ∷ es) (suc p) k h = omega (arith, key_at-length es p k h)

-- In a queue of ascending ids every key between the bounds is found, if the rounds suffice.
search_between_complete :
    (a : ℕ) (es : List Entry) (b key rounds lo hi pos : ℕ)
    → Ascending a es b
    → key_at es pos ≡ some key
    → lo ≤ pos
    → pos < hi
    → hi ≤ length es
    → hi - lo < rounds
    → search_between es key rounds lo hi ≡ some pos
unfolding search_between
search_between_complete a es b key zero lo hi pos asc h l u n r = absurd (omega arith)
search_between_complete a es b key (suc rounds) lo hi pos asc h l u n r =
    let mid = (lo + hi) / 2 in
    let (k, e) = key_at-inside es mid (omega arith) in
    ground (
      arith,
      key_at_mono a es b mid pos k key asc,
      key_at_mono a es b pos mid key k asc,
      search_between_complete a es b key rounds (mid + 1) hi pos asc h,
      search_between_complete a es b key rounds lo mid pos asc h,
    )

-- The result of a search in an ascending queue: the position of the key, or that it is not there.
pub binary_search_some :
    (es : List Entry) (key pos : ℕ)
    → binary_search_by_key es key ≡ some pos
    → key_at es pos ≡ some key
unfolding binary_search_by_key
binary_search_some es key pos h = search_between_sound es key (suc (length es)) 0 (length es) pos h

pub binary_search_complete :
    (a : ℕ) (es : List Entry) (b key pos : ℕ)
    → Ascending a es b
    → key_at es pos ≡ some key
    → binary_search_by_key es key ≡ some pos
unfolding binary_search_by_key
binary_search_complete a es b key pos asc h =
    search_between_complete a es b key (suc (length es)) 0 (length es) pos asc h (omega arith)
      (key_at-length es pos key h) (omega arith) (omega arith)
