-- ===== src/Waiters/Queue.antt =====
-- `Waiters` against a plain queue of ids: the two searches by halving and the shortcut through
-- `woken_upto` do what a walk along the queue would do.
use compio_pool.Prelude.{
  ℕ, zero, suc, ◌+◌, ◌≤◌, ◌<◌, ◌≡◌, refl, ap, ◌∙◌, length-append, inl, inr, Bool, true, false,
  Option, none, some, List, [], ◌∷◌, ◌++◌, length, get_elem?, remove_at, if◌then◌else◌, ◌==◌,
  ==_iff, arith, Bool-cases, Option-cases, as_u32, u64_mod,
}
use compio_pool.Waiters.Search.{
  Entry, key_at, binary_search_by_key, Ascending, key_at-above, binary_search_some,
  binary_search_complete,
}
use native.Mathlib.Nat.{mod-eq_of_lt}
use compio_pool.Waiters.{Waiters, mirror, enqueue, refreshed, register, unregister}

-- Whether an id is queued.
unfoldable pub has : ℕ → List Entry → Bool
has id [] = false
has id ((i, w) ∷ es) = if i == id then true else has id es

-- The queue without the entry of an id.
unfoldable pub erase : ℕ → List Entry → List Entry
erase id [] = []
erase id ((i, w) ∷ es) = if i == id then es else (i, w) ∷ erase id es

-- The queue with a new waker for an id.
unfoldable pub place : ℕ → ℕ → List Entry → List Entry
place id waker [] = []
place id waker ((i, w) ∷ es) = if i == id then (i, waker) ∷ es else (i, w) ∷ place id waker es

-- The queue is sorted by id, between the last id woken and the next to be given, and its length is
-- mirrored in the gauge.
pub record IsQueue (w : Waiters) : Type 0 where
  pub ordered : Ascending w.woken_upto w.entries w.next_id
  pub mirrored : w.metrics.waiters ≡ as_u32 (length w.entries)

pub Ascending-lt : (a : ℕ) (es : List Entry) (b : ℕ) → Ascending a es b → a < b
Ascending-lt a [] b h = h
Ascending-lt a ((i, w) ∷ es) b h = omega (arith, Ascending-lt i es b h.1)

pub has-above : (a : ℕ) (es : List Entry) (b id : ℕ) → Ascending a es b → id ≤ a → has id es ≡ false
unfolding has
has-above a [] b id h l = refl
has-above a ((i, w) ∷ es) b id h l = ground (arith, has-above i es b id h.1)

has-key_at : (es : List Entry) (id : ℕ) → has id es ≡ true → (p : ℕ) × (key_at es p ≡ some id)
unfolding has
has-key_at [] id h = cc
has-key_at ((i, w) ∷ es) id h = elim (Bool-cases (i == id)) [
  | inl e ↦ (0, ap some ((==_iff i id).0 e))
  | inr e ↦ let (p, q) = has-key_at es id (ground arith) in (suc p, q)
]

key_at-has : (es : List Entry) (id p : ℕ) → key_at es p ≡ some id → has id es ≡ true
unfolding has
key_at-has [] id p h = cc
key_at-has ((i, w) ∷ es) id zero h = ground arith
key_at-has ((i, w) ∷ es) id (suc p) h = ground (arith, key_at-has es id p h)

erase-key_at :
    (a : ℕ) (es : List Entry) (b id p : ℕ)
    → Ascending a es b
    → key_at es p ≡ some id
    → remove_at es p ≡ erase id es
unfolding erase
erase-key_at a [] b id p asc h = cc
erase-key_at a ((i, w) ∷ es) b id zero asc h = ground arith
erase-key_at a ((i, w) ∷ es) b id (suc p) asc h =
    ground (arith, erase-key_at i es b id p asc.1 h, key_at-above i es b p id asc.1 h)

refreshed-cons :
    (e : Entry) (es : List Entry) (waker pos : ℕ) (o : Option Entry)
    → refreshed (e ∷ es) waker (suc pos) o ≡ e ∷ refreshed es waker pos o
unfolding refreshed
refreshed-cons e es waker pos none = refl
refreshed-cons e es waker pos (some (i, old)) = ground arith

refreshed-place :
    (a : ℕ) (es : List Entry) (b id waker p : ℕ)
    → Ascending a es b
    → key_at es p ≡ some id
    → refreshed es waker p (get_elem? es p) ≡ place id waker es
unfolding place
refreshed-place a [] b id waker p asc h = cc
refreshed-place a ((i, w) ∷ es) b id waker zero asc h = unfold refreshed in ground arith
refreshed-place a ((i, w) ∷ es) b id waker (suc p) asc h =
    rw
      (refreshed-cons (i, w) es waker p (get_elem? es p), refreshed-place i es b id waker p asc.1 h)
      (ground (arith, key_at-above i es b p id asc.1 h))

search-none :
    (a : ℕ) (es : List Entry) (b id : ℕ)
    → Ascending a es b
    → has id es ≡ false
    → binary_search_by_key es id ≡ none
search-none a es b id asc h = elim (Option-cases (binary_search_by_key es id)) [
  | inl e ↦ e
  | inr (p, e) ↦ cc (key_at-has es id p (binary_search_some es id p e))
]

search-some :
    (a : ℕ) (es : List Entry) (b id : ℕ)
    → Ascending a es b
    → has id es ≡ true
    → (p : ℕ) × (binary_search_by_key es id ≡ some p) × (key_at es p ≡ some id)
search-some a es b id asc h =
    let (p, e) = has-key_at es id h in (p, binary_search_complete a es b id p asc e, e)

pub register_queued :
    (w : Waiters) (id waker : ℕ)
    → IsQueue w
    → register w (some id) waker ≡ (
        if has id w.entries
        then (record w { entries = place id waker w.entries }, some id)
        else enqueue w waker)
unfolding register
register_queued w id waker v = elim (Bool-cases (has id w.entries)) [
  | inl e ↦
      let (p, s, k) = search-some w.woken_upto w.entries w.next_id id v.ordered e in
      ground (
        arith,
        e,
        s,
        refreshed-place w.woken_upto w.entries w.next_id id waker p v.ordered k,
        has-above w.woken_upto w.entries w.next_id id v.ordered,
      )
  | inr e ↦ ground (arith, e, search-none w.woken_upto w.entries w.next_id id v.ordered e)
]

-- The queue with one more entry at the back, under the next id, and the gauge at its new length.
abbrev pub joined : Waiters → ℕ → Waiters × Option ℕ
joined w waker = (
  record w {
    metrics = record w.metrics { waiters = as_u32 (length w.entries + 1) };
    next_id = w.next_id + 1;
    entries = w.entries ++ (w.next_id, waker) ∷ [];
  },
  some w.next_id,
)

has-below : (a : ℕ) (es : List Entry) (b : ℕ) → Ascending a es b → has b es ≡ false
unfolding has
has-below a [] b h = refl
has-below a ((i, w) ∷ es) b h = ground (arith, has-below i es b h.1, Ascending-lt i es b h.1)

enqueue-joined :
    (w : Waiters) (waker : ℕ) → w.next_id + 1 < u64_mod → enqueue w waker ≡ joined w waker
unfolding enqueue mirror
enqueue-joined w waker few = λ i. (
  record w {
    metrics = record w.metrics {
      waiters = as_u32 (length-append w.entries ((w.next_id, waker) ∷ []) i);
    };
    next_id = mod-eq_of_lt few i;
    entries = w.entries ++ (w.next_id, waker) ∷ [];
  },
  some w.next_id,
)

-- On a sorted queue, while the next id and its successor fit a `u64`: a waiter that never queued joins
-- at the back under an id that no entry has. One that is still queued keeps its place and its id, with
-- its waker brought up to date; one that was woken joins at the back, like the first.
pub register_lem :
    (w : Waiters) (id waker : ℕ)
    → w.next_id + 1 < u64_mod
    → IsQueue w
    → (has w.next_id w.entries ≡ false)
      × (register w none waker ≡ joined w waker)
      × (register w (some id) waker ≡ (
          if has id w.entries
          then (record w { entries = place id waker w.entries }, some id)
          else joined w waker))
register_lem w id waker few v = (
  has-below w.woken_upto w.entries w.next_id v.ordered,
  (unfold register in enqueue-joined w waker few),
  register_queued w id waker v
      ∙ ap
          (λ j.
            if has id w.entries
            then (record w { entries = place id waker w.entries }, some id)
            else j)
          (enqueue-joined w waker few),
)

-- On a sorted queue, `unregister` takes exactly the given id off, and reports whether it was there.
pub unregister_lem :
    (w : Waiters) (id : ℕ)
    → IsQueue w
    → unregister w id ≡ (
        if has id w.entries
        then (
          mirror (record w { entries = erase id w.entries }) (length (erase id w.entries)),
          true,
        )
        else (w, false))
unfolding unregister
unregister_lem w id v = elim (Bool-cases (has id w.entries)) [
  | inl e ↦
      let (p, s, k) = search-some w.woken_upto w.entries w.next_id id v.ordered e in
      ground (
        arith,
        e,
        s,
        erase-key_at w.woken_upto w.entries w.next_id id p v.ordered k,
        has-above w.woken_upto w.entries w.next_id id v.ordered,
      )
  | inr e ↦ ground (arith, e, search-none w.woken_upto w.entries w.next_id id v.ordered e)
]

Ascending-snoc :
    (a : ℕ) (es : List Entry) (b w : ℕ) → Ascending a es b → Ascending a (es ++ (b, w) ∷ []) (b + 1)
Ascending-snoc a [] b w h = omega arith
Ascending-snoc a ((i, o) ∷ es) b w h = (h.0, Ascending-snoc i es b w h.1)

Ascending-place :
    (a : ℕ) (es : List Entry) (b id w : ℕ) → Ascending a es b → Ascending a (place id w es) b
unfolding place
Ascending-place a [] b id w h = h
Ascending-place a ((i, o) ∷ es) b id w h = ground (arith, Ascending-place i es b id w h.1)

length-place : (es : List Entry) (id w : ℕ) → length (place id w es) ≡ length es
unfolding place
length-place [] id w = refl
length-place ((i, o) ∷ es) id w = ground (arith, length-place es id w)

Ascending-weaken : (a c : ℕ) (es : List Entry) (b : ℕ) → c ≤ a → Ascending a es b → Ascending c es b
Ascending-weaken a c [] b l h = omega arith
Ascending-weaken a c ((i, o) ∷ es) b l h = (omega arith, h.1)

Ascending-erase :
    (a : ℕ) (es : List Entry) (b id : ℕ) → Ascending a es b → Ascending a (erase id es) b
unfolding erase
Ascending-erase a [] b id h = h
Ascending-erase a ((i, o) ∷ es) b id h =
    ground (arith, Ascending-erase i es b id h.1, Ascending-weaken i a es b)

pub enqueue-IsQueue :
    (w : Waiters) (waker : ℕ) → w.next_id + 1 < u64_mod → IsQueue w → IsQueue (enqueue w waker).0
unfolding enqueue mirror
enqueue-IsQueue w waker h v = record {
  ordered = rw (mod-eq_of_lt h) (Ascending-snoc w.woken_upto w.entries w.next_id waker v.ordered);
  mirrored = refl;
}

-- Registering keeps the queue sorted and its length mirrored, while the next id and its successor
-- fit a `u64`.
pub register-IsQueue :
    (w : Waiters) (id : Option ℕ) (waker : ℕ)
    → w.next_id + 1 < u64_mod
    → IsQueue w
    → IsQueue (register w id waker).0
register-IsQueue w none waker h v = unfold register in enqueue-IsQueue w waker h v
register-IsQueue w (some id) waker h v = rw (register_queued w id waker v) (
    ground (
      arith,
      enqueue-IsQueue w waker h v,
      length-place w.entries id waker,
      Ascending-place w.woken_upto w.entries w.next_id id waker v.ordered,
    ))

-- So does withdrawing.
pub unregister-IsQueue : (w : Waiters) (id : ℕ) → IsQueue w → IsQueue (unregister w id).0
unregister-IsQueue w id v =
    rw (unregister_lem w id v) (
      unfold mirror in
      ground (arith, Ascending-erase w.woken_upto w.entries w.next_id id v.ordered))
