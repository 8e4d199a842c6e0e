-- ===== src/Waiters/Count.antt =====
-- How often an id is queued, and what the operations on the queue make of that.
use compio_pool.Prelude.{
  ℕ, ◌+◌, ◌≤◌, ◌≡◌, ◌≢◌, refl, true, false, List, [], ◌∷◌, ◌++◌, arith, if◌then◌else◌, ◌==◌, ◌&&◌,
  ◌<◌,
}
use compio_pool.Waiters.Search.{Entry, Ascending}
use compio_pool.Waiters.Queue.{has, erase, place}

-- The entries of an id.
abbrev pub queued : ℕ → List Entry → ℕ
queued i [] = 0
queued i ((j, w) ∷ es) = (if j == i then 1 else 0) + queued i es

pub queued-above : (a : ℕ) (es : List Entry) (b i : ℕ) → Ascending a es b → i ≤ a → queued i es ≡ 0
queued-above a [] b i h l = refl
queued-above a ((j, w) ∷ es) b i h l = ground (arith, queued-above j es b i h.1)

pub queued-append : (i : ℕ) (es fs : List Entry) → queued i (es ++ fs) ≡ queued i es + queued i fs
queued-append i [] fs = omega arith
queued-append i ((j, w) ∷ es) fs = omega (arith, queued-append i es fs)

pub queued-place : (i id waker : ℕ) (es : List Entry) → queued i (place id waker es) ≡ queued i es
unfolding place
queued-place i id waker [] = refl
queued-place i id waker ((j, w) ∷ es) = ground (arith, queued-place i id waker es)

pub queued-erase :
    (i id : ℕ) (es : List Entry)
    → has id es ≡ true
    → queued i (erase id es) + (if id == i then 1 else 0) ≡ queued i es
unfolding erase has
queued-erase i id [] h = cc
queued-erase i id ((j, w) ∷ es) h = ground (arith, queued-erase i id es)

pub queued-has : (i : ℕ) (es : List Entry) → has i es ≡ false → queued i es ≡ 0
unfolding has
queued-has i [] h = refl
queued-has i ((j, w) ∷ es) h = ground (arith, queued-has i es)

pub has-ne-nil : (i : ℕ) (es : List Entry) → has i es ≡ true → es ≢ []
unfolding has
has-ne-nil i [] h e = cc
has-ne-nil i (x ∷ es) h e = cc

-- How often an id stands in a list of entries with a given waker.
abbrev pub times : ℕ → ℕ → List Entry → ℕ
times i k [] = 0
times i k ((j, w) ∷ es) = (if j == i && w == k then 1 else 0) + times i k es

pub times-append :
    (i k : ℕ) (es fs : List Entry) → times i k (es ++ fs) ≡ times i k es + times i k fs
times-append i k [] fs = omega arith
times-append i k ((j, w) ∷ es) fs = omega (arith, times-append i k es fs)

pub times-le : (i k : ℕ) (es : List Entry) → times i k es ≤ queued i es
times-le i k [] = omega arith
times-le i k ((j, w) ∷ es) = ground (arith, times-le i k es)

pub times-erase : (i k id : ℕ) (es : List Entry) → i ≢ id → times i k (erase id es) ≡ times i k es
unfolding erase
times-erase i k id [] ne = refl
times-erase i k id ((j, w) ∷ es) ne = ground (arith, times-erase i k id es ne)

pub times-place :
    (i k id waker : ℕ) (es : List Entry) → i ≢ id → times i k (place id waker es) ≡ times i k es
unfolding place
times-place i k id waker [] ne = refl
times-place i k id waker ((j, w) ∷ es) ne = ground (arith, times-place i k id waker es ne)

pub times-placed :
    (id waker : ℕ) (es : List Entry) → has id es ≡ true → 0 < times id waker (place id waker es)
unfolding place has
times-placed id waker [] h = cc
times-placed id waker ((j, w) ∷ es) h = ground (arith, times-placed id waker es)

-- A sorted queue holds an id once at most.
pub queued-le_one : (a : ℕ) (es : List Entry) (b i : ℕ) → Ascending a es b → queued i es ≤ 1
queued-le_one a [] b i h = omega arith
queued-le_one a ((j, w) ∷ es) b i h =
    ground (arith, queued-le_one j es b i h.1, queued-above j es b i h.1)
