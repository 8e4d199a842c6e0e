-- ===== src/Waiters/Wake.antt =====
-- `wake` and `wake_all`: who is woken, and in which order.
use compio_pool.Prelude.{
  ℕ, zero, suc, ◌<◌, ◌≡◌, refl, sym, ap, ◌∙◌, take-all, List, [], ◌∷◌, ◌++◌, length, take, drop,
  drop-length-le, arith, List-cases, inl, inr, lt→ltb, u32_mod,
}
use mathlib.Core.List.{reverse, reverse-cons, append_assoc, append-nil}
use compio_pool.Metrics.{Metrics}
use compio_pool.Waiters.Search.{Entry}
use compio_pool.Waiters.{Waiters, wake_front, wake, wake_all}
use compio_pool.Waiters.Queue.{IsQueue}

pub wake-nil : (w : Waiters) (n : ℕ) → w.entries ≡ [] → wake w n ≡ w
unfolding wake
wake-nil w zero e = refl
wake-nil w (suc n) e = ground arith

pub wake-cons :
    (w : Waiters) (n : ℕ) (e : Entry) (rest : List Entry)
    → w.entries ≡ e ∷ rest
    → wake w (suc n) ≡ wake (wake_front w e rest) n
unfolding wake
wake-cons w n e rest h = ground arith

-- What each single wake keeps is kept by `wake`.
pub wake_ind {ℓ} :
    (P : Waiters → Type ℓ)
    → ((w : Waiters) (e : Entry) (rest : List Entry)
        → w.entries ≡ e ∷ rest
        → P w
        → P (wake_front w e rest))
    → (n : ℕ) (w : Waiters) → P w
    → P (wake w n)
wake_ind P keep zero w p = unfold wake in p
wake_ind P keep (suc n) w p = elim (List-cases w.entries) [
  | inl e ↦ rw (wake-nil w (suc n) e) p
  | inr (x, rest, e) ↦
      rw (wake-cons w n x rest e) (wake_ind P keep n (wake_front w x rest) (keep w x rest e p))
]

pub wake_front-IsQueue :
    (w : Waiters) (e : Entry) (rest : List Entry)
    → w.entries ≡ e ∷ rest
    → IsQueue w
    → IsQueue (wake_front w e rest)
unfolding wake_front
wake_front-IsQueue w (id, waker) rest e v = ground arith

-- Waking a sorted queue, with its length mirrored, keeps it so.
pub wake-IsQueue : (w : Waiters) (n : ℕ) → IsQueue w → IsQueue (wake w n)
wake-IsQueue w n v = wake_ind IsQueue wake_front-IsQueue n w v

-- `wake n` takes the `n` oldest entries off the queue, or all if there are fewer, and calls their
-- wakers, each of them, oldest first; it gives out no id.
pub wake_fifo :
    (n : ℕ) (es : List Entry) (w : Waiters)
    → w.entries ≡ es
    → ((wake w n).entries ≡ drop n es)
      × ((wake w n).scheduled ≡ reverse (take n es) ++ w.scheduled)
      × ((wake w n).next_id ≡ w.next_id)
unfolding wake_front
wake_fifo zero es w e = unfold wake in (e, refl, refl)
wake_fifo (suc n) [] w e = rw (wake-nil w (suc n) e) (e, refl, refl)
wake_fifo (suc n) ((id, waker) ∷ es) w e =
    let (a, b, c) = wake_fifo n es (wake_front w (id, waker) es) refl in
    rw (wake-cons w n (id, waker) es e)
      (a, rw (reverse-cons (id, waker) (take n es), append_assoc) b, c)

-- `wake_all` empties the queue, unless it is longer than a `u32` can say.
pub wake_all-entries : (w : Waiters) → length w.entries < u32_mod → (wake_all w).entries ≡ []
unfolding wake_all
wake_all-entries w h = rw (lt→ltb (length w.entries) u32_mod h) (
    (wake_fifo (length w.entries) w.entries w refl).0
    ∙ drop-length-le (length w.entries) w.entries (omega arith))

-- And it has called each waker that was queued, oldest first.
pub wake_all-scheduled :
    (w : Waiters)
    → length w.entries < u32_mod
    → (wake_all w).scheduled ≡ reverse w.entries ++ w.scheduled
unfolding wake_all
wake_all-scheduled w h = rw (lt→ltb (length w.entries) u32_mod h) (
    (wake_fifo (length w.entries) w.entries w refl).1
    ∙ ap (λ es. reverse es ++ w.scheduled)
        (ap (take (length w.entries)) (sym (append-nil w.entries)) ∙ take-all w.entries []))

pub wake_all-IsQueue : (w : Waiters) → IsQueue w → IsQueue (wake_all w)
unfolding wake_all
wake_all-IsQueue w v = wake-IsQueue w _ v

-- The metrics block but for the gauge that the queue mirrors itself in.
abbrev pub others : Metrics → Metrics
others m = record m { waiters = 0 }

-- Waking writes no other metric.
pub wake-others : (w : Waiters) (n : ℕ) → others (wake w n).metrics ≡ others w.metrics
wake-others w n =
    wake_ind (λ v. others v.metrics ≡ others w.metrics)
      (λ v e rest h p. wake_front-others v e rest p) n w refl
  where
    wake_front-others :
        (v : Waiters) (e : Entry) (rest : List Entry)
        → others v.metrics ≡ others w.metrics
        → others (wake_front v e rest).metrics ≡ others w.metrics
    wake_front-others v (id, waker) rest p = unfold wake_front in p

pub wake_all-others : (w : Waiters) → others (wake_all w).metrics ≡ others w.metrics
unfolding wake_all
wake_all-others w = wake-others w _

pub wake-next_id : (w : Waiters) (n : ℕ) → (wake w n).next_id ≡ w.next_id
wake-next_id w n = (wake_fifo n w.entries w refl).2

pub wake_all-next_id : (w : Waiters) → (wake_all w).next_id ≡ w.next_id
unfolding wake_all
wake_all-next_id w = wake-next_id w _
