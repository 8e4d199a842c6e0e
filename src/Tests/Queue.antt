-- ===== src/Tests/Queue.antt =====
-- The waiter queue at concrete inputs.
use compio_pool.Prelude.{
  ◌≡◌, refl, none, some, [], ◌∷◌, ◌++◌, arith, true, false, if◌then◌else◌, length,
}
use mathlib.Core.List.{reverse}
use compio_pool.Metrics.{no_metrics}
use compio_pool.Waiters.{Waiters, mirror, register, unregister, wake}
use compio_pool.Waiters.Queue.{IsQueue, has, erase, place, joined, register_lem, unregister_lem}
use compio_pool.Waiters.Wake.{wake_fifo}

-- Tasks 7, 8 and 9 wait under the ids 3, 4 and 6; id 2 was the last to be woken.
abbrev three : Waiters
three = record {
  metrics = record no_metrics { waiters = 3 };
  next_id = 7;
  woken_upto = 2;
  entries = (3, 7) ∷ (4, 8) ∷ (6, 9) ∷ [];
  scheduled = (1, 5) ∷ [];
}

three-IsQueue : IsQueue three
three-IsQueue = omega arith

register_lem_example :
    (has 7 three.entries ≡ false)
    × (register three none 1 ≡ joined three 1)
    × (register three (some 4) 1 ≡ (
        if has 4 three.entries
        then (record three { entries = place 4 1 three.entries }, some 4)
        else joined three 1))
register_lem_example = register_lem three 4 1 (omega arith) three-IsQueue

unregister_lem_example : unregister three 4 ≡ (
    if has 4 three.entries
    then (
      mirror (record three { entries = erase 4 three.entries }) (length (erase 4 three.entries)),
      true,
    )
    else (three, false))
unregister_lem_example = unregister_lem three 4 three-IsQueue

wake_fifo_example :
    ((wake three 2).entries ≡ (6, 9) ∷ [])
    × ((wake three 2).scheduled ≡ reverse ((3, 7) ∷ (4, 8) ∷ []) ++ (1, 5) ∷ [])
    × ((wake three 2).next_id ≡ 7)
wake_fifo_example = wake_fifo 2 three.entries three refl

-- A woken waiter is not found, and a queued one is withdrawn from the middle.
unregister_woken : (unregister three 2).1 ≡ false
unfolding unregister
unregister_woken = refl
