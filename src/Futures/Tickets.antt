-- ===== src/Futures/Tickets.antt =====
-- The suspended calls of a thread next to its waiter queue: which of them are queued and which have
-- been woken, and what a wake does to both.
use compio_pool.Prelude.{
  ℕ, zero, suc, ◌+◌, ◌≤◌, ◌<◌, ◌≡◌, refl, sym, ap, subst, ◌∙◌, ◌⊎◌, inl, inr, Bool, true,
  Bool-cases, Option, none, some, List, List-cases, [], ◌∷◌, total, arith, if◌then◌else◌, ◌==◌,
  ==_iff, ◌&&◌, leb,
}
use compio_pool.Waiters.{
  Waiters, Entry, mirror, enqueue, register, unregister, wake_front, wake, wake_all,
}
use compio_pool.Waiters.Search.{Ascending}
use compio_pool.Waiters.Queue.{IsQueue, has, place, register_queued, unregister_lem, has-above}
use compio_pool.Waiters.Count.{
  queued, queued-above, queued-append, queued-place, queued-erase, queued-has, has-ne-nil, times,
  times-append, times-erase, times-place, times-placed, queued-le_one,
}
use compio_pool.Waiters.Wake.{wake-nil, wake-cons, wake_front-IsQueue}
use compio_pool.Futures.{
  Task, get_waiting, get_validating, get_dialing, get_sleeping, try_validating, try_dialing,
  warm_dialing,
}

-- The id under which a call that is parked for a slot has queued.
abbrev pub ticket : {C : Type 0} → Task C → Option ℕ
ticket (get_waiting start waited wait) = wait.id
ticket (get_validating start waited conn) = none
ticket (get_dialing start waited) = none
ticket (get_sleeping start waited until) = none
ticket (try_validating conn) = none
ticket try_dialing = none
ticket (warm_dialing n) = none

abbrev pub is_ticket : ℕ → Option ℕ → ℕ
is_ticket i none = 0
is_ticket i (some j) = if j == i then 1 else 0

-- Whether an id has been woken, when `upto` is the highest that has.
abbrev pub is_served : ℕ → Option ℕ → ℕ
is_served upto none = 0
is_served upto (some j) = if leb j upto then 1 else 0

-- The calls that wait under an id, and the calls that have been woken and have not run since.
abbrev pub waiting : {C : Type 0} → ℕ → List (ℕ × Task C) → ℕ
waiting i calls = total (λ c. is_ticket i (ticket c.1)) calls

abbrev pub served : {C : Type 0} → ℕ → List (ℕ × Task C) → ℕ
served upto calls = total (λ c. is_served upto (ticket c.1)) calls

-- The calls of a waker that wait under an id.
abbrev pub is_parked : ℕ → ℕ → ℕ → Option ℕ → ℕ
is_parked i k waker none = 0
is_parked i k waker (some j) = if j == i && waker == k then 1 else 0

abbrev pub parked : {C : Type 0} → ℕ → ℕ → List (ℕ × Task C) → ℕ
parked i k calls = total (λ c. is_parked i k c.0 (ticket c.1)) calls

-- Each id that has not been woken is queued as often as a call waits under it. And of the slots of
-- a pool that is open, while anyone is queued, each is among `k` that are held or has a woken call
-- on its way to it. And for each call that waits under an id, its own waker is queued under that id,
-- or has been called from there.
pub record Fair {C : Type 0} (max : ℕ) (cl : Bool) (calls : List (ℕ × Task C)) (k : ℕ) (w : Waiters)
    : Type 0 where
  pub owned : (i : ℕ) → w.woken_upto < i → waiting i calls ≡ queued i w.entries
  pub owed : (cl ≡ true) ⊎ ((w.entries ≡ []) ⊎ (max ≤ k + served w.woken_upto calls))
  pub told : (i n : ℕ) → parked i n calls ≤ times i n w.entries + times i n w.scheduled

is_parked-le_one : (i n waker : ℕ) (o : Option ℕ) → is_parked i n waker o ≤ 1
is_parked-le_one i n waker none = omega arith
is_parked-le_one i n waker (some j) = ground arith

parked-waiting :
    {C : Type 0} (i n : ℕ) (calls : List (ℕ × Task C)) → parked i n calls ≤ waiting i calls
parked-waiting i n [] = omega arith
parked-waiting i n ((waker, task) ∷ calls) =
    omega (arith, parked-waiting i n calls, parked_one i n waker (ticket task))
  where
    parked_one : (i n waker : ℕ) (o : Option ℕ) → is_parked i n waker o ≤ is_ticket i o
    parked_one i n waker none = omega arith
    parked_one i n waker (some j) = ground arith

-- Waking the id `e` next serves just the calls that wait under it.
served_one :
    (u e : ℕ) (t : Option ℕ)
    → u < e
    → ((i : ℕ) → u < i → i < e → is_ticket i t ≡ 0)
    → is_served e t ≡ is_served u t + is_ticket e t
served_one u e none l h = refl
served_one u e (some j) l h = ground (arith, h j)

module _ {C : Type 0} where
  served_next :
      (u e : ℕ) (calls : List (ℕ × Task C))
      → u < e
      → ((i : ℕ) → u < i → i < e → waiting i calls ≡ 0)
      → served e calls ≡ served u calls + waiting e calls
  served_next u e [] l h = refl
  served_next u e (c ∷ calls) l h = omega (
    arith,
    served_one u e (ticket c.1) l (λ i a b. omega (arith, h i a b)),
    served_next u e calls l (λ i a b. omega (arith, h i a b)),
  )

module _ {C : Type 0} (max : ℕ) (cl : Bool) (calls : List (ℕ × Task C)) where
  -- Held slots and wakes that nobody has answered may be more.
  pub Fair-le : (k n : ℕ) (w : Waiters) → k ≤ n → Fair max cl calls k w → Fair max cl calls n w
  Fair-le k n w l f = record { owned = f.owned; owed = ground (arith, f.owed); told = f.told }

  wake_front-Fair :
      (k : ℕ) (w : Waiters) (e : Entry) (rest : List Entry)
      → w.entries ≡ e ∷ rest
      → IsQueue w
      → Fair max cl calls (suc k) w
      → Fair max cl calls k (wake_front w e rest)
  unfolding wake_front
  wake_front-Fair k w (id, waker) rest eq v f =
      let asc : Ascending w.woken_upto ((id, waker) ∷ rest) w.next_id =
        subst (λ es. Ascending w.woken_upto es w.next_id) eq v.ordered in
      let counts : (i : ℕ) → w.woken_upto < i → waiting i calls ≡ queued i ((id, waker) ∷ rest) =
        λ i l. f.owned i l ∙ ap (queued i) eq in
      let next =
        served_next w.woken_upto id calls asc.0
          (λ i l m. ground (arith, counts i l, queued-above id rest w.next_id i asc.1)) in
      record {
        owned = λ i l. ground (arith, counts i);
        owed = ground (arith, next, counts id, queued-above id rest w.next_id id asc.1, f.owed, eq);
        told = λ i n. omega (arith, f.told i n, ap (times i n) eq);
      }

  pub wake-Fair :
      (k n : ℕ) (w : Waiters)
      → IsQueue w
      → Fair max cl calls (k + n) w
      → Fair max cl calls k (wake w n)
  wake-Fair k zero w v f = unfold wake in Fair-le (k + 0) k w (omega arith) f
  wake-Fair k (suc n) w v f = elim (List-cases w.entries) [
    | inl e ↦
        rw (wake-nil w (suc n) e) (record { owned = f.owned; owed = inr (inl e); told = f.told })
    | inr (x, rest, e) ↦ rw (wake-cons w n x rest e) (
        wake-Fair k n (wake_front w x rest) (wake_front-IsQueue w x rest e v) (
          wake_front-Fair (k + n) w x rest e v
            (Fair-le (k + suc n) (suc (k + n)) w (omega arith) f)))
  ]

  pub wake_all-Fair :
      (k : ℕ) (w : Waiters) → IsQueue w → Fair max cl calls k w → Fair max cl calls k (wake_all w)
  unfolding wake_all
  wake_all-Fair k w v f = wake-Fair k _ w v (Fair-le k _ w (omega arith) f)

  -- No other call waits under an id that is queued.
  alone :
      (k : ℕ) (w : Waiters) (waker id : ℕ) (task : Task C)
      → IsQueue w
      → has id w.entries ≡ true
      → ticket task ≡ some id
      → Fair max cl ((waker, task) ∷ calls) k w
      → (n : ℕ) → parked id n calls ≡ 0
  alone k w waker id task q there e f n =
      let above = has-above w.woken_upto w.entries w.next_id id q.ordered in
      let late : w.woken_upto < id = ground (arith, above, there) in
      ground (
        arith,
        parked-waiting id n calls,
        f.owned id late,
        queued-le_one w.woken_upto w.entries w.next_id id q.ordered,
        e,
      )

  -- A call that withdraws leaves an unused wake behind if it had been woken.
  pub unregister-Fair :
      (k : ℕ) (w : Waiters) (waker id : ℕ) (task : Task C)
      → IsQueue w
      → ticket task ≡ some id
      → Fair max cl ((waker, task) ∷ calls) k w
      → let (v, was_queued) = unregister w id in
        Fair max cl calls (k + (if was_queued then 0 else 1)) v
  unfolding mirror
  unregister-Fair k w waker id task q e f = elim (Bool-cases (has id w.entries)) [
    | inl there ↦
        let above = has-above w.woken_upto w.entries w.next_id id q.ordered in
        rw (unregister_lem w id q, there)
          (record {
            owned = λ i l. ground (arith, f.owned i l, queued-erase i id w.entries there, e);
            owed = ground (arith, f.owed, above, there, e, has-ne-nil id w.entries there);
            told = λ i n. elim (Bool-cases (i == id)) [
              | inl same ↦
                  let p : i ≡ id = (==_iff i id).0 same in
                  omega (arith, alone k w waker id task q there e f n, ap (λ j. parked j n calls) p)
              | inr other ↦ omega (
                arith,
                f.told i n,
                times-erase i n id w.entries (λ p. cc (other, (==_iff i id).1 p)),
              )
            ];
          })
    | inr gone ↦
        let woken = queued-has id w.entries gone in
        rw (unregister_lem w id q, gone)
          (record {
            owned = λ i l. ground (arith, f.owned i l, f.owned id, woken, e);
            owed = ground (arith, f.owed, f.owned id, woken, e);
            told = λ i n. omega (arith, f.told i n);
          })
  ]

  -- A call that queues at the back, on a pool whose slots are all held.
  pub enqueue-Fair :
      (k : ℕ) (w : Waiters) (waker : ℕ) (task : Task C)
      → IsQueue w
      → max ≤ k
      → ticket task ≡ (enqueue w waker).1
      → Fair max cl calls k w
      → Fair max cl ((waker, task) ∷ calls) k (enqueue w waker).0
  unfolding enqueue mirror
  enqueue-Fair k w waker task q full e f = record {
    owned =
        λ i l. ground (arith, f.owned i l, queued-append i w.entries ((w.next_id, waker) ∷ []), e);
    owed = inr (inr (omega arith));
    told =
        λ i n. ground (arith, f.told i n, times-append i n w.entries ((w.next_id, waker) ∷ []), e);
  }

  -- On a closed pool nothing is rationed.
  pub Fair-closed :
      (k n : ℕ) (w : Waiters) → cl ≡ true → Fair max cl calls k w → Fair max cl calls n w
  Fair-closed k n w shut f = record { owned = f.owned; owed = inl shut; told = f.told }

  -- Only the queue and the last id woken matter.
  pub Fair-same :
      (k : ℕ) (w v : Waiters)
      → w.entries ≡ v.entries
      → w.woken_upto ≡ v.woken_upto
      → w.scheduled ≡ v.scheduled
      → Fair max cl calls k w
      → Fair max cl calls k v
  Fair-same k w v e u s f = record {
    owned = λ i l. f.owned i (omega arith) ∙ ap (queued i) e;
    owed = rw (← u, ← e) f.owed;
    told = λ i n. omega (arith, f.told i n, ap (times i n) e, ap (times i n) s);
  }

  -- A call that registers again, or for the first time, on a pool whose slots are all held.
  pub register-Fair :
      (k : ℕ) (w : Waiters) (old waker : ℕ) (o : Option ℕ) (task task' : Task C)
      → IsQueue w
      → max ≤ k
      → ticket task ≡ o
      → ticket task' ≡ (register w o waker).1
      → Fair max cl ((old, task) ∷ calls) k w
      → Fair max cl ((waker, task') ∷ calls) k (register w o waker).0
  register-Fair k w old waker none task task' q full e e' f =
      unfold register in
      enqueue-Fair k w waker task' q full e' (record {
        owned = λ i l. ground (arith, f.owned i l, e);
        owed = inr (inr (omega arith));
        told = λ i n. omega (arith, f.told i n);
      })
  register-Fair k w old waker (some id) task task' q full e e' f =
      elim (Bool-cases (has id w.entries)) [
        | inl there ↦
            let r = rw there at (register_queued w id waker q) in
            let e'' = e' ∙ ap (λ (x : Waiters × Option ℕ). x.1) r in
            rw r (record {
              owned = λ i l. ground (arith, f.owned i l, queued-place i id waker w.entries, e, e'');
              owed = inr (inr (omega arith));
              told = λ i n. elim (Bool-cases (i == id)) [
                | inl same ↦
                    let p : i ≡ id = (==_iff i id).0 same in
                    let none_else = alone k w old id task q there e f n in
                    let placed = times-placed id waker w.entries there in
                    let gone = ap (λ j. parked j n calls) p in
                    elim (Bool-cases (waker == n)) [
                      | inl own ↦
                          let o : waker ≡ n = (==_iff waker n).0 own in
                          let held : times i n (place id waker w.entries)
                              ≡ times id waker (place id waker w.entries) =
                            λ t. times (p t) (sym o t) (place id waker w.entries) in
                          omega (
                            arith,
                            is_parked-le_one i n waker (ticket task'),
                            none_else,
                            gone,
                            placed,
                            held,
                          )
                      | inr not_own ↦ ground (arith, e'', not_own, none_else, gone)
                    ]
                | inr other ↦ ground (
                  arith,
                  f.told i n,
                  times-place i n id waker w.entries (λ p. cc (other, (==_iff i id).1 p)),
                  e,
                  e'',
                  other,
                )
              ];
            })
        | inr gone ↦
            let r = rw gone at (register_queued w id waker q) in
            let e'' = e' ∙ ap (λ (x : Waiters × Option ℕ). x.1) r in
            let woken = queued-has id w.entries gone in
            rw r (
              enqueue-Fair k w waker task' q full e'' (record {
                owned = λ i l. ground (arith, f.owned i l, f.owned id, woken, e);
                owed = inr (inr (omega arith));
                told = λ i n. omega (arith, f.told i n);
              }))
      ]
