-- ===== src/Http/Find.antt =====
-- examples/http_proxy.rs, `find`: the first occurrence, and how it stands in a text still growing.
use compio_pool.Prelude.{
  ℕ, zero, suc, true, none, some, ◌≡◌, refl, sym, ◌∙◌, ◌+◌, ◌≤◌, ◌&&◌, List, [], ◌∷◌, ◌++◌, arith,
  length, leb, if◌then◌else◌,
}
use compio_pool.Prelude.Text.{strip_prefix}
use compio_pool.Http.Framed.{is_some, window_position, find}

strip_prefix-append :
    (needle hay more : List ℕ)
    → is_some (strip_prefix needle hay)
      ≡ (leb (length needle) (length hay) && is_some (strip_prefix needle (hay ++ more)))
unfolding strip_prefix
strip_prefix-append [] hay more = ground arith
strip_prefix-append (b ∷ needle) [] more = ground arith
strip_prefix-append (b ∷ needle) (c ∷ hay) more =
    ground (arith, strip_prefix-append needle hay more)

window_position_short :
    (b : ℕ) (needle hay : List ℕ)
    → length hay ≤ length needle
    → window_position hay (b ∷ needle) ≡ none
unfolding window_position strip_prefix
window_position_short b needle [] h = refl
window_position_short b needle (c ∷ hay) h =
    ground
      (arith, window_position_short b needle hay (omega arith), strip_prefix-append needle hay [])

-- An occurrence in a longer text is found as soon as all of it is there.
window_position-append :
    (b : ℕ) (needle hay more : List ℕ) (pos : ℕ)
    → window_position (hay ++ more) (b ∷ needle) ≡ some pos
    → window_position hay (b ∷ needle)
      ≡ (if leb (pos + suc (length needle)) (length hay) then some pos else none)
unfolding window_position
window_position-append b needle [] more pos h = ground arith
window_position-append b needle (c ∷ hay) more zero h =
    let fits = strip_prefix-append (b ∷ needle) (c ∷ hay) more in
    let short = window_position_short b needle hay in ground (arith, fits, short)
window_position-append b needle (c ∷ hay) more (suc pos) h =
    let fits = strip_prefix-append (b ∷ needle) (c ∷ hay) more in
    let rest = window_position-append b needle hay more pos in ground (arith, fits, rest)

pub find_window :
    (b : ℕ) (needle hay : List ℕ) → find hay (b ∷ needle) ≡ window_position hay (b ∷ needle)
unfolding find
find_window b needle hay = ground (arith, window_position_short b needle hay)

pub find-append :
    (b : ℕ) (needle hay more : List ℕ) (pos : ℕ)
    → find (hay ++ more) (b ∷ needle) ≡ some pos
    → find hay (b ∷ needle)
      ≡ (if leb (pos + suc (length needle)) (length hay) then some pos else none)
find-append b needle hay more pos h =
    rw (find_window b needle hay)
      (window_position-append b needle hay more pos (sym (find_window b needle (hay ++ more)) ∙ h))

strip_prefix_longer :
    (needle hay more : List ℕ)
    → is_some (strip_prefix needle hay) ≡ true
    → is_some (strip_prefix needle (hay ++ more)) ≡ true
strip_prefix_longer needle hay more h = ground (arith, strip_prefix-append needle hay more)

window_position_longer :
    (b : ℕ) (needle hay more : List ℕ) (pos : ℕ)
    → window_position hay (b ∷ needle) ≡ some pos
    → window_position (hay ++ more) (b ∷ needle) ≡ some pos
unfolding window_position
window_position_longer b needle [] more pos h = cc
window_position_longer b needle (c ∷ hay) more zero h =
    ground (arith, strip_prefix_longer (b ∷ needle) (c ∷ hay) more)
window_position_longer b needle (c ∷ hay) more (suc pos) h =
    let fits = strip_prefix-append (b ∷ needle) (c ∷ hay) more in
    let rest = window_position_longer b needle hay more pos in
    ground (arith, fits, rest, window_position_short b needle hay)

pub find_longer :
    (b : ℕ) (needle hay more : List ℕ) (pos : ℕ)
    → find hay (b ∷ needle) ≡ some pos
    → find (hay ++ more) (b ∷ needle) ≡ some pos
find_longer b needle hay more pos h =
    find_window b needle (hay ++ more)
    ∙ window_position_longer b needle hay more pos (sym (find_window b needle hay) ∙ h)
