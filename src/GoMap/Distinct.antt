-- ===== src/GoMap/Distinct.antt =====
-- Go maps as lists in which each key stands once.
use vibe_terminal.Base.{
  String, ◌≡◌, refl, Bool, Option, none, some, [], ◌∷◌, arith, eq_iff, if◌then◌else◌, filter,
  is_some, false,
}
use vibe_terminal.GoMap.{GoMap, lookup, insert, erase, lookup-insert, lookup-erase}

module _ {ℓ} {V : Type ℓ} where
  abbrev pub IsDistinct : GoMap V → Type 0
  IsDistinct [] = Unit
  IsDistinct ((k, v) ∷ m) = (is_some (lookup k m) ≡ false) × IsDistinct m

  pub insert-IsDistinct :
      (k : String) (v : V) (m : GoMap V) → IsDistinct m → IsDistinct (insert k v m)
  unfolding insert lookup
  insert-IsDistinct k v [] h = (refl, tt)
  insert-IsDistinct k v ((j, w) ∷ m) h =
      ground (arith, insert-IsDistinct k v m h.1, lookup-insert k j v m, eq_iff j k, eq_iff k j)

  pub erase-IsDistinct : (k : String) (m : GoMap V) → IsDistinct m → IsDistinct (erase k m)
  unfolding erase
  erase-IsDistinct k [] h = tt
  erase-IsDistinct k ((j, w) ∷ m) h = ground (arith, erase-IsDistinct k m h.1, lookup-erase k j m)

  -- What a key has after a filter.
  abbrev pub kept : (String × V → Bool) → String → Option V → Option V
  kept p k none = none
  kept p k (some v) = if p (k, v) then some v else none

  pub lookup-filter :
      (p : String × V → Bool) (k : String) (m : GoMap V)
      → IsDistinct m
      → lookup k (filter p m) ≡ kept p k (lookup k m)
  unfolding lookup
  lookup-filter p k [] h = refl
  lookup-filter p k ((j, w) ∷ m) h = ground (arith, lookup-filter p k m h.1, eq_iff j k)

  pub filter-IsDistinct :
      (p : String × V → Bool) (m : GoMap V) → IsDistinct m → IsDistinct (filter p m)
  unfolding lookup
  filter-IsDistinct p [] h = tt
  filter-IsDistinct p ((j, w) ∷ m) h =
      ground (arith, filter-IsDistinct p m h.1, lookup-filter p j m h.1)
