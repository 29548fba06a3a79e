-- ===== src/GoMap.antt =====
-- A Go map with string keys, as an association list in the order in which a `range` visits it.
-- Go leaves that order open; nothing that is proved here fixes it.
pub mod Distinct
use vibe_terminal.Base.{
  ℕ, suc, ◌+◌, ◌≤◌, ◌<◌, String, ◌≡◌, refl, Bool, true, false, Option, none, some, List, [], ◌∷◌,
  arith, ◌==◌, eq_iff, if◌then◌else◌, length, is_some,
}

abbrev pub GoMap {ℓ} : Type ℓ → Type ℓ
GoMap V = List (String × V)

module _ {ℓ} {V : Type ℓ} where
  -- `v, ok := m[k]`
  unfoldable pub lookup : String → GoMap V → Option V
  lookup k [] = none
  lookup k ((j, v) ∷ m) = if j == k then some v else lookup k m

  -- `m[k] = v`
  unfoldable pub insert : String → V → GoMap V → GoMap V
  insert key value [] = (key, value) ∷ []
  insert key value ((there, old) ∷ rest) =
      if there == key then (key, value) ∷ rest else (there, old) ∷ insert key value rest

  -- `delete(m, k)`
  unfoldable pub erase : String → GoMap V → GoMap V
  erase k [] = []
  erase k ((j, w) ∷ m) = if j == k then erase k m else (j, w) ∷ erase k m

  pub lookup-insert :
      (written read : String) (v : V) (m : GoMap V)
      → lookup read (insert written v m) ≡ (if written == read then some v else lookup read m)
  unfolding lookup insert
  lookup-insert written read v [] = refl
  lookup-insert written read v ((there, old) ∷ rest) = ground (
    arith,
    lookup-insert written read v rest,
    eq_iff there written,
    eq_iff there read,
    eq_iff written read,
  )

  pub lookup-erase :
      (k j : String) (m : GoMap V) → lookup j (erase k m) ≡ (if k == j then none else lookup j m)
  unfolding lookup erase
  lookup-erase k j [] = ground arith
  lookup-erase k j ((i, w) ∷ m) =
      ground (arith, eq_iff k j, eq_iff i k, eq_iff i j, lookup-erase k j m)

  pub length-insert-le : (k : String) (v : V) (m : GoMap V) → length (insert k v m) ≤ length m + 1
  unfolding insert
  length-insert-le k v [] = omega arith
  length-insert-le k v ((i, w) ∷ m) = ground (arith, length-insert-le k v m)

  -- Writing to a key that is there adds no entry.
  pub length-insert_hit :
      (k : String) (v w : V) (m : GoMap V) → lookup k m ≡ some w → length (insert k v m) ≡ length m
  unfolding lookup insert
  length-insert_hit k v w [] h = cc
  length-insert_hit k v w ((i, u) ∷ m) h = ground (arith, length-insert_hit k v w m)

  pub length-erase-le : (k : String) (m : GoMap V) → length (erase k m) ≤ length m
  unfolding erase
  length-erase-le k [] = omega arith
  length-erase-le k ((i, w) ∷ m) = ground (arith, length-erase-le k m)

  pub length-erase_hit :
      (k : String) (m : GoMap V) → is_some (lookup k m) ≡ true → length (erase k m) < length m
  unfolding lookup erase
  length-erase_hit k [] h = cc
  length-erase_hit k ((i, u) ∷ m) h = ground (arith, length-erase-le k m, length-erase_hit k m)

pub ruleset map_laws = (lookup-insert, lookup-erase)
