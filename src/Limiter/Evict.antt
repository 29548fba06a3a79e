-- ===== src/Limiter/Evict.antt =====
-- limiter.go, `evict`: the entries that are left.
use vibe_terminal.Base.{
  ℕ, zero, suc, ◌≤◌, ◌<◌, ◌≡◌, refl, ◌⊎◌, inl, inr, String, true, Option, none, some, ◌∷◌, [],
  length, filter, arith, ltb, eq_iff, Option-cases, Bool-cases, length-filter-le, is_some, All, ◌≢◌,
}
use vibe_terminal.GoMap.{GoMap, lookup, erase, lookup-erase, length-erase_hit}
use vibe_terminal.GoMap.Distinct.{IsDistinct, erase-IsDistinct, lookup-filter, filter-IsDistinct}
use vibe_terminal.Limiter.{Entry, FailureLimiter, older, oldest, shrink, evict, is_live}

-- The key that `oldest` names is the one it was given, or one of the map.
oldest-lookup :
    (m : GoMap Entry) (found : Option (String × ℕ)) (k : String) (s : ℕ)
    → oldest m found ≡ some (k, s)
    → (found ≡ some (k, s)) ⊎ (is_some (lookup k m) ≡ true)
unfolding oldest lookup
oldest-lookup [] found k s h = inl h
oldest-lookup ((j, e) ∷ m) none k s h =
    ground (arith, oldest-lookup m (some (j, e.last_seen)) k s h, eq_iff j k)
oldest-lookup ((j, e) ∷ m) (some (i, t)) k s h =
    ground (arith, oldest-lookup m (older (j, e) (some (i, t))) k s h, eq_iff j k)

-- It was seen no later than any entry of the map.
oldest-le :
    (m : GoMap Entry) (found : Option (String × ℕ)) (k : String) (s : ℕ)
    → oldest m found ≡ some (k, s)
    → All (λ e. s ≤ e.1.last_seen) m × ((j : String) (t : ℕ) → found ≡ some (j, t) → s ≤ t)
unfolding oldest
oldest-le [] found k s h = (tt, λ j t e. ground arith)
oldest-le ((j, e) ∷ m) none k s h =
    let ih = oldest-le m (some (j, e.last_seen)) k s h in
    ((ih.1 j e.last_seen refl, ih.0), λ i t q. cc)
oldest-le ((j, e) ∷ m) (some (i, t)) k s h =
    let ih = oldest-le m (older (j, e) (some (i, t))) k s h in
    elim (Bool-cases (ltb e.last_seen t)) [
      | inl lt ↦ let le = ih.1 j e.last_seen (rw lt) in ((le, ih.0), λ a b q. ground arith)
      | inr ge ↦ let le = ih.1 i t (rw ge) in ((ground arith, ih.0), λ a b q. ground arith)
    ]

-- A map with an entry has an oldest one.
oldest-ne-none : (m : GoMap Entry) (k : String) (s : ℕ) → oldest m (some (k, s)) ≢ none
unfolding oldest
oldest-ne-none [] k s h = cc
oldest-ne-none ((j, e) ∷ m) k s h =
    ground (arith, oldest-ne-none m j e.last_seen, oldest-ne-none m k s)

-- Enough fuel brings the map below the limit.
shrink-lt :
    (fuel max_entries : ℕ) (m : GoMap Entry)
    → 0 < max_entries
    → length m ≤ fuel
    → length (shrink fuel max_entries m) < max_entries
unfolding shrink
shrink-lt zero max_entries [] p h = p
shrink-lt zero max_entries (x ∷ m) p h = absurd (omega arith)
shrink-lt (suc fuel) max_entries [] p h = ground arith
shrink-lt (suc fuel) max_entries (x ∷ m) p h = elim (Option-cases (oldest (x ∷ m) none)) [
  | inl none_found ↦ absurd (unfold oldest in oldest-ne-none m x.0 x.1.last_seen none_found)
  | inr ((k, s), e) ↦
      let smaller = length-erase_hit k (x ∷ m) (hit k s e) in
      rw e (ground (arith, shrink-lt fuel max_entries (erase k (x ∷ m)) p (omega arith)))
]
  where
    hit :
        (k : String) (s : ℕ) → oldest (x ∷ m) none ≡ some (k, s) → is_some (lookup k (x ∷ m)) ≡ true
    hit k s e = elim (oldest-lookup (x ∷ m) none k s e) [ inl q ↦ cc | inr q ↦ q ]

-- Deleting entries leaves each key with what it had, or with nothing.
abbrev pub Keeps : Option Entry → Option Entry → Type 0
Keeps before after = (after ≡ before) ⊎ (after ≡ none)

Keeps-erase : (k j : String) (m : GoMap Entry) → Keeps (lookup j m) (lookup j (erase k m))
Keeps-erase k j m = rw (lookup-erase k j m) (ground arith)

shrink-Keeps :
    (fuel max_entries : ℕ) (j : String) (m : GoMap Entry)
    → Keeps (lookup j m) (lookup j (shrink fuel max_entries m))
unfolding shrink
shrink-Keeps zero max_entries j m = inl refl
shrink-Keeps (suc fuel) max_entries j m = elim (Option-cases (oldest m none)) [
  | inl e ↦ rw e (ground arith)
  | inr ((k, s), e) ↦
      rw e (ground (arith, shrink-Keeps fuel max_entries j (erase k m), Keeps-erase k j m))
]

shrink-IsDistinct :
    (fuel max_entries : ℕ) (m : GoMap Entry) → IsDistinct m → IsDistinct (shrink fuel max_entries m)
unfolding shrink
shrink-IsDistinct zero max_entries m h = h
shrink-IsDistinct (suc fuel) max_entries m h = elim (Option-cases (oldest m none)) [
  | inl e ↦ rw e (ground arith)
  | inr ((k, s), e) ↦
      rw e (ground (arith, shrink-IsDistinct fuel max_entries (erase k m) (erase-IsDistinct k m h)))
]

-- Below the limit nothing more is deleted.
shrink_below :
    (fuel max_entries : ℕ) (m : GoMap Entry)
    → length m < max_entries
    → shrink fuel max_entries m ≡ m
unfolding shrink
shrink_below zero max_entries m h = refl
shrink_below (suc fuel) max_entries m h = ground arith

module _ (l : FailureLimiter) (now : ℕ) where
  pub length-evict : 0 < l.max_entries → length (evict l now).entries < l.max_entries
  unfolding evict
  length-evict p = ground (
    arith,
    shrink-lt (length (filter (is_live l now) l.entries)) l.max_entries
        (filter (is_live l now) l.entries),
  )

  pub evict-Keeps :
      (j : String)
      → IsDistinct l.entries
      → Keeps (lookup j l.entries) (lookup j (evict l now).entries)
  unfolding evict
  evict-Keeps j d = ground (
    arith,
    lookup-filter (is_live l now) j l.entries d,
    shrink-Keeps (length (filter (is_live l now) l.entries)) l.max_entries j
        (filter (is_live l now) l.entries),
  )

  pub evict-IsDistinct : IsDistinct l.entries → IsDistinct (evict l now).entries
  unfolding evict
  evict-IsDistinct d = ground (
    arith,
    filter-IsDistinct (is_live l now) l.entries d,
    shrink-IsDistinct (length (filter (is_live l now) l.entries)) l.max_entries
        (filter (is_live l now) l.entries),
  )

  -- With room left, a key whose block runs is not deleted.
  pub evict_blocked :
      (j : String) (e : Entry)
      → IsDistinct l.entries
      → length l.entries < l.max_entries
      → lookup j l.entries ≡ some e
      → now < e.blocked_until
      → lookup j (evict l now).entries ≡ some e
  unfolding evict
  evict_blocked j e d room h b = ground (
    arith,
    lookup-filter (is_live l now) j l.entries d,
    length-filter-le (is_live l now) l.entries,
    shrink_below (length (filter (is_live l now) l.entries)) l.max_entries
        (filter (is_live l now) l.entries),
  )

  -- `evict` changes the entries only.
  pub evict_config :
      ((evict l now).max_entries ≡ l.max_entries)
      × ((evict l now).max_failures ≡ l.max_failures)
      × ((evict l now).window ≡ l.window)
      × ((evict l now).block_for ≡ l.block_for)
  unfolding evict
  evict_config = ground arith
