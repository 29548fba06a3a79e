-- ===== src/Http/Locks.antt =====
-- server/internal/httpapi/router_2fa.go: `managementLockIndexes` and `lockManagementCredentials`, which
-- takes the locks of a request's keys one after the other.
use vibe_terminal.Base.{
  ℕ, ◌%◌, ◌<◌, ◌≤◌, ◌≡◌, String, true, List, [], ◌∷◌, ◌++◌, ltb, eqb, any, All, arith,
  if◌then◌else◌, Bool-cases, inl, inr, subst, sym,
}

-- The number of `managementAuthLocks`.
abbrev pub lock_count : ℕ
lock_count = 256

-- A map that is a set of numbers, of which the keys are read in order.
unfoldable pub insert_index : ℕ → List ℕ → List ℕ
insert_index i [] = i ∷ []
insert_index i (j ∷ js) =
    let rest = insert_index i js in
    if ltb i j then i ∷ j ∷ js else if eqb i j then j ∷ js else j ∷ rest

-- `managementLockIndexes`, where `hash` is `fnv.New32a`.
unfoldable pub management_lock_indexes : (String → ℕ) → List String → List ℕ
unfolding insert_index
management_lock_indexes hash [] = []
management_lock_indexes hash (key ∷ keys) =
    insert_index (hash key % lock_count) (management_lock_indexes hash keys)

abbrev pub IsAscending : List ℕ → Type 0
IsAscending [] = Unit
IsAscending (i ∷ is) = All (λ j. i < j) is × IsAscending is

All-below : (i j : ℕ) (js : List ℕ) → i ≤ j → All (λ k. j < k) js → All (λ k. i < k) js
All-below i j [] p h = tt
All-below i j (k ∷ js) p (q, h) = (omega arith, All-below i j js p h)

All-insert_index :
    (P : ℕ → Type 0) (i : ℕ) (js : List ℕ) → P i → All P js → All P (insert_index i js)
unfolding insert_index
All-insert_index P i [] p h = (p, tt)
All-insert_index P i (j ∷ js) p (q, h) = elim (Bool-cases (ltb i j)) [
  | inl e ↦ rw e (p, (q, h))
  | inr e ↦ elim (Bool-cases (eqb i j)) [
    | inl f ↦ rw (e, f) (q, h)
    | inr f ↦ rw (e, f) (q, All-insert_index P i js p h)
  ]
]

insert_index-IsAscending : (i : ℕ) (js : List ℕ) → IsAscending js → IsAscending (insert_index i js)
unfolding insert_index
insert_index-IsAscending i [] h = (tt, tt)
insert_index-IsAscending i (j ∷ js) (a, h) = elim (Bool-cases (ltb i j)) [
  | inl e ↦ rw e ((ground (arith, e), All-below i j js (ground (arith, e)) a), (a, h))
  | inr e ↦ elim (Bool-cases (eqb i j)) [
    | inl f ↦ rw (e, f) (a, h)
    | inr f ↦
        rw (e, f)
          (
            All-insert_index (λ k. j < k) i js (ground (arith, e, f)) a,
            insert_index-IsAscending i js h,
          )
  ]
]

-- The indexes are those of existing locks, and each is taken once, in ascending order.
pub management_lock_indexes-IsAscending :
    (hash : String → ℕ) (keys : List String)
    → IsAscending (management_lock_indexes hash keys)
      × All (λ i. i < lock_count) (management_lock_indexes hash keys)
unfolding management_lock_indexes
management_lock_indexes-IsAscending hash [] = (tt, tt)
management_lock_indexes-IsAscending hash (key ∷ keys) =
    let (ascending, bounded) = management_lock_indexes-IsAscending hash keys in
    let i = hash key % lock_count in
    (
      insert_index-IsAscending i (management_lock_indexes hash keys) ascending,
      All-insert_index (λ k. k < lock_count) i (management_lock_indexes hash keys) (omega arith)
          bounded,
    )

-- A request in the loop: it has taken the locks of `taken` and waits for `next`.
pub record Waiting (hash : String → ℕ) : Type 0 where
  pub keys : List String
  pub taken : List ℕ
  pub next : ℕ
  pub rest : List ℕ
  pub split : taken ++ next ∷ rest ≡ management_lock_indexes hash keys

-- The first waits for a lock that the second has taken.
abbrev pub WaitsFor : {hash : String → ℕ} → Waiting hash → Waiting hash → Type 0
WaitsFor a b = any (λ i. eqb i a.next) b.taken ≡ true

abbrev pub IsChain : {hash : String → ℕ} → Waiting hash → List (Waiting hash) → Type 0
IsChain a [] = Unit
IsChain a (b ∷ bs) = WaitsFor a b × IsChain b bs

abbrev pub last_of : {hash : String → ℕ} → Waiting hash → List (Waiting hash) → Waiting hash
last_of a [] = a
last_of a (b ∷ bs) = last_of b bs

All-middle :
    (P : ℕ → Type 0) (taken : List ℕ) (next : ℕ) (rest : List ℕ)
    → All P (taken ++ next ∷ rest)
    → P next
All-middle P [] next rest (p, h) = p
All-middle P (i ∷ taken) next rest (p, h) = All-middle P taken next rest h

taken_below :
    (i : ℕ) (taken : List ℕ) (next : ℕ) (rest : List ℕ)
    → IsAscending (taken ++ next ∷ rest)
    → any (λ j. eqb j i) taken ≡ true
    → i < next
taken_below i [] next rest h m = absurd (cc)
taken_below i (j ∷ taken) next rest (a, h) m = elim (Bool-cases (eqb j i)) [
  | inl e ↦ let below = All-middle (λ k. j < k) taken next rest a in ground (arith, e)
  | inr e ↦ taken_below i taken next rest h (ground (arith, m, e))
]

waits_less : {hash : String → ℕ} (a b : Waiting hash) → WaitsFor a b → a.next < b.next
waits_less {hash} a b w =
    taken_below a.next b.taken b.next b.rest
      (subst IsAscending (sym b.split) (management_lock_indexes-IsAscending hash b.keys).0) w

chain_le :
    {hash : String → ℕ} (a : Waiting hash) (bs : List (Waiting hash))
    → IsChain a bs
    → a.next ≤ (last_of a bs).next
chain_le a [] h = omega arith
chain_le a (b ∷ bs) (w, h) = omega (arith, waits_less a b w, chain_le b bs h)

-- Requests that take their locks at the same time never wait for each other in a circle, however
-- many there are and whatever keys share a lock.
pub no_deadlock :
    {hash : String → ℕ} (a : Waiting hash) (bs : List (Waiting hash))
    → IsChain a bs
    → ¬ WaitsFor (last_of a bs) a
no_deadlock a bs h w = omega (arith, waits_less (last_of a bs) a w, chain_le a bs h)
