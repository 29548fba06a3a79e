-- ===== src/Files/Slots.antt =====
-- service.go, `acquire` and `release`: the number of operations of a device.
use vibe_terminal.Base.{
  ℕ, suc, ◌-◌, ◌≤◌, String, ◌≡◌, refl, Option, none, some, List, [], ◌∷◌, ◌==◌, eq_iff, arith, inl,
  inr, Bool-cases, leb, if◌then◌else◌, count,
}
use vibe_terminal.GoMap.{lookup, insert, lookup-insert, lookup-erase}
use vibe_terminal.Files.{Service, new_service, active_of, acquire, release}

-- What happens to the slots: an operation of a device begins, or one that holds a slot ends.
pub data Event : Type 0 where
  begin end : String → Event

-- The service, and the devices of the operations that hold a slot.
abbrev pub Slots : Type 0
Slots = Service × List String

remove_one : String → List String → List String
remove_one d [] = []
remove_one d (x ∷ xs) = if x == d then xs else x ∷ remove_one d xs

unfoldable begun : String → Slots → Option Service → Slots
begun d (s, holders) none = (s, holders)
begun d (s, holders) (some s') = (s', d ∷ holders)

abbrev held_by : String → List String → ℕ
held_by d holders = count (λ x. x == d) holders

unfoldable step : Event → Slots → Slots
unfolding begun remove_one
step (begin d) (s, holders) = begun d (s, holders) (acquire d s)
step (end d) (s, holders) =
    if leb 1 (held_by d holders) then (release d s, remove_one d holders) else (s, holders)

unfoldable pub run_slots : List Event → Slots → Slots
unfolding step
run_slots [] s = s
run_slots (e ∷ es) s = run_slots es (step e s)

-- The service counts the operations of each device that hold a slot, and there are never more than
-- `maxPerDevice`.
pub record AreCounted (s : Slots) : Type 0 where
  pub counted : (d : String) → active_of d s.0 ≡ held_by d s.1
  pub bounded : (d : String) → held_by d s.1 ≤ s.0.max_per_device

active-acquire :
    (d e : String) (s s' : Service)
    → acquire d s ≡ some s'
    → (active_of e s' ≡ (if d == e then suc (active_of e s) else active_of e s))
      × (suc (active_of d s) ≤ s.max_per_device)
      × (s'.max_per_device ≡ s.max_per_device)
unfolding acquire
active-acquire d e s s' h =
    ground (arith, eq_iff d e, lookup-insert d e (suc (active_of d s)) s.active)

active-release :
    (d e : String) (s : Service)
    → (active_of e (release d s) ≡ (if d == e then active_of e s - 1 else active_of e s))
      × ((release d s).max_per_device ≡ s.max_per_device)
unfolding release active_of
active-release d e s = ground (
  arith,
  eq_iff d e,
  lookup-insert d e (active_of d s - 1) s.active,
  lookup-erase d e (insert d (active_of d s - 1) s.active),
)

held_by-remove_one :
    (d e : String) (holders : List String)
    → 1 ≤ held_by d holders
    → held_by e (remove_one d holders)
      ≡ (if d == e then held_by e holders - 1 else held_by e holders)
unfolding remove_one
held_by-remove_one d e [] h = absurd (omega arith)
held_by-remove_one d e (x ∷ xs) h =
    ground (arith, eq_iff x d, eq_iff d e, eq_iff x e, held_by-remove_one d e xs)

begun-AreCounted :
    (d : String) (s : Service) (holders : List String) (asked : Option Service)
    → acquire d s ≡ asked
    → AreCounted (s, holders)
    → AreCounted (begun d (s, holders) asked)
unfolding begun
begun-AreCounted d s holders none e h = h
begun-AreCounted d s holders (some s') e h = record {
  counted = λ x. let (a, b, c) = active-acquire d x s s' e in ground (arith, a, h.counted x);
  bounded = λ x.
      let (a, b, c) = active-acquire d x s s' e in
      ground (arith, b, c, h.counted d, h.bounded x, eq_iff d x);
}

step-AreCounted : (e : Event) (s : Slots) → AreCounted s → AreCounted (step e s)
unfolding step
step-AreCounted (begin d) (s, holders) h = begun-AreCounted d s holders (acquire d s) refl h
step-AreCounted (end d) (s, holders) h = elim (Bool-cases (leb 1 (held_by d holders))) [
  | inr e ↦ rw e h
  | inl e ↦ rw e (record {
    counted = λ x.
        let (a, b) = active-release d x s in
        ground (arith, a, h.counted x, held_by-remove_one d x holders, e);
    bounded = λ x.
        let (a, b) = active-release d x s in
        ground (arith, b, h.bounded x, held_by-remove_one d x holders, e);
  })
]

run_slots-AreCounted : (es : List Event) (s : Slots) → AreCounted s → AreCounted (run_slots es s)
unfolding run_slots
run_slots-AreCounted [] s h = h
run_slots-AreCounted (e ∷ es) s h = run_slots-AreCounted es (step e s) (step-AreCounted e s h)

-- From a new service, after any operations of any devices have begun and ended, the service counts
-- for each device the operations that hold a slot, and they are at most `maxPerDevice`.
pub run_slots-new_service : (es : List Event) → AreCounted (run_slots es (new_service, []))
unfolding new_service active_of lookup
run_slots-new_service es =
    run_slots-AreCounted es (new_service, [])
      (record { counted = λ d. refl; bounded = λ d. omega arith })
