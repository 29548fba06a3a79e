-- ===== src/Http/Expiry.antt =====
-- router.go, `handleCreateAgentToken`: when a token runs out that was asked for so many hours.
use vibe_terminal.Base.{ℕ, ◌+◌, ◌-◌, ◌*◌, ◌^◌, ◌≤◌, ◌<◌, ◌≡◌, ◌↔◌, ltb, arith, Bool-cases, inl, inr}
use vibe_terminal.Http.Tokens.{add_hours}

-- The nanoseconds of an hour.
abbrev hour : ℕ
hour = 3600000000000

add_hours_near : (now hours : ℕ) → hours ≤ 2562047 → add_hours now hours ≡ now + hours * hour
unfolding add_hours
add_hours_near now hours h = ground arith

add_hours_far :
    (now hours : ℕ)
    → 2562048 ≤ hours
    → hours ≤ 5124095
    → add_hours now hours ≡ now - (2 ^ 64 - hours * hour)
unfolding add_hours
add_hours_far now hours h b = ground arith

-- For at most 5124095 hours, a token has run out when it is created exactly if at least 2562048
-- hours were asked for, and else it runs out after these hours.
pub add_hours_lem :
    (now hours : ℕ)
    → 1 ≤ now
    → hours ≤ 5124095
    → (add_hours now hours < now ↔ 2562048 ≤ hours)
      × (hours ≤ 2562047 → add_hours now hours ≡ now + hours * hour)
add_hours_lem now hours p b = elim (Bool-cases (ltb hours 2562048)) [
  | inl e ↦
      let near = add_hours_near now hours (ground (arith, e)) in
      ((λ h. absurd (omega (arith, near, h)), λ h. absurd (ground (arith, e, h))), λ h. near)
  | inr e ↦
      let far = add_hours_far now hours (ground (arith, e)) b in
      ((λ h. ground (arith, e), λ h. omega (arith, far)), λ h. absurd (ground (arith, e, h)))
]
