-- ===== src/Limiter/Isolation.antt =====
-- limiter.go: what the calls for one key leave of the others.
use vibe_terminal.Base.{
  ℕ, ◌<◌, ◌≡◌, ◌≢◌, inl, inr, String, some, length, arith, ne→false, Option-cases,
}
use vibe_terminal.GoMap.{lookup, erase, lookup-insert, lookup-erase, length-erase-le}
use vibe_terminal.GoMap.Distinct.{erase-IsDistinct}
use vibe_terminal.Limiter.{
  Entry, FailureLimiter, allow, evict, failed_entry, after_failure, record_failure, success,
}
use vibe_terminal.Limiter.Evict.{Keeps, evict-Keeps, evict_blocked}
use vibe_terminal.Limiter.Capacity.{IsValid}

module _ (l : FailureLimiter) (key other : String) (now : ℕ) (differ : key ≢ other) where
  allow-others : lookup other (allow l key now).0.entries ≡ lookup other l.entries
  unfolding allow
  allow-others = elim (Option-cases (lookup key l.entries)) [
    | inl e ↦ rw e
    | inr (x, e) ↦ rw e (
        ground (
          arith,
          lookup-insert key other (record x { last_seen = now }) l.entries,
          lookup-erase key other l.entries,
          ne→false key other differ,
        ))
  ]

  success-others : lookup other (success l key).entries ≡ lookup other l.entries
  unfolding success
  success-others = ground (arith, lookup-erase key other l.entries, ne→false key other differ)

  record_failure-others :
      IsValid l → Keeps (lookup other l.entries) (lookup other (record_failure l key now).0.entries)
  unfolding record_failure after_failure
  record_failure-others v =
      let rest = record l { entries = erase key l.entries } in
      ground (
        arith,
        lookup-insert key other (failed_entry l key now) (evict rest now).entries,
        lookup-erase key other l.entries,
        ne→false key other differ,
        evict-Keeps rest now other (erase-IsDistinct key l.entries v.distinct),
      )

  -- `Allow` and `Success` for one key change nothing for another. A failure of it changes nothing
  -- for the other either, or deletes the other's entry.
  pub other_keys :
      IsValid l
      → (lookup other (allow l key now).0.entries ≡ lookup other l.entries)
        × (lookup other (success l key).entries ≡ lookup other l.entries)
        × Keeps (lookup other l.entries) (lookup other (record_failure l key now).0.entries)
  other_keys v = (allow-others, success-others, record_failure-others v)

  -- Below the capacity, a failure of one key does not touch the entry of another that is blocked.
  pub record_failure-blocked :
      (e : Entry)
      → IsValid l
      → length l.entries < l.max_entries
      → lookup other l.entries ≡ some e
      → now < e.blocked_until
      → lookup other (record_failure l key now).0.entries ≡ some e
  unfolding record_failure after_failure
  record_failure-blocked e v room h b =
      let rest = record l { entries = erase key l.entries } in
      ground (
        arith,
        lookup-insert key other (failed_entry l key now) (evict rest now).entries,
        lookup-erase key other l.entries,
        ne→false key other differ,
        length-erase-le key l.entries,
        evict_blocked rest now other e (erase-IsDistinct key l.entries v.distinct),
      )
