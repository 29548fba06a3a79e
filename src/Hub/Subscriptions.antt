-- ===== src/Hub/Subscriptions.antt =====
-- hub.go: the methods on subscriptions, seen as a set of pairs of a session and a peer.
use vibe_terminal.Base.{
  String, ◌≡◌, refl, inl, inr, Bool, true, false, not, ◌&&◌, ◌||◌, none, List, [], ◌∷◌, ◌==◌,
  eq_iff, if◌then◌else◌, arith, is_some, Option-cases,
}
use vibe_terminal.GoMap.{GoMap, lookup, insert, lookup-insert}
use vibe_terminal.GoMap.Distinct.{IsDistinct}
use vibe_terminal.Hub.{
  Hub, subscribe_web, unsubscribe_web, unsubscribe_peer, remove_everywhere, keep_session, peers_of,
  has_peer, add_peer, remove_peer,
}

abbrev pub subscribed : Hub → String → String → Bool
subscribed h session_id peer = has_peer peer (peers_of (lookup session_id h.web_subscribers))

-- Two equal texts are in a list together.
has_peer_eq :
    (p q : String) (ps : List String)
    → has_peer p ps ≡ true
    → (p == q) ≡ true
    → has_peer q ps ≡ true
has_peer_eq p q [] h e = ground arith
has_peer_eq p q (r ∷ ps) h e =
    ground (arith, has_peer_eq p q ps, eq_iff r p, eq_iff r q, eq_iff p q)

has_peer-add :
    (p q : String) (ps : List String) → has_peer q (add_peer p ps) ≡ (p == q || has_peer q ps)
has_peer-add p q ps = ground (arith, has_peer_eq p q ps)

has_peer-remove :
    (p q : String) (ps : List String)
    → has_peer q (remove_peer p ps) ≡ (has_peer q ps && not (p == q))
has_peer-remove p q [] = refl
has_peer-remove p q (r ∷ ps) =
    ground (arith, has_peer-remove p q ps, eq_iff r p, eq_iff r q, eq_iff p q)

has_peer-peers_of :
    (s q : String) (m : GoMap (List String)) (k : String) (ps : List String)
    → has_peer q (peers_of (lookup s (insert k ps m)))
      ≡ (if k == s then has_peer q ps else has_peer q (peers_of (lookup s m)))
has_peer-peers_of s q m k ps = ground (arith, lookup-insert k s ps m)

-- Subscribing adds one pair, and no other.
pub subscribed-subscribe_web :
    (h : Hub) (s p t q : String)
    → subscribed (subscribe_web h s p) t q
      ≡ (if s == t then p == q || subscribed h t q else subscribed h t q)
unfolding subscribe_web
subscribed-subscribe_web h s p t q = ground (
  arith,
  eq_iff s t,
  has_peer-peers_of t q h.web_subscribers s (add_peer p (peers_of (lookup s h.web_subscribers))),
  has_peer-add p q (peers_of (lookup s h.web_subscribers)),
)

lookup-keep_session :
    (t k : String) (ps : List String) (m : GoMap (List String))
    → lookup t m ≡ none
    → (k == t) ≡ false
    → lookup t (keep_session k ps m) ≡ none
unfolding lookup
lookup-keep_session t k [] m e n = e
lookup-keep_session t k (p ∷ ps) m e n = ground arith

lookup-remove_everywhere :
    (p t : String) (m : GoMap (List String))
    → is_some (lookup t m) ≡ false
    → lookup t (remove_everywhere p m) ≡ none
unfolding lookup remove_everywhere
lookup-remove_everywhere p t [] e = refl
lookup-remove_everywhere p t ((k, ps) ∷ m) e =
    lookup-keep_session t k (remove_peer p ps) (remove_everywhere p m)
      (ground (arith, lookup-remove_everywhere p t m)) (ground arith)

has_peer-keep_session :
    (t q k : String) (ps : List String) (m : GoMap (List String))
    → ((k == t) ≡ true → lookup t m ≡ none)
    → has_peer q (peers_of (lookup t (keep_session k ps m)))
      ≡ (if k == t then has_peer q ps else has_peer q (peers_of (lookup t m)))
unfolding lookup
has_peer-keep_session t q k [] m e = ground arith
has_peer-keep_session t q k (p ∷ ps) m e = ground arith

has_peer-remove_everywhere :
    (p t q : String) (m : GoMap (List String))
    → IsDistinct m
    → has_peer q (peers_of (lookup t (remove_everywhere p m)))
      ≡ has_peer q (remove_peer p (peers_of (lookup t m)))
unfolding lookup remove_everywhere
has_peer-remove_everywhere p t q [] d = refl
has_peer-remove_everywhere p t q ((k, ps) ∷ m) d = ground (
  arith,
  has_peer-keep_session t q k (remove_peer p ps) (remove_everywhere p m)
      (λ e. lookup-remove_everywhere p t m (ground (arith, eq_iff k t))),
  has_peer-remove_everywhere p t q m d.1,
)

keep_session-IsDistinct :
    (k : String) (ps : List String) (m : GoMap (List String))
    → lookup k m ≡ none
    → IsDistinct m
    → IsDistinct (keep_session k ps m)
keep_session-IsDistinct k [] m e d = d
keep_session-IsDistinct k (p ∷ ps) m e d = ground arith

pub remove_everywhere-IsDistinct :
    (p : String) (m : GoMap (List String)) → IsDistinct m → IsDistinct (remove_everywhere p m)
unfolding remove_everywhere
remove_everywhere-IsDistinct p [] d = tt
remove_everywhere-IsDistinct p ((k, ps) ∷ m) d =
    keep_session-IsDistinct k (remove_peer p ps) (remove_everywhere p m)
      (lookup-remove_everywhere p k m d.0) (remove_everywhere-IsDistinct p m d.1)

-- A browser's connection that ends takes its peer out of every session, and no other peer out of
-- any.
pub subscribed-unsubscribe_peer :
    (h : Hub) (p t q : String)
    → IsDistinct h.web_subscribers
    → subscribed (unsubscribe_peer h p) t q ≡ (subscribed h t q && not (p == q))
unfolding unsubscribe_peer
subscribed-unsubscribe_peer h p t q d = ground (
  arith,
  has_peer-remove_everywhere p t q h.web_subscribers d,
  has_peer-remove p q (peers_of (lookup t h.web_subscribers)),
)

pub subscribed-unsubscribe_web :
    (h : Hub) (s p t q : String)
    → subscribed (unsubscribe_web h s p) t q
      ≡ (if s == t then subscribed h t q && not (p == q) else subscribed h t q)
unfolding unsubscribe_web
subscribed-unsubscribe_web h s p t q = elim (Option-cases (lookup s h.web_subscribers)) [
  | inl e ↦ ground (arith, eq_iff s t)
  | inr (ps, e) ↦ ground (
    arith,
    eq_iff s t,
    has_peer-peers_of t q h.web_subscribers s (remove_peer p ps),
    has_peer-remove p q ps,
  )
]
