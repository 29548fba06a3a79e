-- ===== src/Hub/Delivery.antt =====
-- hub.go: what a history of calls of `Hub` delivers, against a specification that keeps only which
-- peer subscribes to which session.
use vibe_terminal.Base.{
  String, ◌≡◌, refl, Bool, true, false, not, ◌&&◌, ◌||◌, List, [], ◌∷◌, ◌∙◌, sym, ◌==◌, arith,
  Option-cases, inl, inr,
}
use vibe_terminal.GoMap.{lookup}
use vibe_terminal.GoMap.Distinct.{IsDistinct, insert-IsDistinct}
use vibe_terminal.Protocol.{Message}
use vibe_terminal.Hub.{
  Hub, new_hub, Outbound, attach_agent, detach_agent, bind_session, subscribe_web, unsubscribe_web,
  unsubscribe_peer, remove_peer, add_peer, peers_of, from_agent, session_id_of,
}
use vibe_terminal.Hub.Subscriptions.{
  subscribed, subscribed-subscribe_web, subscribed-unsubscribe_web, subscribed-unsubscribe_peer,
  remove_everywhere-IsDistinct,
}
use vibe_terminal.Hub.Routing.{reached, from_agent_lem}

-- A call that changes the hub: the methods in the order of the source.
pub data Call : Type 0 where
  attach : String → String → Call
  detach : String → Call
  bind : String → String → Call
  subscribe : String → String → Call
  unsubscribe : String → String → Call
  leave : String → Call

unfoldable pub perform : Call → Hub → Hub
perform (attach device_id peer) h = attach_agent h device_id peer
perform (detach device_id) h = detach_agent h device_id
perform (bind session_id device_id) h = bind_session h session_id device_id
perform (subscribe session_id peer) h = subscribe_web h session_id peer
perform (unsubscribe session_id peer) h = unsubscribe_web h session_id peer
perform (leave peer) h = unsubscribe_peer h peer

unfoldable pub perform_all : List Call → Hub → Hub
unfolding perform
perform_all [] h = h
perform_all (call ∷ calls) h = perform_all calls (perform call h)

-- The specification: the pairs of a session and a peer that subscribes to it.
abbrev pub Pairs : Type 0
Pairs = String → String → Bool

abbrev pub wanted_after : Call → Pairs → Pairs
wanted_after (attach d p) wanted t q = wanted t q
wanted_after (detach d) wanted t q = wanted t q
wanted_after (bind s d) wanted t q = wanted t q
wanted_after (subscribe s p) wanted t q = (s == t && p == q) || wanted t q
wanted_after (unsubscribe s p) wanted t q = wanted t q && not (s == t && p == q)
wanted_after (leave p) wanted t q = wanted t q && not (p == q)

unfoldable pub wanted_by : List Call → Pairs → Pairs
wanted_by [] wanted = wanted
wanted_by (call ∷ calls) wanted = wanted_by calls (wanted_after call wanted)

wanted_after_ext :
    (call : Call) (v w : Pairs)
    → ((t q : String) → v t q ≡ w t q)
    → (t q : String) → wanted_after call v t q ≡ wanted_after call w t q
wanted_after_ext (attach d p) v w e t q = e t q
wanted_after_ext (detach d) v w e t q = e t q
wanted_after_ext (bind s d) v w e t q = e t q
wanted_after_ext (subscribe s p) v w e t q = ground (arith, e t q)
wanted_after_ext (unsubscribe s p) v w e t q = ground (arith, e t q)
wanted_after_ext (leave p) v w e t q = ground (arith, e t q)

wanted_by_ext :
    (calls : List Call) (v w : Pairs)
    → ((t q : String) → v t q ≡ w t q)
    → (t q : String) → wanted_by calls v t q ≡ wanted_by calls w t q
unfolding wanted_by
wanted_by_ext [] v w e t q = e t q
wanted_by_ext (call ∷ calls) v w e t q =
    wanted_by_ext calls (wanted_after call v) (wanted_after call w) (wanted_after_ext call v w e) t
      q

-- One call does to the subscriptions what the specification says.
subscribed-perform :
    (call : Call) (h : Hub)
    → IsDistinct h.web_subscribers
    → (t q : String) → subscribed (perform call h) t q ≡ wanted_after call (subscribed h) t q
unfolding perform attach_agent detach_agent bind_session
subscribed-perform (attach d p) h valid t q = refl
subscribed-perform (detach d) h valid t q = refl
subscribed-perform (bind s d) h valid t q = refl
subscribed-perform (subscribe s p) h valid t q = ground (arith, subscribed-subscribe_web h s p t q)
subscribed-perform (unsubscribe s p) h valid t q =
    ground (arith, subscribed-unsubscribe_web h s p t q)
subscribed-perform (leave p) h valid t q = subscribed-unsubscribe_peer h p t q valid

perform-IsDistinct :
    (call : Call) (h : Hub)
    → IsDistinct h.web_subscribers
    → IsDistinct (perform call h).web_subscribers
unfolding perform attach_agent detach_agent bind_session subscribe_web unsubscribe_web
    unsubscribe_peer
perform-IsDistinct (attach d p) h valid = valid
perform-IsDistinct (detach d) h valid = valid
perform-IsDistinct (bind s d) h valid = valid
perform-IsDistinct (subscribe s p) h valid =
    insert-IsDistinct s (add_peer p (peers_of (lookup s h.web_subscribers))) h.web_subscribers valid
perform-IsDistinct (unsubscribe s p) h valid = elim (Option-cases (lookup s h.web_subscribers)) [
  | inl e ↦ ground arith
  | inr (ps, e) ↦ ground (arith, insert-IsDistinct s (remove_peer p ps) h.web_subscribers valid)
]
perform-IsDistinct (leave p) h valid = remove_everywhere-IsDistinct p h.web_subscribers valid

subscribed-perform_all :
    (calls : List Call) (h : Hub)
    → IsDistinct h.web_subscribers
    → (t q : String) → subscribed (perform_all calls h) t q ≡ wanted_by calls (subscribed h) t q
unfolding perform_all wanted_by
subscribed-perform_all [] h valid t q = refl
subscribed-perform_all (call ∷ calls) h valid t q =
    subscribed-perform_all calls (perform call h) (perform-IsDistinct call h valid) t q
    ∙ wanted_by_ext calls (subscribed (perform call h)) (wanted_after call (subscribed h))
        (subscribed-perform call h valid) t q

module _ (delivers : String → Outbound → Bool) (calls : List Call) (msg : Message)
    (q : String) where
  -- After any calls of a new hub, a peer that a message of an agent is sent to is one that the calls
  -- leave subscribed to its session.
  pub from_agent_sound :
      reached q (from_agent delivers (perform_all calls new_hub) msg).1 ≡ true
      → wanted_by calls (λ t p. false) (session_id_of msg) q ≡ true
  unfolding new_hub lookup
  from_agent_sound r =
      sym (subscribed-perform_all calls new_hub tt (session_id_of msg) q)
      ∙ (from_agent_lem delivers (perform_all calls new_hub) msg q).0 r
