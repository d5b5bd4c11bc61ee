-- ===== src/Session/Caps.antt =====
-- crates/artel-daemon/src/session.rs (`project_caps`, `apply_capability_to`): what the capability
-- set says of a peer, read off the log.
use artel.Common.{
  ◌≡◌, ◌≢◌, refl, ap, ◌∙◌, Option, none, some, List, [], ◌∷◌, ◌++◌, arith, if◌then◌else◌, ◌==◌,
  ==_refl, inl, inr, Option-cases,
}
use artel.Common.Map
use artel.Common.Map.{Map, get-insert, get-remove}
use artel.Protocol.Ids.{PeerId}
use artel.Protocol.Capability.{Capability, read_write, CapabilityAction, grant, revoke}
use artel.Protocol.Message.{SessionMessage, is_capability}
use artel.Session.{
  Postcard, host_root, project_action, apply_capability_to, project_message, project_all,
  project_caps, sort_by_seq,
}
use artel.Session.Order.{Ascending, sort_by_seq-Ascending}

-- What an action says of a peer: nothing, or the tier it has from then on (`none` is the floor).
abbrev pub says : PeerId → CapabilityAction → Option (Option Capability)
says p (grant q cap) = if q == p then some (some cap) else none
says p (revoke q) = if q == p then some none else none

abbrev said : PeerId → Option CapabilityAction → Option (Option Capability)
said p none = none
said p (some action) = says p action

abbrev override : Option Capability → Option (Option Capability) → Option Capability
override old none = old
override old (some new) = new

get-project_action_host :
    (host : PeerId) (action : CapabilityAction) (caps : Map Capability)
    → Map.get host (project_action host action caps) ≡ Map.get host caps
unfolding project_action
get-project_action_host host (grant q cap) caps = ground (arith, get-insert q host cap caps)
get-project_action_host host (revoke q) caps = ground (arith, get-remove q host caps)

get-project_action :
    (host p : PeerId) (action : CapabilityAction) (caps : Map Capability)
    → p ≢ host
    → Map.get p (project_action host action caps) ≡ override (Map.get p caps) (says p action)
unfolding project_action
get-project_action host p (grant q cap) caps h = ground (arith, get-insert q p cap caps)
get-project_action host p (revoke q) caps h = ground (arith, get-remove q p caps)

module _ (postcard : Postcard) (host : PeerId) where
  -- What a message says of a peer: only a capability message of the host says anything.
  abbrev pub verdict : PeerId → SessionMessage → Option (Option Capability)
  verdict p m =
      if is_capability m.kind
      then if m.peer.id == host then said p (postcard.decode_action m.payload) else none
      else none

  -- No message of the list says anything of the peer.
  abbrev pub Silent : PeerId → List SessionMessage → Type 0
  Silent p [] = Unit {0}
  Silent p (m ∷ ms) = (verdict p m ≡ none) × Silent p ms

  get-project_message_host :
      (caps : Map Capability) (m : SessionMessage)
      → Map.get host (project_message postcard host caps m) ≡ Map.get host caps
  unfolding project_message apply_capability_to
  get-project_message_host caps m = elim (Option-cases (postcard.decode_action m.payload)) [
    | inl bad ↦ ground arith
    | inr (action, decoded) ↦ ground (arith, get-project_action_host host action caps)
  ]

  get-project_message :
      (p : PeerId) (caps : Map Capability) (m : SessionMessage)
      → p ≢ host
      → Map.get p (project_message postcard host caps m) ≡ override (Map.get p caps) (verdict p m)
  unfolding project_message apply_capability_to
  get-project_message p caps m h = elim (Option-cases (postcard.decode_action m.payload)) [
    | inl bad ↦ ground arith
    | inr (action, decoded) ↦ ground (arith, get-project_action host p action caps h)
  ]

  get-project_all_host :
      (caps : Map Capability) (log : List SessionMessage)
      → Map.get host (project_all postcard host caps log) ≡ Map.get host caps
  unfolding project_all
  get-project_all_host caps [] = refl
  get-project_all_host caps (m ∷ ms) =
      get-project_all_host (project_message postcard host caps m) ms
      ∙ get-project_message_host caps m

  -- In the capabilities that any log projects to, the host can read and write.
  pub get-project_caps_host :
      (log : List SessionMessage) → Map.get host (project_caps postcard host log) ≡ some read_write
  unfolding project_caps
  get-project_caps_host log =
      get-project_all_host (host_root host) (sort_by_seq log)
      ∙ unfold Map.get in ground (arith, ==_refl host)

  pub project_all-append :
      (caps : Map Capability) (xs ys : List SessionMessage)
      → project_all postcard host caps (xs ++ ys)
        ≡ project_all postcard host (project_all postcard host caps xs) ys
  unfolding project_all
  project_all-append caps [] ys = refl
  project_all-append caps (x ∷ xs) ys =
      project_all-append (project_message postcard host caps x) xs ys

  get-project_all-Silent :
      (p : PeerId) (caps : Map Capability) (log : List SessionMessage)
      → p ≢ host
      → Silent p log
      → Map.get p (project_all postcard host caps log) ≡ Map.get p caps
  unfolding project_all
  get-project_all-Silent p caps [] h s = refl
  get-project_all-Silent p caps (m ∷ ms) h s =
      get-project_all-Silent p (project_message postcard host caps m) ms h s.1
      ∙ get-project_message p caps m h
      ∙ ap (override (Map.get p caps)) s.0

  -- In a log in order, a peer other than the host has the capability that the last message that
  -- says anything of it gives it.
  pub get-project_caps :
      (p : PeerId) (before after : List SessionMessage) (m : SessionMessage) (c : Option Capability)
      → p ≢ host
      → Ascending 0 (before ++ m ∷ after)
      → verdict p m ≡ some c
      → Silent p after
      → Map.get p (project_caps postcard host (before ++ m ∷ after)) ≡ c
  unfolding project_caps project_all
  get-project_caps p before after m c h a v s =
      let earlier = project_all postcard host (host_root host) before in
      rw
        (
          sort_by_seq-Ascending 0 (before ++ m ∷ after) a,
          project_all-append (host_root host) before (m ∷ after),
        )
        (get-project_all-Silent p (project_message postcard host earlier m) after h s
          ∙ get-project_message p earlier m h
          ∙ ap (override (Map.get p earlier)) v)

  pub get-project_caps-Silent :
      (p : PeerId) (log : List SessionMessage)
      → p ≢ host
      → Ascending 0 log
      → Silent p log
      → Map.get p (project_caps postcard host log) ≡ none
  unfolding project_caps
  get-project_caps-Silent p log h a s =
      rw (sort_by_seq-Ascending 0 log a)
        (get-project_all-Silent p (host_root host) log h s ∙ unfold Map.get in ground arith)
