-- ===== src/Registry/Subscribe/Shown.antt =====
-- crates/artel-daemon/src/session.rs: what `subscribe` and `log_since` show, and what they keep back.
use artel.Common.{
  ◌≡◌, ◌≢◌, ◌↔◌, ◌<◌, refl, inl, inr, Bool, true, false, some, List, arith, ok, Bool-cases, filter,
  Memᴰ, Memᴰ-filter, subst,
}
use artel.Common.Map
use artel.Protocol.Bytes.{Bytes, codes, bytes_eq, bytes_eq→eq, bytes_eq_refl}
use artel.Protocol.Ids.{Seq, SessionId}
use artel.Protocol.Message.{
  MessageKind, chat, tool, system, capability, SessionMessage, is_capability, is_system,
}
use artel.Session.{Session}
use artel.Registry.State.{Registry}
use artel.Registry.Subscribe.{shown_to_peers, log_since}

bytes_eq_iff : (xs ys : Bytes) → (bytes_eq xs ys ≡ false) ↔ (xs ≢ ys)
bytes_eq_iff xs ys = (
  λ differ same.
      let equal : bytes_eq xs ys ≡ true =
        subst (λ z. bytes_eq xs z ≡ true) same (bytes_eq_refl xs) in
      absurd (ground arith),
  λ differ. elim (Bool-cases (bytes_eq xs ys)) [
    | inl equal ↦ absurd (differ (bytes_eq→eq xs ys equal))
    | inr other ↦ other
  ],
)

is_system_iff : (k : MessageKind) → (is_system k ≡ true) ↔ (k ≡ system)
unfolding is_system
is_system_iff system = (λ _. refl, λ _. refl)
is_system_iff chat = (λ h. cc, λ h. cc)
is_system_iff tool = (λ h. cc, λ h. cc)
is_system_iff capability = (λ h. cc, λ h. cc)

is_capability_iff : (k : MessageKind) → (is_capability k ≡ false) ↔ (k ≢ capability)
unfolding is_capability
is_capability_iff capability = (λ h. cc, λ h. absurd (h refl))
is_capability_iff chat = (λ _ h. cc, λ _. refl)
is_capability_iff tool = (λ _ h. cc, λ _. refl)
is_capability_iff system = (λ _ h. cc, λ _. refl)

-- The system actions that are no part of what a client sees of the log.
abbrev pub PlainForClients : Bytes → Type 0
PlainForClients action = (action ≢ codes "workspace.ticket") × (action ≢ codes "workspace.upgrade")

-- Nor are these for the peers of the gossip topic.
abbrev pub PlainForPeers : Bytes → Type 0
PlainForPeers action =
    (action ≢ codes "workspace.ticket")
    × (action ≢ codes "workspace.upgrade")
    × (action ≢ codes "workspace.downgrade")
    × (action ≢ codes "workspace.rotate")

abbrev pub IsForClients : Seq → SessionMessage → Type 0
IsForClients cutoff m = (cutoff < m.seq) × (m.kind ≡ system → PlainForClients m.action)

abbrev pub IsForPeers : Seq → SessionMessage → Type 0
IsForPeers since m =
    (since < m.seq) × (m.kind ≢ capability) × (m.kind ≡ system → PlainForPeers m.action)

shown_to_peers_iff :
    (since : Seq) (m : SessionMessage) → (shown_to_peers since m ≡ true) ↔ IsForPeers since m
unfolding shown_to_peers
shown_to_peers_iff since m = (
  λ shown. (
    ground arith,
    (is_capability_iff m.kind).0 (ground arith),
    λ kind.
        let is = (is_system_iff m.kind).1 kind in
        (
          (bytes_eq_iff m.action (codes "workspace.ticket")).0 (ground arith),
          (bytes_eq_iff m.action (codes "workspace.upgrade")).0 (ground arith),
          (bytes_eq_iff m.action (codes "workspace.downgrade")).0 (ground arith),
          (bytes_eq_iff m.action (codes "workspace.rotate")).0 (ground arith),
        ),
  ),
  λ visible.
      let later : since < m.seq = visible.0 in
      let plain = (is_capability_iff m.kind).1 visible.1 in
      elim (Bool-cases (is_system m.kind)) [
        | inr other ↦ ground arith
        | inl is ↦
            let (t, u, d, r) = visible.2 ((is_system_iff m.kind).0 is) in
            let no_t = (bytes_eq_iff m.action (codes "workspace.ticket")).1 t in
            let no_u = (bytes_eq_iff m.action (codes "workspace.upgrade")).1 u in
            let no_d = (bytes_eq_iff m.action (codes "workspace.downgrade")).1 d in
            let no_r = (bytes_eq_iff m.action (codes "workspace.rotate")).1 r in ground arith
      ],
)

-- A filter keeps exactly the entries that the predicate behind its test holds of.
filter_iff :
    (test : SessionMessage → Bool) (P : SessionMessage → Type 0) (log : List SessionMessage)
    (m : SessionMessage)
    → (test m ≡ true) ↔ P m
    → Memᴰ m (filter test log) ↔ (Memᴰ m log × P m)
filter_iff test P log m test_P = (
  λ kept. let (here, is) = (Memᴰ-filter test log m).0 kept in (here, test_P.0 is),
  λ both. (Memᴰ-filter test log m).1 (both.0, test_P.1 both.1),
)

-- The part of a log that `log_since` gives holds exactly the messages of the log above the asker's
-- number that are no capability message, and no system message with the ticket, the upgrade, the
-- downgrade or the rotate action.
pub log_since-shown :
    {σ : Type 0} (id : SessionId) (since : Seq) (r : Registry σ) (s : Session)
    (shown : List SessionMessage)
    → Map.get id r.sessions ≡ some s
    → (log_since id since r).0 ≡ ok shown
    → (m : SessionMessage) → Memᴰ m shown ↔ (Memᴰ m s.log × IsForPeers since m)
log_since-shown id since r s shown found h m =
    let is_log : filter (shown_to_peers since) s.log ≡ shown = unfold log_since in ground arith in
    subst (λ l. Memᴰ m l ↔ (Memᴰ m s.log × IsForPeers since m)) is_log
      (filter_iff (shown_to_peers since) (IsForPeers since) s.log m (shown_to_peers_iff since m))
