-- ===== src/Registry/Mirror/Inbound.antt =====
-- crates/artel-daemon/src/session.rs (`apply_inbound_mirror_message`): duplicates, forgeries, and the
-- order of arrival.
use artel.Common.{◌≡◌, inl, inr, true, false, arith, Bool-cases, not, ◌||◌}
use artel.Protocol.Ids.{SessionId}
use artel.Protocol.Message.{SessionMessage}
use artel.Protocol.Signing.{verify_message, verify_seq}
use artel.Session.{Session}
use artel.Store.{SessionStore}
use artel.Registry.State.{Env, Registry}
use artel.Registry.Mirror.{mirror_insert, partition_point, has_seq_at, authentic, apply_inbound}
use artel.Protocol.Message.{SessionMessage}
use artel.Common.{◌≢◌, sym, ◌∙◌}
use artel.Session.Order.{Rising}
use artel.Registry.Mirror.Held.{Absent, holds_seq-Absent, has_seq_at-Rising}
use artel.Registry.Mirror.Order.{has_seq_at-mirror_insert}
use artel.Registry.Mirror.{
  mirror_insert, partition_point, has_seq_at, authentic, apply_inbound, verified,
}

module _ (env : Env) {σ : Type 0} (io : SessionStore σ) where
  -- A message that the author's signature or the host's over its place does not cover changes
  -- nothing, and so does one whose number the log has.
  pub apply_inbound-refused :
      (id : SessionId) (s : Session) (m : SessionMessage) (r : Registry σ)
      → (has_seq_at (partition_point m.seq s.log) m.seq s.log || not (authentic env.ed25519 id s m))
        ≡ true
      → apply_inbound env io id s m r ≡ r
  unfolding apply_inbound
  apply_inbound-refused id s m r h = ground arith

  -- If a message that arrives at a mirror whose log is in order changes the registry, then its
  -- author's signature and the host's signature over its number both verify, and no message of the
  -- log has its number.
  pub apply_inbound-changed :
      (id : SessionId) (s : Session) (m : SessionMessage) (r : Registry σ)
      → Rising s.log
      → apply_inbound env io id s m r ≢ r
      → (verified (verify_message env.ed25519 id m m.signature) ≡ true)
        × (verified (verify_seq env.ed25519 s.host id m.seq m.signature m.host_sig) ≡ true)
        × Absent m.seq s.log
  unfolding authentic
  apply_inbound-changed id s m r rising change =
      elim (Bool-cases (
        has_seq_at (partition_point m.seq s.log) m.seq s.log
        || not (authentic env.ed25519 id s m))) [
          | inl refused ↦ absurd (change (apply_inbound-refused id s m r refused))
          | inr taken ↦
              let missed : has_seq_at (partition_point m.seq s.log) m.seq s.log ≡ false =
                ground arith in
              (
                ground arith,
                ground arith,
                (holds_seq-Absent m.seq s.log).0
                    (sym (has_seq_at-Rising m.seq s.log rising) ∙ missed),
              )
        ]

  -- A message that a mirror has put into its log, which was in order and did not have its number,
  -- changes nothing when it is delivered again.
  pub apply_inbound-again :
      (id : SessionId) (s : Session) (m : SessionMessage) (r : Registry σ)
      → Rising s.log
      → Absent m.seq s.log
      → apply_inbound env io id (mirror_insert s m) m r ≡ r
  apply_inbound-again id s m r rising new =
      apply_inbound-refused id (mirror_insert s m) m r
        (let seen = has_seq_at-mirror_insert s m rising new in ground arith)
