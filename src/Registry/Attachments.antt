-- ===== src/Registry/Attachments.antt =====
-- crates/artel-daemon/src/session.rs: `register_attachment`, `list_attachments` and
-- `forget_attachment`.
use artel.Common.{Bool, true, false, Option, List, ok, err}
use artel.Protocol.Bytes.{Bytes}
use artel.Protocol.Ids.{SessionId}
use artel.Store.{SessionStore, StoredAttachment}
use artel.Registry.State.{Registry, Reply, unknown_session, with_session, stored}

module _ {σ : Type 0} (io : SessionStore σ) where
  unfoldable pub registered : SessionId → Bool → Registry σ → Reply σ (Unit {0})
  registered session true r = (ok tt, r)
  registered session false r = (err (unknown_session session), r)

  unfoldable pub register_attachment : SessionId → Bytes → Bytes → Registry σ → Reply σ (Unit {0})
  register_attachment session kind payload r =
      with_session session r
        λ _. stored (io.put_attachment session kind payload r.store) r (registered session)

  unfoldable pub list_attachments : Option Bytes → Registry σ → Reply σ (List StoredAttachment)
  list_attachments kind_filter r =
      stored (io.list_attachments kind_filter r.store) r λ found r1. (ok found, r1)

  unfoldable pub forget_attachment : SessionId → Bytes → Registry σ → Reply σ (Unit {0})
  forget_attachment session kind r =
      stored (io.delete_attachment session kind r.store) r λ _ r1. (ok tt, r1)
