-- ===== src/Mesh/Receive.antt =====
-- The handlers of crates/nostr-pubsub/src/mesh.rs: `receive` and its three cases,
-- `dismiss_frame` and `record_transport_disruption`. A handler returns the new state beside its
-- result, since an error leaves what was changed before it.
mod Providers
mod Inventories
mod Wants
mod Frames
unfoldable pub use Providers.*
unfoldable pub use Inventories.*
unfoldable pub use Wants.*
unfoldable pub use Frames.*
use nostr_pubsub.Prelude.{ℕ, true, false, List}
use nostr_pubsub.Prelude.Map.{Text}
use nostr_pubsub.Mesh.Types.{NostrEvent, WireMessage, inventory, want, frame, MeshPeer, ok, err}
use nostr_pubsub.Mesh.State.{Mesh, record_invalid_message}
use nostr_pubsub.Mesh.Prune.{prune}

module _ {E : Type 0} ⦃nostr : NostrEvent E⦄ where
  -- The end of `receive`: an error counts against the source.
  abbrev pub blame : Text → Outcome E → Outcome E
  blame source (m, ok actions) = (m, ok actions)
  blame source (m, err x) = (record_invalid_message source m, err x)

  unfoldable pub dispatch : Text → WireMessage E → List MeshPeer → ℕ → Mesh E → Outcome E
  dispatch source (inventory id kind bytes hops) peers now m =
      receive_inventory source id kind bytes hops now m
  dispatch source (want id) peers now m = receive_want source id now m
  dispatch source (frame id e) peers now m = receive_frame source id e peers now true m

  unfoldable pub receive : Text → WireMessage E → List MeshPeer → ℕ → Mesh E → Outcome E
  receive source message peers now m =
      blame source (dispatch source message peers now (prune now m))

  -- `receive_verified_frame` of mesh_verified.rs
  unfoldable pub receive_verified_frame : Text → Text → E → List MeshPeer → ℕ → Mesh E → Outcome E
  receive_verified_frame source id e peers now m =
      blame source (receive_frame source id e peers now false (prune now m))
