-- ===== src/Mesh/Invariant/Steps.antt =====
-- What the handlers of the mesh have in common: a change of the route tables alone.
use nostr_pubsub.Prelude.Map.{text_key}
use nostr_pubsub.Mesh.Types.{NostrEvent}
use nostr_pubsub.Mesh.State.{Mesh, Routes}
use nostr_pubsub.Mesh.Receive.{Outcome}
use nostr_pubsub.Mesh.Invariant.{AreTracked, IsWellFormed}

module _ {E : Type 0} ⦃nostr : NostrEvent E⦄ where
  -- New route tables over the same inventories.
  abbrev pub with_routes : Mesh E → Routes → Mesh E
  with_routes m r = record m { routes = r }

  pub routes-IsWellFormed :
      (m : Mesh E) (r : Routes)
      → IsWellFormed m
      → AreTracked m.options m.seen.expiries r
      → IsWellFormed (with_routes m r)
  routes-IsWellFormed m r v t = record {
    usable = v.usable;
    cache = v.cache;
    content = v.content;
    seen = v.seen;
    delivered = v.delivered;
    routes = t;
    behaviors = v.behaviors;
  }

  abbrev pub LeavesWellFormed : Outcome E → Type 0
  LeavesWellFormed x = IsWellFormed x.0
