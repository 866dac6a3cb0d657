-- ===== src/Graph/Memory/Queries.antt =====
-- The edges that `outgoing` and `incoming` return.
use coruscant.Prelude.{◌≡◌, ◌↔◌, Memᴰ, Memᴰ-keep, arith, ◌==◌, ◌&&◌, string_eq}
use text.Mathlib.TextEquality.{eq_iff}
use coruscant.Graph.Types.{EntityId, GraphEdge}
use coruscant.Graph.Memory.{Store, outgoing, incoming, source_of, target_of}

pub outgoing_iff :
    (s : Store) (i : EntityId) (e : GraphEdge)
    → Memᴰ e (outgoing s i) ↔ (Memᴰ e s.edges × (source_of e ≡ i))
unfolding outgoing
outgoing_iff s i e = ground (
  arith,
  Memᴰ-keep (λ (x : GraphEdge). x.source_kind == i.0 && x.source_key == i.1) e s.edges,
  eq_iff e.source_kind i.0,
  eq_iff e.source_key i.1,
)

pub incoming_iff :
    (s : Store) (i : EntityId) (e : GraphEdge)
    → Memᴰ e (incoming s i) ↔ (Memᴰ e s.edges × (target_of e ≡ i))
unfolding incoming
incoming_iff s i e = ground (
  arith,
  Memᴰ-keep (λ (x : GraphEdge). x.target_kind == i.0 && x.target_key == i.1) e s.edges,
  eq_iff e.target_kind i.0,
  eq_iff e.target_key i.1,
)
