-- ===== src/Graph.antt =====
-- internal/runtimegraph/model.go, contracts.go and criticality.go: the runtime graph, what a source
-- of it collects, and what it is asked with.
pub mod Traverse
pub mod Links
pub mod Offer
pub mod Invariant
pub mod Preserve
pub mod Round
pub mod Collect
pub mod Reach
pub mod Sources
pub mod Manifests
pub mod Resolver
pub mod Unread
use merger.Prelude.{ℕ, ℤ, Bool, List, Option, Result}
use merger.Text.{Str}
use merger.Domain.{Criticality, SystemRef, OwnershipBoundary, ChangedFile}

pub data NodeKind : Type 0 where
  service api datastore queue infra team : NodeKind
  other : Str → NodeKind

pub data EdgeType : Type 0 where
  calls reads publishes owns deploys : EdgeType
  other : Str → EdgeType

pub record Node : Type 0 where
  pub id : Str
  pub kind : NodeKind
  pub name : Str
  pub namespace : Str
  pub owner : Str
  pub criticality : Criticality
  pub metadata : List (Str × Str)

pub record Edge : Type 0 where
  pub from : Str
  pub to : Str
  pub kind : EdgeType
  pub critical : Bool
  pub directional : Bool
  pub metadata : List (Str × Str)

pub record Options : Type 0 where
  pub enable_codeowners : Bool
  pub graph_manifest_path : Str
  pub max_traversal_depth : ℤ

-- A loader gives the content of a path, or `none` where it returns an error.
abbrev pub ContentLoader : Type 0
ContentLoader = Str → Option Str

-- Of the packet the sources read the files only; a loader that is nil is `none`.
pub record ResolutionInput : Type 0 where
  pub files : List ChangedFile
  pub loader : Option ContentLoader
  pub options : Options

pub record Fragment : Type 0 where
  pub nodes : List Node
  pub edges : List Edge
  pub systems : List SystemRef
  pub ownership : List OwnershipBoundary
  pub notes : List Str
  pub criticality : Criticality
  pub affected : List Str

unfoldable pub criticality_rank : Criticality → ℕ
criticality_rank Criticality.tier0 = 4
criticality_rank Criticality.high = 3
criticality_rank Criticality.normal = 2
criticality_rank _ = 1
