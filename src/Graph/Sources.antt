-- ===== src/Graph/Sources.antt =====
-- internal/runtimegraph: the sources of a resolution. The YAML decoder and `filepath.Match` are
-- parameters.
use merger.Prelude.{
  ℕ, Bool, false, ◌||◌, List, [], ◌∷◌, Option, none, some, ◌==◌, nat_key, if◌then◌else◌, Dict, put,
  MapOrder, map,
}
use merger.Text.{
  Str, str_key, lit, trim, trim_space, split, fields, has_prefix, contains, trim_prefix,
}
use merger.Domain.{Criticality, SystemRef, OwnershipBoundary, ChangedFile}
use merger.Graph.{Edge, NodeKind, Fragment, ContentLoader, ResolutionInput}

pub record GraphManifestNode : Type 0 where
  pub id : Str
  pub name : Str
  pub kind : NodeKind
  pub owner : Str
  pub criticality : Criticality
  pub paths : List Str

pub record GraphManifest : Type 0 where
  pub nodes : List GraphManifestNode
  pub edges : List Edge

-- `manifest` reads `kind` and `metadata.name` of a YAML map, each empty where it is no text; `none`
-- is an error of the decoder. `glob` is filepath.Match, false on a bad pattern.
pub record Decoders : Type 1 where
  pub order : MapOrder
  pub manifest : Str → Option (Str × Str)
  pub graph : Str → Option GraphManifest
  pub glob : Str → Str → Bool

abbrev pub no_fragment : Fragment
no_fragment = record {
  nodes = [];
  edges = [];
  systems = [];
  ownership = [];
  notes = [];
  criticality = Criticality.unset;
  affected = [];
}

abbrev pub slash : ℕ → Bool
slash c = c == b'/'

-- source_repository_topology.go
abbrev pub service_system : Str → SystemRef
service_system name = record {
  kind = lit "service";
  name = name;
  owner = name;
  criticality = Criticality.normal;
}

abbrev pub service_owner : Str → OwnershipBoundary
service_owner name = record { domain = name; team = name; systems = name ∷ []; critical = false }

service_root : Str → Bool
unfolding lit
service_root part =
    part == lit "cmd" || (part == lit "internal" || (part == lit "pkg" || part == lit "services"))

second_part : List Str → Option Str
unfolding service_root
second_part (root ∷ (name ∷ parts)) = if service_root root then some name else none
second_part _ = none

-- The service that a path names.
unfoldable pub service_of : Str → Option Str
unfolding second_part trim split
service_of path = second_part (split b'/' (trim slash path))

abbrev put_service : Option Str → Dict Str SystemRef → Dict Str SystemRef
put_service none services = services
put_service (some name) services = put name (service_system name) services

unfoldable pub topology_services : Dict Str SystemRef → List ChangedFile → Dict Str SystemRef
unfolding put service_of lit
topology_services services [] = services
topology_services services (f ∷ fs) =
    topology_services (put_service (service_of f.path) services) fs

abbrev pub put_owner : Option Str → Dict Str OwnershipBoundary → Dict Str OwnershipBoundary
put_owner none owners = owners
put_owner (some name) owners = put name (service_owner name) owners

unfoldable pub topology_owners :
    Dict Str OwnershipBoundary → List ChangedFile → Dict Str OwnershipBoundary
unfolding put service_of
topology_owners owners [] = owners
topology_owners owners (f ∷ fs) = topology_owners (put_owner (service_of f.path) owners) fs

-- The values of a map, in the order of a `range` over it.
abbrev pub values : {K : Type 0} {V : Type 0} → MapOrder → Dict K V → List V
values order m = map (λ e. e.1) (order.iterate _ m)

unfoldable pub collect_topology : MapOrder → ResolutionInput → Fragment
unfolding topology_services topology_owners lit
collect_topology order input = record no_fragment {
  systems = values order (topology_services [] input.files);
  ownership = values order (topology_owners [] input.files);
  notes = lit "repository topology source derived impacted services from changed paths" ∷ [];
}

-- source_codeowners.go
abbrev pub starred : ℕ → Bool
starred c = c == b'*'

put_boundary : ChangedFile → List Str → Dict Str OwnershipBoundary → Dict Str OwnershipBoundary
unfolding trim contains trim_prefix lit put
put_boundary f (first ∷ (second ∷ rest)) matches =
    let pattern = trim slash first in
    let team = trim_prefix second (lit "@") in
    if contains f.path (trim starred pattern)
    then put team
        (record { domain = pattern; team = team; systems = f.path ∷ []; critical = false }) matches
    else matches
put_boundary f _ matches = matches

-- The round of one file and one line.
unfoldable pub match_line :
    ChangedFile → Str → Dict Str OwnershipBoundary → Dict Str OwnershipBoundary
unfolding put_boundary trim_space has_prefix fields lit
match_line f line matches =
    let text = trim_space line in
    if text == [] || has_prefix text (lit "#")
    then matches
    else put_boundary f (fields text) matches

unfoldable pub match_lines :
    ChangedFile → List Str → Dict Str OwnershipBoundary → Dict Str OwnershipBoundary
unfolding match_line
match_lines f [] matches = matches
match_lines f (line ∷ lines) matches = match_lines f lines (match_line f line matches)

unfoldable pub match_files :
    List ChangedFile → List Str → Dict Str OwnershipBoundary → Dict Str OwnershipBoundary
unfolding match_lines
match_files [] lines matches = matches
match_files (f ∷ fs) lines matches = match_files fs lines (match_lines f lines matches)

unfoldable pub collect_code_owners : MapOrder → Str → List ChangedFile → List OwnershipBoundary
unfolding match_files split
collect_code_owners order code_owners files =
    values order (match_files files (split 10 code_owners) [])

abbrev pub content_or_empty : Option Str → Str
content_or_empty none = []
content_or_empty (some content) = content

code_owners_text : ContentLoader → Str
unfolding lit
code_owners_text load =
    let first = content_or_empty (load (lit ".github/CODEOWNERS")) in
    if first == [] then content_or_empty (load (lit "CODEOWNERS")) else first

abbrev noted : Str → List OwnershipBoundary → List Str
noted note [] = []
noted note (_ ∷ _) = note ∷ []

abbrev owners_fragment : List OwnershipBoundary → Fragment
owners_fragment owners = record no_fragment {
  ownership = owners;
  notes = noted (lit "codeowners source mapped changed files to owner teams") owners;
}

owners_from : MapOrder → ResolutionInput → Option ContentLoader → Fragment
unfolding code_owners_text collect_code_owners lit
owners_from order input none = no_fragment
owners_from order input (some load) =
    let content = code_owners_text load in
    if content == []
    then no_fragment
    else owners_fragment (collect_code_owners order content input.files)

unfoldable pub collect_owners : MapOrder → ResolutionInput → Fragment
unfolding owners_from
collect_owners order input = owners_from order input input.loader
