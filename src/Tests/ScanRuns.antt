-- ===== src/Tests/ScanRuns.antt =====
-- Runs of the offline scan.
use merger.Prelude.{◌≡◌, pos, true, false, [], ◌∷◌, none, insertion_order}
use merger.Text.{lit}
use merger.Domain.{ChangePacket}
use merger.Risk.{default_weights}
use merger.Diff
use merger.Graph.Sources.{Decoders}
use merger.Pipeline.Stages.{new_packet, analyse}
use merger.Scan.{ScanOptions, Surroundings, scan_origin, loader_of, scan_packet}
use merger.Scan.Agrees.{processor_of, scan_packet-as_ingested}

abbrev no_yaml : Decoders
no_yaml = record {
  order = insertion_order;
  manifest = λ text. none;
  graph = λ text. none;
  glob = λ pattern path. false;
}

abbrev pub offline : Surroundings
offline = record {
  order = insertion_order;
  weights = default_weights;
  mutations = record { rules = []; extractors = []; analyzers = [] };
  ids = λ n. n ∷ [];
  decoders = no_yaml;
  load = λ path. [];
  id = lit "cp_1";
  started = 1;
  ended = 2;
}

abbrev pub options : ScanOptions
options = record {
  diff = lit "diff --git a/internal/api/x.go b/internal/api/x.go";
  repo = record { owner = lit "o"; name = lit "r"; full_name = lit "o/r" };
  ref = lit "head";
  base_sha = lit "b1";
  current_base_sha = lit "b2";
  title = [];
  author = record { login = []; display_name = []; email = []; kind = [] };
  policy = record { policies = [] };
  lanes = record { green_max = pos 20; yellow_max = pos 55; red_max = pos 85 };
  enable_codeowners = true;
}

abbrev scanned : ChangePacket
scanned = new_packet (scan_origin offline options) (Diff.parse_unified options.diff)

scan_packet-as_ingested_example :
    scan_packet offline options scanned
    ≡ analyse (processor_of offline options (lit "graph.yaml") (pos 2)) (loader_of offline) scanned
scan_packet-as_ingested_example =
    scan_packet-as_ingested offline options (lit "graph.yaml") (pos 2) scanned
