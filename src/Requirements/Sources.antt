-- ===== src/Requirements/Sources.antt =====
-- The filing channels and the citations that `evaluate_jurisdiction` of app/requirements/evaluator.py
-- collects from the rules it chose.
use astra_licensing_graph.Prelude.{
  ℕ, Bool, true, false, ◌&&◌, Option, none, some, List, [], ◌∷◌, ◌++◌, String, str_eq, ◌==◌,
  if◌then◌else◌, any, or_else,
}
use astra_licensing_graph.Requirements.Taxonomy.{is_authoritative, SourceFreshnessStatus, not_known}
use astra_licensing_graph.Requirements.Rules.{SourceCitation, Rule}

-- A cited source with the status the result gives it.
pub record Cited : Type 0 where
  pub citation : SourceCitation
  pub status : SourceFreshnessStatus

-- The filing channels, each once, in the order they come up.
unfoldable pub add_channels : List String → List String → List String
add_channels seen [] = seen
add_channels seen (c ∷ cs) = add_channels (if any (str_eq c) seen then seen else seen ++ c ∷ []) cs

unfoldable pub collect_channels : List String → List Rule → List String
collect_channels seen [] = seen
collect_channels seen (r ∷ rs) = collect_channels (add_channels seen r.filing_channels) rs

abbrev pub Freshness : Type 0
Freshness = List (ℕ × SourceFreshnessStatus)

abbrev pub lookup_status : ℕ → Freshness → Option SourceFreshnessStatus
lookup_status k [] = none
lookup_status k ((j, s) ∷ fs) = let rest = lookup_status k fs in if j == k then some s else rest

unfoldable pub status_of : Freshness → SourceCitation → SourceFreshnessStatus
status_of fs c =
    let looked_up : Option SourceFreshnessStatus = elim c.snapshot_id [
      | none ↦ none
      | some k ↦ lookup_status k fs
    ] in
    elim (or_else looked_up c.freshness_status) [ none ↦ not_known | some s ↦ s ]

abbrev pub same_id : Option ℕ → Option ℕ → Bool
same_id none none = true
same_id (some i) (some j) = i == j
same_id _ _ = false

abbrev pub same_source : SourceCitation → Cited → Bool
same_source c d =
    same_id c.source_id d.citation.source_id && same_id c.snapshot_id d.citation.snapshot_id

-- The citations in order, each source and snapshot once.
unfoldable pub add_citations : Freshness → List Cited → List SourceCitation → List Cited
add_citations fs seen [] = seen
add_citations fs seen (c ∷ cs) =
    add_citations fs
      (if any (same_source c) seen
        then seen
        else seen ++ record { citation = c; status = status_of fs c } ∷ [])
      cs

unfoldable pub collect_citations : Freshness → List Cited → List Rule → List Cited
collect_citations fs seen [] = seen
collect_citations fs seen (r ∷ rs) = collect_citations fs (add_citations fs seen r.citations) rs

abbrev pub from_authority : Cited → Bool
from_authority c = is_authoritative c.citation.authority_level
