-- ===== src/Agents/Gather/Documents.antt =====
-- packages/agents/src/rca_agents/gather_graph.py, `_score_documents`: the documents by the vector search,
-- or by the words of the failure modes where that search gives nothing or fails.
use Prim.Native.String.{◌++◌ as str_append}
use industrial_rca.Prelude.{
  ℕ, suc, max, String, Option, none, some, List, [], ◌∷◌, ◌++◌, map, length, mem_text, str_eq, ltb,
  if◌then◌else◌, string_eq,
}
use industrial_rca.Prelude.Dict.{Dict, get, put}
use industrial_rca.Agents.Contracts.{
  Raising, returned, raised, ◌>>=◌, InvestigationPlan, FailureModeCandidate, or_else, option_or,
}
use industrial_rca.Agents.Gather.{Document, Hit, GatherContext, ScoredDocument}

-- A set of texts, in the order of the first additions.
unfoldable pub add_terms : List String → List String → List String
add_terms [] terms = terms
add_terms (t ∷ more) terms = add_terms more (if mem_text t terms then terms else terms ++ (t ∷ []))

unfoldable pub terms_of : GatherContext → List FailureModeCandidate → List String → List String
unfolding add_terms
terms_of ctx [] terms =
    add_terms ("seal" ∷ "leak" ∷ "vibration" ∷ "bearing" ∷ "mechanical" ∷ []) terms
terms_of ctx (c ∷ candidates) terms =
    terms_of ctx candidates (add_terms (ctx.split (ctx.lower c.name)) terms)

unfoldable pub overlap : GatherContext → String → List String → ℕ
overlap ctx text [] = 0
overlap ctx text (t ∷ terms) =
    let rest = overlap ctx text terms in if ctx.holds t text then suc rest else rest

-- `sort` by falling score; equal scores keep their order.
insert_scored : ScoredDocument → List ScoredDocument → List ScoredDocument
insert_scored d [] = d ∷ []
insert_scored d (e ∷ docs) =
    let rest = insert_scored d docs in if ltb d.score e.score then e ∷ rest else d ∷ e ∷ docs

unfoldable pub sort_scored : List ScoredDocument → List ScoredDocument
unfolding insert_scored
sort_scored [] = []
sort_scored (d ∷ docs) = insert_scored d (sort_scored docs)

unfoldable pub keyword_score : GatherContext → List String → Document → ScoredDocument
unfolding overlap
keyword_score ctx terms d = record {
  document_id = d.document_id;
  title = or_else d.title "";
  doc_type = d.doc_type;
  score =
      ctx.rounded
        (overlap ctx
          (ctx.lower (str_append (or_else d.title "") (str_append " " (or_else d.excerpt ""))))
          terms)
        (max (length terms) 1);
  excerpt = d.excerpt;
}

unfoldable pub score_documents_keyword :
    GatherContext → List Document → InvestigationPlan → List ScoredDocument × String
unfolding keyword_score terms_of sort_scored
score_documents_keyword ctx docs plan = (
  sort_scored (map (keyword_score ctx (terms_of ctx plan.candidate_failure_modes [])) docs),
  "keyword_overlap",
)

-- `{d["document_id"]: d for d in docs}`.
unfoldable pub by_id : List Document → Dict String Document → Dict String Document
by_id [] d = d
by_id (doc ∷ docs) d = by_id docs (put doc.document_id doc d)

-- The hits among the documents, each with the title and the excerpt of its document.
unfoldable pub scored_hits : Dict String Document → List Hit → List ScoredDocument
scored_hits d [] = []
scored_hits d (h ∷ hits) =
    let rest = scored_hits d hits in
    elim (get h.document_id d) [
      | none ↦ rest
      | some doc ↦
          record {
            document_id = h.document_id;
            title = or_else doc.title "";
            doc_type = option_or h.doc_type doc.doc_type;
            score = h.score;
            excerpt = doc.excerpt;
          }
          ∷ rest
    ]

unfoldable pub joined_names : List FailureModeCandidate → String
joined_names [] = ""
joined_names (c ∷ []) = c.name
joined_names (c ∷ d ∷ candidates) =
    str_append c.name (str_append " " (joined_names (d ∷ candidates)))

-- The vector search, as far as it comes.
unfoldable pub vector_hits :
    GatherContext → List Document → InvestigationPlan → String → Raising (List ScoredDocument)
unfolding by_id scored_hits joined_names
vector_hits ctx docs plan connection_id =
    let names = joined_names plan.candidate_failure_modes in
    ctx.embed (if str_eq names "" then "failure mechanism" else names) >>= λ qvec.
    ctx.toolbox.search_documents_by_vector connection_id qvec (max (length docs) 5) >>= λ hits.
    returned (scored_hits (by_id docs []) hits)

-- `connection_id and docs`, then the hits, if there are any; else the words.
abbrev pub hits_or :
    Raising (List ScoredDocument) → List ScoredDocument × String → List ScoredDocument × String
hits_or (returned (h ∷ hits)) words = (h ∷ hits, "embedding_v1")
hits_or (returned []) words = words
hits_or (raised e) words = words

unfoldable pub score_documents :
    GatherContext → List Document → InvestigationPlan → Option String → List ScoredDocument × String
unfolding score_documents_keyword vector_hits
score_documents ctx [] plan connection_id = score_documents_keyword ctx [] plan
score_documents ctx (d ∷ docs) plan none = score_documents_keyword ctx (d ∷ docs) plan
score_documents ctx (d ∷ docs) plan (some connection_id) =
    if str_eq connection_id ""
    then score_documents_keyword ctx (d ∷ docs) plan
    else hits_or (vector_hits ctx (d ∷ docs) plan connection_id)
        (score_documents_keyword ctx (d ∷ docs) plan)
