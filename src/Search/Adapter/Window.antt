-- ===== src/Search/Adapter/Window.antt =====
-- When a page is refused, and what a search that is answered returns.
use advanced_search_api.Base.{
  ℕ, str, zero, suc, ◌+◌, ◌-◌, ◌*◌, ◌≤◌, ◌<◌, Option, none, some, ◌≡◌, refl, sym, ◌∙◌, ap, List, [],
  ◌∷◌, arith, subst,
}
use advanced_search_api.Shared.{Result, ok, thrown}
use advanced_search_api.Index.Bulk.{ProductDocument}
use advanced_search_api.Search.{SearchCriteria, SearchOutcome, ProductSummary}
use advanced_search_api.Search.Query.Request.{RelevanceConfig, SearchRequest, build_search_request}
use advanced_search_api.Search.Adapter.{
  SearchConfig, SearchResponse, Hit, Searched, found, refused, result_window_exceeded,
  resolve_window, search, to_product_summary, to_product_summaries, nothing_suggested,
  resolve_suggestions, total_hits, to_outcome, with_items, first_found, summary_of, to_facets,
  search_window,
}

page_end : (page size : ℕ) → 1 ≤ page → (page - 1) * size + size ≡ page * size
page_end zero size h = absurd (omega arith)
page_end (suc page) size h = ground arith

resolve_window-found :
    (config : SearchConfig) (page size : ℕ)
    → 1 ≤ page
    → page * size ≤ config.max_result_window
    → resolve_window config page size ≡ found ((page - 1) * size, size)
unfolding resolve_window
resolve_window-found config page size h fits = ground (arith, page_end page size h)

resolve_window-refused :
    (config : SearchConfig) (page size : ℕ)
    → 1 ≤ page
    → config.max_result_window < page * size
    → resolve_window config page size
      ≡ refused (result_window_exceeded config.max_result_window (page * size))
unfolding resolve_window
resolve_window-refused config page size h over = ground (arith, page_end page size h)

-- The summaries show the hits, one for each and in order.
abbrev pub Shows : List Hit → List ProductSummary → Type 0
Shows [] [] = Unit
Shows [] (_ ∷ _) = ⊥
Shows (_ ∷ _) [] = ⊥
Shows (h ∷ hs) (s ∷ ss) =
    ((d : ProductDocument) × (h.source ≡ some d)
      × (s ≡ record {
        id = d.id;
        name = d.name;
        description = d.description;
        category = d.category;
        subcategories = d.subcategories;
        location = d.location;
        price = d.price;
        currency = str "USD";
        popularity = d.popularity;
        created_at = d.created_at;
        score = h.score;
      }))
    × Shows hs ss

Shows-first_found :
    (h : Hit) (hs : List Hit) (ss : List ProductSummary) (src : Option ProductDocument)
    (rest : Searched (List ProductSummary))
    → h.source ≡ src
    → ((ts : List ProductSummary) → rest ≡ found ts → Shows hs ts)
    → first_found (summary_of h src) rest ≡ found ss
    → Shows (h ∷ hs) ss
Shows-first_found h hs ss none rest e known r = cc
Shows-first_found h hs ss (some d) (refused f) e known r = cc
Shows-first_found h hs [] (some d) (found ts) e known r = cc
Shows-first_found h hs (s ∷ ss) (some d) (found ts) e known r = ((d, e, cc), known ss cc)

to_product_summaries-Shows :
    (hs : List Hit) (ss : List ProductSummary) → to_product_summaries hs ≡ found ss → Shows hs ss
unfolding to_product_summaries to_product_summary
to_product_summaries-Shows [] [] e = tt
to_product_summaries-Shows [] (_ ∷ _) e = cc
to_product_summaries-Shows (h ∷ hs) ss e =
    Shows-first_found h hs ss h.source (to_product_summaries hs) refl
      (to_product_summaries-Shows hs) e

module _ (config : SearchConfig) (relevance : RelevanceConfig)
    (client : SearchRequest → Result SearchResponse) (c : SearchCriteria) where
  abbrev pub request_of : SearchRequest
  request_of = build_search_request c relevance ((c.page - 1) * c.page_size) c.page_size

  -- A page that ends beyond the configured window is refused, whatever Elasticsearch would say; any
  -- other page, counted from 1, is asked for from its first hit on, and the answer is mapped.
  pub search_by_window :
      1 ≤ c.page
      → (config.max_result_window < c.page * c.page_size
          → search config relevance client c
            ≡ refused (result_window_exceeded config.max_result_window (c.page * c.page_size)))
        × (c.page * c.page_size ≤ config.max_result_window
            → search config relevance client c ≡ to_outcome config relevance c (client request_of))
  unfolding search
  search_by_window h = (
    (λ over. rw (resolve_window-refused config c.page c.page_size h over)),
    (λ fits. rw (resolve_window-found config c.page c.page_size h fits)),
  )

  with_items-found :
      (r : SearchResponse) (items : Searched (List ProductSummary)) (o : SearchOutcome)
      → with_items config relevance c r items ≡ found o
      → (items ≡ found o.items)
        × (o.total ≡ total_hits r.total)
        × (o.suggestions ≡ resolve_suggestions config c.query (total_hits r.total) r.suggest)
  with_items-found r (refused f) o e = cc
  with_items-found r (found items) o e =
      let same : record {
        items = items;
        total = total_hits r.total;
        facets = to_facets r.aggregations;
        suggestions = resolve_suggestions config c.query (total_hits r.total) r.suggest;
      }
          ≡ o =
        cc in
      (
        ap (λ (x : SearchOutcome). found x.items) same,
        sym (ap (λ (x : SearchOutcome). x.total) same),
        sym (ap (λ (x : SearchOutcome). x.suggestions) same),
      )

  many_hits :
      (r : SearchResponse)
      → config.suggest_max_hits < total_hits r.total
      → resolve_suggestions config c.query (total_hits r.total) r.suggest ≡ nothing_suggested
  unfolding resolve_suggestions
  many_hits r h = ground arith

  -- What the reply to the request says of the outcome.
  abbrev pub Answers : SearchResponse → SearchOutcome → Type 0
  Answers r o =
      Shows r.hits o.items
      × (o.total ≡ total_hits r.total)
      × (config.suggest_max_hits < o.total → o.suggestions ≡ nothing_suggested)

  to_outcome-Answers :
      (reply : Result SearchResponse) (o : SearchOutcome)
      → to_outcome config relevance c reply ≡ found o
      → (r : SearchResponse) × (reply ≡ ok r) × Answers r o
  to_outcome-Answers (thrown t) o e = cc
  to_outcome-Answers (ok r) o e =
      let (items, total, suggested) = with_items-found r (to_product_summaries r.hits) o e in
      (
        r,
        refl,
        (
          to_product_summaries-Shows r.hits o.items items,
          total,
          (λ h. suggested ∙ many_hits r (subst (λ n. config.suggest_max_hits < n) total h)),
        ),
      )

  search_window-Answers :
      (w : Searched (ℕ × ℕ)) (o : SearchOutcome)
      → ((from size : ℕ)
          → w ≡ found (from, size)
          → (from ≡ (c.page - 1) * c.page_size) × (size ≡ c.page_size))
      → search_window config relevance client c w ≡ found o
      → (r : SearchResponse) × (client request_of ≡ ok r) × Answers r o
  search_window-Answers (refused f) o known e = cc
  search_window-Answers (found (from, size)) o known e =
      let (start, width) = known from size refl in
      to_outcome-Answers (client request_of) o (rw (start, width) at e)

  window_is :
      (from size : ℕ)
      → resolve_window config c.page c.page_size ≡ found (from, size)
      → (from ≡ (c.page - 1) * c.page_size) × (size ≡ c.page_size)
  unfolding resolve_window
  window_is from size e = ground arith

  pub search-Answers :
      (o : SearchOutcome)
      → search config relevance client c ≡ found o
      → (r : SearchResponse) × (client request_of ≡ ok r) × Answers r o
  unfolding search
  search-Answers o e = search_window-Answers _ o window_is e

  request_of-page : (request_of.from ≡ (c.page - 1) * c.page_size) × (request_of.size ≡ c.page_size)
  unfolding build_search_request
  request_of-page = (refl, refl)

  -- A search that is answered is the answer to a request of its criteria for the hits from
  -- (page - 1) * size on, size of them. It shows the hits of the reply one by one, each with every
  -- field of its source, USD, and its score, and the reply's total; above the configured number of hits
  -- it suggests nothing.
  pub search_of_page :
      (o : SearchOutcome)
      → search config relevance client c ≡ found o
      → (q : SearchRequest) × (r : SearchResponse) × (q ≡ request_of)
        × (q.from ≡ (c.page - 1) * c.page_size)
        × (q.size ≡ c.page_size)
        × (client q ≡ ok r)
        × Shows r.hits o.items
        × (o.total ≡ total_hits r.total)
        × (config.suggest_max_hits < o.total → o.suggestions ≡ nothing_suggested)
  search_of_page o e =
      let (r, asked, (shows, total, few)) = search-Answers o e in
      (request_of, r, refl, request_of-page.0, request_of-page.1, asked, shows, total, few)
