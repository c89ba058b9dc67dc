-- ===== src/Shortener/Handlers/Links.antt =====
-- A link from its shortening on: the handlers, a store and the Bloom filter together.
use mathlib.Core.Option
use http.Prelude.{
  ℕ, ◌≡◌, refl, ap, ◌∙◌, Bool, true, false, List, [], ◌∷◌, Option, none, some, Bool-cases,
  Option-cases, inl, inr, text_eq,
}
use http.Std.Text.{Text, codes, is_empty}
use http.Http.Request.{HttpRequest, get_path_parameters}
use http.Http.Response as Response
use http.Http.Response.{HttpResponse, add_header}
use http.Shortener.Store.{Store}
use http.Shortener.Store.Laws.{StoreLaws}
use http.Shortener.Handlers.{
  Shared, parse_json, try_ids, shortened, shorten, redirect, refused, filtered,
}
use http.Shortener.Handlers.Laws.{try_ids-kept, try_ids_free, redirect_found}
use http.Shortener.Bloom.{Bloom, bloom_filter, add, might_contain}
use http.Shortener.Bloom.Laws.{IsWf, add-IsWf, might_contain-kept, might_contain-add}

module _ {S : Type 0} (store : Store S) (IsOk : S → Type 0) (read : Text → S → Option Text)
    (laws : StoreLaws store IsOk read) where
  -- A state of the handlers with a filter.
  pub record IsReady (w : Shared S Bloom) : Type 0 where
    pub store_ok : IsOk w.store
    pub filter : Bloom
    pub bloom : w.bloom ≡ some filter
    pub filter_ok : IsWf filter

  -- The filter reports the id.
  record Reports (id : Text) (w : Shared S Bloom) : Type 0 where
    pub ready : IsReady w
    pub reported : might_contain id ready.filter ≡ true

  -- The id leads to the url.
  record Leads (id url : Text) (w : Shared S Bloom) : Type 0 where
    pub reports : Reports id w
    pub stored : read id w.store ≡ some url

  shortened-Reports :
      (id i : Text) (resp : HttpResponse) (s : S) (w : Shared S Bloom) (r : IsReady w)
      → IsOk s
      → might_contain id (add i r.filter) ≡ true
      → Reports id (shortened store bloom_filter i resp s w).1
  unfolding shortened
  shortened-Reports id i resp s w r ok h = record {
    ready = record {
      store_ok = ok;
      filter = add i r.filter;
      bloom = ap (Option.map (add i)) r.bloom;
      filter_ok = add-IsWf i r.filter r.filter_ok;
    };
    reported = h;
  }

  try_ids-Reports :
      (id : Text) (ids : List Text) (link : Text) (ttl : ℕ) (resp : HttpResponse)
      (w : Shared S Bloom)
      → Reports id w
      → Reports id (try_ids store bloom_filter ids link ttl resp w).1
  unfolding try_ids
  try_ids-Reports id [] link ttl resp w r = r
  try_ids-Reports id (i ∷ ids) link ttl resp w r =
      let s = (store.set_nx i link ttl w.store).1 in
      let ok = laws.set_nx-IsOk i link ttl w.store r.ready.store_ok in
      elim (Bool-cases (store.set_nx i link ttl w.store).0) [
        | inl b ↦ rw b (
            shortened-Reports id i resp s w r.ready ok
              (might_contain-kept id i r.ready.filter r.reported))
        | inr b ↦ rw b (
            try_ids-Reports id ids link ttl resp _ (record {
              ready = record {
                store_ok = ok;
                filter = r.ready.filter;
                bloom = r.ready.bloom;
                filter_ok = r.ready.filter_ok;
              };
              reported = r.reported;
            }))
      ]

  refused-Leads :
      (resp : HttpResponse) (id url : Text) (w : Shared S Bloom)
      → Leads id url w
      → Leads id url (refused store bloom_filter resp w).1
  unfolding refused
  refused-Leads resp id url w l = record {
    reports = record {
      ready = record {
        store_ok = l.reports.ready.store_ok;
        filter = l.reports.ready.filter;
        bloom = l.reports.ready.bloom;
        filter_ok = l.reports.ready.filter_ok;
      };
      reported = l.reports.reported;
    };
    stored = l.stored;
  }

  -- Shortening, whatever is asked for and whatever ids are tried, keeps a link.
  shorten-Leads :
      (valid : Text → Bool) (ids : List Text) (req : HttpRequest) (resp : HttpResponse)
      (id url : Text) (w : Shared S Bloom)
      → Leads id url w
      → Leads id url (shorten store bloom_filter valid ids req resp w).1
  unfolding shorten refused
  shorten-Leads valid ids req resp id url w l = elim (Option-cases (parse_json req.content)) [
    | inl e ↦ rw (e, shorten) (refused-Leads resp id url w l)
    | inr (p, e) ↦ elim (Bool-cases (valid p.0)) [
      | inl b ↦
          rw (e, shorten)
            (rw b (record {
              reports = try_ids-Reports id ids p.0 p.1 resp w l.reports;
              stored =
                  try_ids-kept store bloom_filter IsOk read laws ids p.0 p.1 resp w id url
                    l.reports.ready.store_ok l.stored;
            }))
      | inr b ↦ rw (e, shorten) (rw b (refused-Leads resp id url w l))
    ]
  ]

  -- the first shortening with a free id
  first_shorten :
      (valid : Text → Bool) (id : Text) (ids : List Text) (req : HttpRequest) (resp : HttpResponse)
      (url : Text) (ttl : ℕ) (w : Shared S Bloom)
      → IsReady w
      → read id w.store ≡ none
      → parse_json req.content ≡ some (url, ttl)
      → valid url ≡ true
      → Leads id url (shorten store bloom_filter valid (id ∷ ids) req resp w).1
  unfolding shorten try_ids
  first_shorten valid id ids req resp url ttl w r free e v =
      let s = (store.set_nx id url ttl w.store).1 in
      let ok = laws.set_nx-IsOk id url ttl w.store r.store_ok in
      let yes : (store.set_nx id url ttl w.store).0 ≡ true =
        laws.set_nx_lem id url ttl w.store r.store_ok ∙ (rw free) in
      let (code, body, stored) =
        try_ids_free store bloom_filter IsOk read laws id ids url ttl resp w r.store_ok free in
      rw (e, shorten)
        (rw v (record {
          reports =
              rw yes
                (shortened-Reports id id resp s w r ok (might_contain-add id r.filter r.filter_ok));
          stored = stored;
        }))

  -- what a list of requests to shorten leaves, with the ids that are tried for each
  abbrev pub shorten_all :
      (Text → Bool)
      → List (HttpRequest × HttpResponse × List Text)
      → Shared S Bloom
      → Shared S Bloom
  shorten_all valid [] w = w
  shorten_all valid (j ∷ jobs) w =
      shorten_all valid jobs (shorten store bloom_filter valid j.2 j.0 j.1 w).1

  shorten_all-Leads :
      (valid : Text → Bool) (jobs : List (HttpRequest × HttpResponse × List Text)) (id url : Text)
      (w : Shared S Bloom)
      → Leads id url w
      → Leads id url (shorten_all valid jobs w)
  shorten_all-Leads valid [] id url w l = l
  shorten_all-Leads valid (j ∷ jobs) id url w l =
      shorten_all-Leads valid jobs id url _ (shorten-Leads valid j.2 j.0 j.1 id url w l)

  Reports-filtered :
      (id : Text) (w : Shared S Bloom) → Reports id w → filtered store bloom_filter id w ≡ false
  Reports-filtered id w r = rw (r.ready.bloom) (rw (r.reported) refl)

  -- A url that is shortened under an id that is free is found again: after any further requests to
  -- shorten, valid or not, and whatever ids are tried for them, a request for that id is answered with
  -- 301 to the url, over any store that keeps its promises and with the Bloom filter in front of it.
  pub redirect-shorten :
      (valid : Text → Bool) (id : Text) (ids : List Text) (req req' : HttpRequest)
      (resp resp' : HttpResponse) (url : Text) (ttl : ℕ) (w : Shared S Bloom)
      (jobs : List (HttpRequest × HttpResponse × List Text))
      → IsReady w
      → read id w.store ≡ none
      → parse_json req.content ≡ some (url, ttl)
      → valid url ≡ true
      → is_empty id ≡ false
      → get_path_parameters (codes "param1") req' ≡ id
      → ((redirect store bloom_filter req' resp' (
            shorten_all valid jobs
              (shorten store bloom_filter valid (id ∷ ids) req resp w).1)).0.status_code
          ≡ 301)
        × (Response.get_header
              (codes "Location")
              (redirect store bloom_filter req' resp' (
                shorten_all valid jobs
                  (shorten store bloom_filter valid (id ∷ ids) req resp w).1)).0
            ≡ url)
  redirect-shorten valid id ids req req' resp resp' url ttl w jobs r free e v full path =
      let first = first_shorten valid id ids req resp url ttl w r free e v in
      let u = (shorten store bloom_filter valid (id ∷ ids) req resp w).1 in
      let w' = shorten_all valid jobs u in
      let l = shorten_all-Leads valid jobs id url u first in
      redirect_found store bloom_filter IsOk read laws req' resp' w' url l.reports.ready.store_ok
        (ap is_empty path ∙ full)
        (ap (λ k. filtered store bloom_filter k w') path ∙ Reports-filtered id w' l.reports)
        (ap (λ k. read k w'.store) path ∙ l.stored)
