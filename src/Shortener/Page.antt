-- ===== src/Shortener/Page.antt =====
-- Metrics.h: the text of the metrics page, and the handler that sends it.
use http.Prelude.{ℕ, List, [], ◌∷◌, ◌++◌}
use http.Std.Text.{Text, codes}
use http.Std.Number.{to_string}
use http.Http.Response.{HttpResponse, set_status_code, set_content_type, set_body, ok_200}
use http.Shortener.{Metrics}

abbrev plain : Text → Text
plain text = text ++ 10 ∷ []

abbrev counter : Text → ℕ → Text
counter name n = name ++ (to_string n ++ 10 ∷ [])

abbrev concat : List Text → Text
concat [] = []
concat (t ∷ ts) = t ++ concat ts

unfoldable pub prometheus : Metrics → Text
prometheus m = concat (
    plain (codes "# HELP url_shortener_store_get_hit Store GET hits")
    ∷ plain (codes "# TYPE url_shortener_store_get_hit counter")
    ∷ counter (codes "url_shortener_store_get_hit ") m.store_get_hit
    ∷ plain (codes "# HELP url_shortener_store_get_miss Store GET misses")
    ∷ plain (codes "# TYPE url_shortener_store_get_miss counter")
    ∷ counter (codes "url_shortener_store_get_miss ") m.store_get_miss
    ∷ plain (codes "# HELP url_shortener_store_setnx_ok Store SETNX successes")
    ∷ plain (codes "# TYPE url_shortener_store_setnx_ok counter")
    ∷ counter (codes "url_shortener_store_setnx_ok ") m.store_setnx_ok
    ∷ plain (codes "# HELP url_shortener_store_setnx_conflict Store SETNX conflicts")
    ∷ plain (codes "# TYPE url_shortener_store_setnx_conflict counter")
    ∷ counter (codes "url_shortener_store_setnx_conflict ") m.store_setnx_conflict
    ∷ plain (codes "# HELP url_shortener_shorten_ok Total shorten success")
    ∷ plain (codes "# TYPE url_shortener_shorten_ok counter")
    ∷ counter (codes "url_shortener_shorten_ok ") m.shorten_ok
    ∷ plain (codes "# HELP url_shortener_redirect_ok Total redirects")
    ∷ plain (codes "# TYPE url_shortener_redirect_ok counter")
    ∷ counter (codes "url_shortener_redirect_ok ") m.redirect_ok
    ∷ counter (codes "url_shortener_redirect_miss ") m.redirect_miss
    ∷ counter (codes "url_shortener_shorten_bad ") m.shorten_bad
    ∷ counter (codes "url_shortener_ratelimit_drops ") m.ratelimit_drops
    ∷ counter (codes "url_shortener_cache_hits ") m.cache_hits
    ∷ counter (codes "url_shortener_cache_sets ") m.cache_sets
    ∷ [])

-- MetricsHandler::handle
unfoldable pub metrics_page : Metrics → HttpResponse → HttpResponse
metrics_page m resp =
    set_body (prometheus m)
      (set_content_type (codes "text/plain; version=0.0.4") (set_status_code ok_200 resp))
