-- ===== src/Shortener/Handlers/Laws.antt =====
-- What the handlers answer, over any store that keeps the promises of one.

use http.Prelude.{
  same_refl, ℕ, ◌≡◌, refl, ap, ◌∙◌, true, false, List, [], ◌∷◌, Option, none, some, is_some, arith,
  same, same_iff, text_eq, Bool-cases, inl, inr, All, list_beq,
}
use http.Std.Text.{Text, codes, is_empty}
use http.Std.Map.{insert_sorted, lookup-insert_sorted}
use http.Http.Request.{HttpRequest, get_path_parameters}
use http.Http.Response as Response
use http.Http.Response.{HttpResponse, add_header}
use http.Shortener.Store.{Store}
use http.Shortener.Store.Laws.{StoreLaws}
use http.Shortener.Handlers.{
  Shared, Filter, try_ids, shortened, redirect, id_json, filtered, missing,
}

module _ {S F : Type 0} (store : Store S) (filter : Filter F) (IsOk : S → Type 0)
    (read : Text → S → Option Text) (laws : StoreLaws store IsOk read) where
  kept_by_set_nx :
      (id url k v : Text) (ttl : ℕ) (s : S)
      → IsOk s
      → read k s ≡ some v
      → read k (store.set_nx id url ttl s).1 ≡ some v
  kept_by_set_nx id url k v ttl s ok e =
      laws.set_nx-read id url ttl k s ok ∙ elim (Bool-cases (same id k)) [
        | inl b ↦
            let i : id ≡ k = (same_iff id k).0 b in
            let e' : read id s ≡ some v = ap (λ x. read x s) i ∙ e in rw (b, e')
        | inr b ↦ rw b e
      ]

  -- Over a store whose setNX leaves a key that is there as it is, called by one thread at a time:
  -- shortening changes no link that is there, whatever ids are tried.
  pub try_ids-kept :
      (ids : List Text) (url : Text) (ttl : ℕ) (resp : HttpResponse) (w : Shared S F) (k v : Text)
      → IsOk w.store
      → read k w.store ≡ some v
      → read k (try_ids store filter ids url ttl resp w).1.store ≡ some v
  unfolding try_ids shortened
  try_ids-kept [] url ttl resp w k v ok e = e
  try_ids-kept (id ∷ ids) url ttl resp w k v ok e =
      let kept = kept_by_set_nx id url k v ttl w.store ok e in
      elim (Bool-cases (store.set_nx id url ttl w.store).0) [
        | inl b ↦ rw b kept
        | inr b ↦
            rw b (try_ids-kept ids url ttl resp _ k v (laws.set_nx-IsOk id url ttl w.store ok) kept)
      ]

  -- The first id that is tried is free: the answer is 200 with that id, and the id leads to the url
  -- from then on.
  pub try_ids_free :
      (id : Text) (ids : List Text) (url : Text) (ttl : ℕ) (resp : HttpResponse) (w : Shared S F)
      → IsOk w.store
      → read id w.store ≡ none
      → ((try_ids store filter (id ∷ ids) url ttl resp w).0.status_code ≡ 200)
        × ((try_ids store filter (id ∷ ids) url ttl resp w).0.body ≡ id_json store filter id)
        × (read id (try_ids store filter (id ∷ ids) url ttl resp w).1.store ≡ some url)
  unfolding try_ids shortened add_header
  try_ids_free id ids url ttl resp w ok e =
      let yes : (store.set_nx id url ttl w.store).0 ≡ true =
        laws.set_nx_lem id url ttl w.store ok ∙ (rw e) in
      rw yes (refl, refl, laws.set_nx-read id url ttl id w.store ok ∙ (rw (same_refl id, e)))

  -- Every id that is tried is taken: the answer is 500, and no link changes.
  pub try_ids_taken :
      (ids : List Text) (url : Text) (ttl : ℕ) (resp : HttpResponse) (w : Shared S F)
      → IsOk w.store
      → All (λ id. is_some (read id w.store) ≡ true) ids
      → ((try_ids store filter ids url ttl resp w).0.status_code ≡ 500)
        × ((k : Text) → read k (try_ids store filter ids url ttl resp w).1.store ≡ read k w.store)
  unfolding try_ids
  try_ids_taken [] url ttl resp w ok h = (refl, λ k. refl)
  try_ids_taken (id ∷ ids) url ttl resp w ok (e, h) =
      let no : (store.set_nx id url ttl w.store).0 ≡ false =
        laws.set_nx_lem id url ttl w.store ok ∙ (rw e) in
      let same_reads : (k : Text) → read k (store.set_nx id url ttl w.store).1 ≡ read k w.store =
        λ k. laws.set_nx-read id url ttl k w.store ok ∙ ground (arith, same_iff id k) in
      let (a, b) =
        try_ids_taken ids url ttl resp _ (laws.set_nx-IsOk id url ttl w.store ok)
          (taken ids w.store (store.set_nx id url ttl w.store).1 same_reads h) in
      rw no (a, λ k. b k ∙ same_reads k)
    where
      taken :
          (ids : List Text) (s s' : S)
          → ((k : Text) → read k s' ≡ read k s)
          → All (λ id. is_some (read id s) ≡ true) ids
          → All (λ id. is_some (read id s') ≡ true) ids
      taken [] s s' q h = tt
      taken (id ∷ ids) s s' q (e, h) = (rw (q id) e, taken ids s s' q h)

  location_other : same (codes "X-Cacheable") (codes "Location") ≡ false
  unfolding list_beq
  location_other = refl

  -- A link that is stored, and that the filter does not rule out, is answered with 301 to its url.
  pub redirect_found :
      (req : HttpRequest) (resp : HttpResponse) (w : Shared S F) (url : Text)
      → IsOk w.store
      → is_empty (get_path_parameters (codes "param1") req) ≡ false
      → filtered store filter (get_path_parameters (codes "param1") req) w ≡ false
      → read (get_path_parameters (codes "param1") req) w.store ≡ some url
      → ((redirect store filter req resp w).0.status_code ≡ 301)
        × (Response.get_header (codes "Location") (redirect store filter req resp w).0 ≡ url)
  unfolding redirect add_header
  redirect_found req resp w url ok full free e =
      let id = get_path_parameters (codes "param1") req in
      let hit : (store.get id w.store).0 ≡ some url = laws.get_lem id w.store ok ∙ e in
      rw (full, free, hit)
        (
          refl,
          ground (
            arith,
            lookup-insert_sorted (codes "X-Cacheable") (codes "Location") (codes "1")
                (insert_sorted (codes "Location") url resp.headers),
            lookup-insert_sorted (codes "Location") (codes "Location") url resp.headers,
            same_refl (codes "Location"),
            location_other,
          ),
        )

  -- An id that the store does not have is answered with 404.
  pub redirect-missing :
      (req : HttpRequest) (resp : HttpResponse) (w : Shared S F)
      → IsOk w.store
      → is_empty (get_path_parameters (codes "param1") req) ≡ false
      → read (get_path_parameters (codes "param1") req) w.store ≡ none
      → (redirect store filter req resp w).0 ≡ missing store filter resp
  unfolding redirect
  redirect-missing req resp w ok full e =
      let id = get_path_parameters (codes "param1") req in
      let miss : (store.get id w.store).0 ≡ none = laws.get_lem id w.store ok ∙ e in
      elim (Bool-cases (filtered store filter id w)) [
        | inl b ↦ rw (full, b)
        | inr b ↦ rw (full, b, miss)
      ]
