-- ===== src/Blocklist/Fetcher.antt =====
-- internal/blocklist/fetcher/http_client.go: one download of a feed, with its retries.
use phantomcore.Base.{
  ℕ, ◌≡◌, refl, Option, none, some, List, [], ◌∷◌, Text, text, if◌then◌else◌, ◌==◌,
}
use phantomcore.Blocklist.Engine.{Fetched, fetch_failed, not_modified, fetched}

-- What the HTTP client brings; the body is none when reading it fails.
pub record Response : Type 0 where
  pub status : ℕ
  pub body : Option Text
  pub tag : Text

-- The closure `op` with an answer of the client, none being an error of the request: what it leaves in
-- `body` and `etag`, or none for its error. The request says If-None-Match when a tag is known.
unfoldable pub attempt : Text → Option Response → Option Fetched
attempt known_tag none = none
attempt known_tag (some r) =
    if r.status == 304
    then some (not_modified known_tag)
    else if r.status == 200
    then elim (r.body) [ none ↦ none | some b ↦ some (fetched b r.tag) ]
    else none

-- `Fetch`: the attempts until one succeeds. The list ends where the backoff or the context gives up.
unfoldable pub fetch : Text → List (Option Response) → Fetched
unfolding attempt
fetch known_tag [] = fetch_failed
fetch known_tag (r ∷ rs) =
    let rest = fetch known_tag rs in elim (attempt known_tag r) [ none ↦ rest | some f ↦ f ]

test_fetch :
    (fetch (text "e1") (
        none
        ∷ some (record { status = 503; body = none; tag = [] })
        ∷ some (record { status = 304; body = none; tag = [] })
        ∷ [])
      ≡ not_modified (text "e1"))
    × (fetch [] (some (record { status = 404; body = none; tag = [] }) ∷ []) ≡ fetch_failed)
    × (fetch []
          (some (record { status = 200; body = some (text "a.org"); tag = text "e2" }) ∷ none ∷ [])
        ≡ fetched (text "a.org") (text "e2"))
unfolding fetch
test_fetch = (refl, refl, refl)
