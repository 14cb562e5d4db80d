-- ===== src/Tests/Worker.antt =====
-- A concrete service worker.
use winkd.Prelude.{
  ◌≡◌, refl, true, Option, none, some, List, [], ◌∷◌, ◌++◌, Str, lit, str_eq, str_eq_instance,
}
use winkd.Text.{includes, starts_with}
use winkd.Json.{Json, get}
use winkd.ServiceWorker.{
  Response, Request, Cache, responded, install, activate, add_all, is_handled, on_fetch, match_in,
  offline_url, cache_name, on_push, on_click, find_window, notification_of, open_window, or_else,
}
use winkd.ServiceWorker.Offline.{on_fetches, kept, on_fetch_offline, offline_answered}

abbrev site : Str
site = lit "https://w"

abbrev served : Str → Option Response
served url = some (record { ok = true; body = url })

abbrev login_page : Request
login_page = record {
  method = lit "GET";
  url = lit "https://w/login.html";
  origin = site;
  hostname = lit "w";
  is_navigation = true;
}

abbrev updated : Option Response
updated = some (record { ok = true; body = lit "new" })

abbrev visits : List (Request × Option Response)
visits = (login_page, updated) ∷ (login_page, none) ∷ []

offline_answered_example :
    (r : Response) × ((on_fetch site login_page none
        (on_fetches site visits (activate (install site served []).1))).0
      ≡ responded (some r))
unfolding install add_all is_handled str_eq includes starts_with
offline_answered_example = offline_answered site served [] visits login_page refl refl refl

abbrev cached : Cache
cached = (lit "https://w/app.html", record { ok = true; body = lit "app" }) ∷ []

on_fetch_offline_example :
    (on_fetch site login_page none (on_fetches site visits ((cache_name, cached) ∷ []))).0
    ≡ responded (
        or_else
          (kept site login_page.url visits (match_in login_page.url ((cache_name, cached) ∷ [])))
          (kept site
            (site ++ offline_url)
            visits
            (match_in (site ++ offline_url) ((cache_name, cached) ∷ []))))
unfolding is_handled str_eq includes starts_with
on_fetch_offline_example = on_fetch_offline site login_page visits cached [] refl refl

-- A push without a URL, clicked where no window of the site is open, opens the start page.
click_on_push :
    (n : _) × (on_push (some (record { text = lit "hi"; parsed = none })) ≡ some n)
    × (on_click site (lit "") true n [] ≡ open_window (Json.text (lit "/")))
unfolding on_push notification_of get str_eq on_click find_window
click_on_push = (_, refl, refl)
