-- ===== src/ServiceWorker.antt =====
-- apps/web/public/sw.js: the caches of the service worker, and its notifications. What goes on in
-- the background of a handler is finished before the next event. `Cache.put` takes every response
-- with `ok`, and a request is found by its URL alone.
pub mod Offline
use winkd.Prelude.{
  ℕ, suc, Bool, true, false, not, ◌&&◌, ◌||◌, Option, none, some, List, [], ◌∷◌, ◌++◌, map, Str,
  lit, str_eq, str_eq_instance, if◌then◌else◌,
}
use winkd.Prelude.Dict
use winkd.Prelude.Dict.{Dict}
use winkd.Text.{includes}
use winkd.Json.{Json, Members, get, boolean_of}

pub record Response : Type 0 where
  pub ok : Bool
  pub body : Str

-- `origin` and `hostname` are those of `new URL(request.url)`.
pub record Request : Type 0 where
  pub method : Str
  pub url : Str
  pub origin : Str
  pub hostname : Str
  pub is_navigation : Bool

-- The responses by URL.
abbrev pub Cache : Type 0
Cache = Dict Str Response

-- The caches by name, in the order of their creation.
abbrev pub Caches : Type 0
Caches = Dict Str Cache

abbrev pub cache_name : Str
cache_name = lit "winkd-v3"

abbrev pub offline_url : Str
offline_url = lit "/app.html"

abbrev pub precache_assets : List Str
precache_assets = lit "/app.html" ∷ lit "/login.html" ∷ lit "/manifest.json" ∷ []

abbrev pub cache_or_empty : Option Cache → Cache
cache_or_empty none = []
cache_or_empty (some c) = c

-- `caches.open(CACHE_NAME)`, as it is then.
abbrev pub opened : Caches → Cache
opened cs = cache_or_empty (Dict.get cache_name cs)

-- `cache.put(url, response)` on the opened cache.
unfoldable pub store : Str → Response → Caches → Caches
store url response cs = Dict.put cache_name (Dict.put url response (opened cs)) cs

abbrev pub or_else {ℓ} : {A : Type ℓ} → Option A → Option A → Option A
or_else none b = b
or_else (some a) b = some a

-- `caches.match(url)`
unfoldable pub match_in : Str → Caches → Option Response
match_in url [] = none
match_in url ((name, c) ∷ cs) = or_else (Dict.get url c) (match_in url cs)

-- Only a response with `ok`.
abbrev pub if_ok : Option Response → Option Response
if_ok none = none
if_ok (some r) = if r.ok then some r else none

-- `cache.addAll(urls)`: the cache with all the responses, or `none` if one of them fails.
unfoldable pub add_all : (Str → Option Response) → List Str → Cache → Option Cache
add_all net [] c = some c
add_all net (url ∷ urls) c = elim (if_ok (net url)) [
  | none ↦ none
  | some r ↦ add_all net urls (Dict.put url r c)
]

-- `if (response.ok) … cache.put(request, response.clone())`
unfoldable pub store_if_ok : Str → Option Response → Caches → Caches
store_if_ok url net cs = elim (if_ok net) [ none ↦ cs | some r ↦ store url r cs ]

-- `activate`: the other caches are deleted.
unfoldable pub activate : Caches → Caches
activate [] = []
activate ((name, c) ∷ cs) =
    let rest = activate cs in if str_eq name cache_name then (name, c) ∷ rest else rest

-- What the browser gets; `responded none` is a network error.
pub data Outcome : Type 0 where
  not_handled : Outcome
  responded : Option Response → Outcome

abbrev pub respond : Option Response × Caches → Outcome × Caches
respond (r, cs) = (responded r, cs)

-- The worker of a site with this `location.origin`.
module _ (origin : Str) where
  -- `install`, with the network: whether it succeeds, and the caches.
  unfoldable pub install : (Str → Option Response) → Caches → Bool × Caches
  install net cs = elim (add_all net (map (λ path. origin ++ path) precache_assets) (opened cs)) [
    | none ↦ (false, Dict.put cache_name (opened cs) cs)
    | some c ↦ (true, Dict.put cache_name c cs)
  ]

  unfoldable pub is_handled : Request → Bool
  is_handled q =
      str_eq q.method (lit "GET")
      && (str_eq q.origin origin || includes (lit "imgur.com") q.hostname)

  -- Network first, with what the network says; `none` is a failure.
  unfoldable pub navigate : Str → Option Response → Caches → Option Response × Caches
  navigate url (some r) cs = (some r, store_if_ok url (some r) cs)
  navigate url none cs = (or_else (match_in url cs) (match_in (origin ++ offline_url) cs), cs)

  -- Stale while revalidate.
  unfoldable pub revalidate : Str → Option Response → Caches → Option Response × Caches
  revalidate url net cs = (
    or_else (Dict.get url (opened cs)) net,
    store_if_ok url net (Dict.put cache_name (opened cs) cs),
  )

  unfoldable pub on_fetch : Request → Option Response → Caches → Outcome × Caches
  on_fetch q net cs =
      if is_handled q
      then if q.is_navigation
        then respond (navigate q.url net cs)
        else respond (revalidate q.url net cs)
      else (not_handled, cs)

-- `a || b`
abbrev pub or_json : Option Json → Json → Json
or_json v b = elim v [ none ↦ b | some a ↦ if boolean_of (some a) then a else b ]

pub record Notification : Type 0 where
  pub title : Json
  pub body : Json
  pub tag : Json
  pub url : Json
  pub contact_id : Option Json

-- The data of a push: its text, and the value that it is parsed to, or `none`.
pub record PushData : Type 0 where
  pub text : Str
  pub parsed : Option Json

abbrev push_value : PushData → Json
push_value d = elim d.parsed [
  | none ↦ Json.object (
      Members.member (lit "title") (Json.text (lit "Winkd"))
        (Members.member (lit "body") (Json.text d.text) Members.empty))
  | some v ↦ v
]

unfoldable pub notification_of : Members → Notification
unfolding get
notification_of ms = record {
  title = or_json (get (lit "title") ms) (Json.text (lit "Winkd Messenger"));
  body = or_json (get (lit "body") ms) (Json.text (lit "New message"));
  tag = or_json (get (lit "tag") ms) (Json.text (lit "winkd-message"));
  url = or_json (get (lit "url") ms) (Json.text (lit "/"));
  contact_id = get (lit "contactId") ms;
}

-- The members of null cannot be read.
abbrev shown : Json → Option Notification
shown Json.null = none
shown (Json.object ms) = some (notification_of ms)
shown _ = some (notification_of Members.empty)

-- `push`: the notification that is shown, if any.
unfoldable pub on_push : Option PushData → Option Notification
on_push none = none
on_push (some d) = shown (push_value d)

-- A window: its URL, and whether it has the method `focus`.
pub record Window : Type 0 where
  pub url : Str
  pub can_focus : Bool

pub data Click : Type 0 where
  nothing : Click
  focus : ℕ → Click
  open_window : Json → Click

-- The first window of the site that can be focused, counted from i.
unfoldable pub find_window : (origin : Str) → ℕ → List Window → Option ℕ
find_window origin i [] = none
find_window origin i (w ∷ ws) =
    let rest = find_window origin (suc i) ws in
    if includes origin w.url && w.can_focus then some i else rest

-- `notificationclick`, where `can_open` says whether windows can be opened.
unfoldable pub on_click :
    (origin action : Str) → (can_open : Bool) → Notification → List Window → Click
on_click origin action can_open n ws =
    if str_eq action (lit "dismiss") then nothing else elim (find_window origin 0 ws) [
      | some i ↦ focus i
      | none ↦
          if can_open then open_window (or_json (some n.url) (Json.text (lit "/"))) else nothing
    ]
