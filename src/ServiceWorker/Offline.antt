-- ===== src/ServiceWorker/Offline.antt =====
-- What the service worker answers without a network.
use winkd.Prelude.{
  ◌≡◌, refl, ap, ◌∙◌, Bool, true, false, ◌&&◌, Option, none, some, List, [], ◌∷◌, ◌++◌, map, Str,
  str_eq, str_eq_iff, str_eq_instance, arith, if◌then◌else◌, Bool-cases, Option-cases, inl, inr,
}
use winkd.Prelude.Dict
use winkd.Prelude.Dict.{Dict, get-put, get-put_same}
use winkd.ServiceWorker.{
  Response, Request, Cache, Caches, cache_name, offline_url, precache_assets, opened, store,
  match_in, if_ok, add_all, store_if_ok, activate, responded, install, is_handled, navigate,
  revalidate, on_fetch, or_else, respond,
}

module _ (origin : Str) where
  -- Requests, each with what the network says.
  unfoldable pub on_fetches : List (Request × Option Response) → Caches → Caches
  on_fetches [] cs = cs
  on_fetches ((q, net) ∷ qs) cs = on_fetches qs (on_fetch origin q net cs).1

  -- The last response with `ok` that the network gave for a URL, or else the old one.
  abbrev pub kept : Str → List (Request × Option Response) → Option Response → Option Response
  kept url [] old = old
  kept url ((q, net) ∷ qs) old =
      kept url qs (if is_handled origin q && str_eq q.url url then or_else (if_ok net) old else old)

  -- The worker's cache after a request.
  abbrev put_if_ok : Str → Option Response → Cache → Cache
  put_if_ok url none c = c
  put_if_ok url (some r) c = Dict.put url r c

  abbrev after : Request → Option Response → Cache → Cache
  after q net c = if is_handled origin q then put_if_ok q.url (if_ok net) c else c

  store_if_ok_first :
      (url : Str) (net : Option Response) (c : Cache) (rest : Caches)
      → store_if_ok url net ((cache_name, c) ∷ rest)
        ≡ (cache_name, put_if_ok url (if_ok net) c) ∷ rest
  unfolding store_if_ok store Dict.get Dict.put str_eq
  store_if_ok_first url none c rest = refl
  store_if_ok_first url (some r) c rest = elim (Bool-cases r.ok) [
    | inl e ↦ rw e refl
    | inr e ↦ rw e refl
  ]

  on_fetch_first :
      (q : Request) (net : Option Response) (c : Cache) (rest : Caches)
      → (on_fetch origin q net ((cache_name, c) ∷ rest)).1 ≡ (cache_name, after q net c) ∷ rest
  unfolding on_fetch navigate revalidate Dict.get Dict.put str_eq
  on_fetch_first q net c rest = elim (Bool-cases (is_handled origin q)) [
    | inr e ↦ rw (e, on_fetch) refl
    | inl e ↦ rw (e, on_fetch) (by_mode q.is_navigation net)
  ]
    where
      by_mode :
          (b : Bool) (n : Option Response)
          → (if b
              then respond (navigate origin q.url n ((cache_name, c) ∷ rest))
              else respond (revalidate origin q.url n ((cache_name, c) ∷ rest))).1
            ≡ (cache_name, put_if_ok q.url (if_ok n) c) ∷ rest
      by_mode true none = refl
      by_mode true (some r) = store_if_ok_first q.url (some r) c rest
      by_mode false n = store_if_ok_first q.url n c rest

  match_after :
      (url : Str) (q : Request) (net : Option Response) (c : Cache) (rest : Caches)
      → match_in url ((cache_name, after q net c) ∷ rest) ≡ (
          if is_handled origin q && str_eq q.url url
          then or_else (if_ok net) (match_in url ((cache_name, c) ∷ rest))
          else match_in url ((cache_name, c) ∷ rest))
  unfolding match_in
  match_after url q net c rest = elim (Bool-cases (is_handled origin q)) [
    | inr e ↦ rw e refl
    | inl e ↦ rw e (by_answer (if_ok net))
  ]
    where
      by_answer :
          (n : Option Response)
          → match_in url ((cache_name, put_if_ok q.url n c) ∷ rest) ≡ (
              if str_eq q.url url
              then or_else n (match_in url ((cache_name, c) ∷ rest))
              else match_in url ((cache_name, c) ∷ rest))
      by_answer none = ground arith
      by_answer (some r) = elim (Bool-cases (str_eq q.url url)) [
        | inl e ↦ rw (e, get-put q.url url r c, e) refl
        | inr e ↦ rw (e, get-put q.url url r c, e) refl
      ]

  match-on_fetches :
      (url : Str) (qs : List (Request × Option Response)) (c : Cache) (rest : Caches)
      → match_in url (on_fetches qs ((cache_name, c) ∷ rest))
        ≡ kept url qs (match_in url ((cache_name, c) ∷ rest))
  unfolding on_fetches
  match-on_fetches url [] c rest = refl
  match-on_fetches url ((q, net) ∷ qs) c rest = rw (on_fetch_first q net c rest) (
      match-on_fetches url qs (after q net c) rest
      ∙ ap (λ (r : Option Response). kept url qs r) (match_after url q net c rest))

  -- When the worker's cache is the first, a navigation that it handles and that the network fails is
  -- answered after any requests with the last response with `ok` that the network gave for its own
  -- URL, or else the one that the caches had; where there is neither, with that of the offline page.
  pub on_fetch_offline :
      (q : Request) (qs : List (Request × Option Response)) (c : Cache) (rest : Caches)
      → is_handled origin q ≡ true
      → q.is_navigation ≡ true
      → (on_fetch origin q none (on_fetches qs ((cache_name, c) ∷ rest))).0
        ≡ responded (
            or_else (kept q.url qs (match_in q.url ((cache_name, c) ∷ rest))) (
              kept
                (origin ++ offline_url)
                qs
                (match_in (origin ++ offline_url) ((cache_name, c) ∷ rest))))
  unfolding on_fetch navigate
  on_fetch_offline q qs c rest handled page =
      rw
        (
          handled,
          page,
          match-on_fetches q.url qs c rest,
          match-on_fetches (origin ++ offline_url) qs c rest,
        )
        refl

  kept-some :
      (url : Str) (qs : List (Request × Option Response)) (r : Response)
      → (a : Response) × (kept url qs (some r) ≡ some a)
  kept-some url [] r = (r, refl)
  kept-some url ((q, net) ∷ qs) r = elim (Bool-cases (is_handled origin q && str_eq q.url url)) [
    | inr e ↦ rw e (kept-some url qs r)
    | inl e ↦ rw e (elim (Option-cases (if_ok net)) [
      | inl f ↦ rw f (kept-some url qs r)
      | inr (b, f) ↦ rw f (kept-some url qs b)
    ])
  ]

  -- The worker's cache is the first that is left.
  activate_first :
      (cs : Caches) (c : Cache)
      → Dict.get cache_name cs ≡ some c
      → (rest : Caches) × (activate cs ≡ (cache_name, c) ∷ rest)
  unfolding activate Dict.get
  activate_first [] c found = cc
  activate_first ((name, d) ∷ cs) c found = elim (Bool-cases (str_eq name cache_name)) [
    | inl e ↦
        let same : name ≡ cache_name = (str_eq_iff name cache_name).0 e in
        let here : d ≡ c = cc (rw e at found) in (activate cs, rw (e, same, here) refl)
    | inr e ↦ rw e (activate_first cs c (rw e at found))
  ]

  add_all_step :
      (net : Str → Option Response) (u : Str) (us : List Str) (c d : Cache)
      → add_all net (u ∷ us) c ≡ some d
      → (r : Response) × (add_all net us (Dict.put u r c) ≡ some d)
  unfolding add_all
  add_all_step net u us c d done = elim (Option-cases (if_ok (net u))) [
    | inl e ↦ absurd (cc (rw (e, add_all) at done))
    | inr (r, e) ↦ (r, rw (e, add_all) at done)
  ]

  abbrev Has : Str → Cache → Type 0
  Has url c = (r : Response) × (Dict.get url c ≡ some r)

  put-Has : (url u : Str) (r : Response) (c : Cache) → Has url c → Has url (Dict.put u r c)
  put-Has url u r c (a, e) = elim (Bool-cases (str_eq u url)) [
    | inl same ↦ (r, rw (get-put u url r c, same) refl)
    | inr other ↦ (a, rw (get-put u url r c, other) e)
  ]

  add_all-Has :
      (net : Str → Option Response) (url : Str) (urls : List Str) (c d : Cache)
      → Has url c
      → add_all net urls c ≡ some d
      → Has url d
  unfolding add_all
  add_all-Has net url [] c d there done =
      let (r, e) = there in let same : c ≡ d = cc done in (r, rw (← same) e)
  add_all-Has net url (u ∷ us) c d there done =
      let (r, later) = add_all_step net u us c d done in
      add_all-Has net url us (Dict.put u r c) d (put-Has url u r c there) later

  install-Has :
      (net : Str → Option Response) (old : Caches)
      → (install origin net old).0 ≡ true
      → (c : Cache) × (Dict.get cache_name (install origin net old).1 ≡ some c)
        × Has (origin ++ offline_url) c
  unfolding install
  install-Has net old success =
      elim (Option-cases
        (add_all net (map (λ path. origin ++ path) precache_assets) (opened old))) [
          | inl e ↦ absurd (cc (rw (e, install) at success))
          | inr (c, e) ↦
              let (r, later) = add_all_step net (origin ++ offline_url) _ (opened old) c e in
              (
                c,
                rw (e, install) (get-put_same cache_name c old),
                add_all-Has net (origin ++ offline_url) _
                    (Dict.put (origin ++ offline_url) r (opened old)) c
                    (r, get-put_same (origin ++ offline_url) r (opened old)) later,
              )
        ]

  -- Once the worker was installed with success and activated, whatever caches were there before and
  -- whatever requests came since: a navigation that it handles is answered with a response, even
  -- if the network fails.
  pub offline_answered :
      (net : Str → Option Response) (old : Caches) (qs : List (Request × Option Response))
      (q : Request)
      → (install origin net old).0 ≡ true
      → is_handled origin q ≡ true
      → q.is_navigation ≡ true
      → (r : Response) × ((on_fetch origin q none
            (on_fetches qs (activate (install origin net old).1))).0
          ≡ responded (some r))
  unfolding match_in
  offline_answered net old qs q success handled page =
      let (c, found, has) = install-Has net old success in
      let (a, e) = has in
      let (rest, only) = activate_first (install origin net old).1 c found in
      let (b, f) = kept-some (origin ++ offline_url) qs a in
      rw (only, on_fetch_offline q qs c rest handled page, e, f)
        (answered (kept q.url qs (match_in q.url ((cache_name, c) ∷ rest))) b)
    where
      answered :
          (own : Option Response) (b : Response)
          → (r : Response) × (responded (or_else own (some b)) ≡ responded (some r))
      answered none b = (b, refl)
      answered (some r) b = (r, refl)
