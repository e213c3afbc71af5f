-- ===== src/Config/Urls.antt =====
-- A database URL that app/core/config.py has normalised stays as it is.
use fast_api_project.Prelude.{
  ◌≡◌, refl, sym, ◌∙◌, ap, String, Bool, true, false, List, [], ◌∷◌, str_eq, eq_iff, Bool-cases,
  inl, inr, arith,
}
use fast_api_project.Config.{
  Parts, UrlFunctions, async_driver, driver_of, translate, rebuild, rewritten,
  normalise_database_url,
}

translate-kept :
    (key value : String) (query : List (String × String))
    → str_eq key "channel_binding" ≡ false
    → str_eq key "sslmode" ≡ false
    → translate ((key, value) ∷ query) ≡ (key, value) ∷ translate query
unfolding translate
translate-kept key value query kept other = rw (kept, other) refl

translate_idem : (query : List (String × String)) → translate (translate query) ≡ translate query
unfolding translate
translate_idem [] = refl
translate_idem ((key, value) ∷ query) = elim (Bool-cases (str_eq key "channel_binding")) [
  | inl libpq ↦ rw libpq (translate_idem query)
  | inr kept ↦ elim (Bool-cases (str_eq key "sslmode")) [
    | inl mode ↦ rw (kept, mode) (ap (λ q. ("ssl", value) ∷ q) (translate_idem query))
    | inr other ↦
        ap translate (translate-kept key value query kept other)
        ∙ translate-kept key value (translate query) kept other
        ∙ ap (λ q. (key, value) ∷ q) (translate_idem query)
        ∙ sym (translate-kept key value query kept other)
  ]
]

module _ (urls : UrlFunctions) where
  -- whether a URL is rewritten at all
  abbrev is_postgres : String → Bool
  is_postgres url = str_eq (driver_of (urls.urlsplit url).scheme) async_driver

  unchanged : (url : String) → is_postgres url ≡ false → normalise_database_url urls url ≡ url
  unfolding normalise_database_url
  unchanged url e = rw (e, normalise_database_url)

  changed :
      (url : String)
      → is_postgres url ≡ true
      → normalise_database_url urls url ≡ urls.urlunsplit (rewritten urls url)
  unfolding normalise_database_url
  changed url e = rw (e, normalise_database_url)

  driver_idem :
      (scheme : String)
      → str_eq (driver_of scheme) async_driver ≡ true
      → driver_of (driver_of scheme) ≡ driver_of scheme
  unfolding driver_of
  driver_idem scheme e = ap driver_of (eq_to scheme e) ∙ sym (eq_to scheme e)
    where
      eq_to : (s : String) → str_eq (driver_of s) async_driver ≡ true → driver_of s ≡ async_driver
      eq_to s e = ground (arith, eq_iff (driver_of s) async_driver)

  rebuild_idem :
      (parts : Parts)
      → str_eq (driver_of parts.scheme) async_driver ≡ true
      → urls.parse_qsl (rebuild urls parts).query ≡ translate (urls.parse_qsl parts.query)
      → rebuild urls (rebuild urls parts) ≡ rebuild urls parts
  rebuild_idem parts async parsed =
      let r = rebuild urls parts in
      ap (λ s. record r { scheme = s; query = urls.urlencode (translate (urls.parse_qsl r.query)) })
        (driver_idem parts.scheme async)
      ∙ ap (λ q. record r { query = urls.urlencode q })
          (ap translate parsed ∙ translate_idem (urls.parse_qsl parts.query))

  still_postgres :
      (url again : String)
      → is_postgres url ≡ true
      → urls.urlsplit again ≡ rewritten urls url
      → is_postgres again ≡ true
  unfolding rewritten
  still_postgres url again async split =
      ap (λ p. str_eq (driver_of p.scheme) async_driver) split
      ∙ ap (λ s. str_eq s async_driver) (driver_idem (urls.urlsplit url).scheme async)
      ∙ async

  rewritten_again :
      (url again : String)
      → is_postgres url ≡ true
      → urls.urlsplit again ≡ rewritten urls url
      → urls.parse_qsl (rewritten urls url).query
        ≡ translate (urls.parse_qsl (urls.urlsplit url).query)
      → rewritten urls again ≡ rewritten urls url
  unfolding rewritten
  rewritten_again url again async split parsed =
      ap (rebuild urls) split ∙ rebuild_idem (urls.urlsplit url) async parsed

  -- Where the parts of the rewritten URL, and the parameters of its query, are read back as they were
  -- written, to normalise a database URL twice is to normalise it once: a URL that was pasted and one
  -- that had been rewritten before give the same connection.
  pub normalise_database_url_idem :
      (url : String)
      → urls.urlsplit (urls.urlunsplit (rewritten urls url)) ≡ rewritten urls url
      → urls.parse_qsl (rewritten urls url).query
        ≡ translate (urls.parse_qsl (urls.urlsplit url).query)
      → normalise_database_url urls (normalise_database_url urls url)
        ≡ normalise_database_url urls url
  normalise_database_url_idem url split parsed = elim (Bool-cases (is_postgres url)) [
    | inr other ↦ ap (normalise_database_url urls) (unchanged url other)
    | inl async ↦
        let again = urls.urlunsplit (rewritten urls url) in
        ap (normalise_database_url urls) (changed url async)
        ∙ changed again (still_postgres url again async split)
        ∙ ap urls.urlunsplit (rewritten_again url again async split parsed)
        ∙ sym (changed url async)
  ]
