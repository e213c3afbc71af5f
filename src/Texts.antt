-- ===== src/Texts.antt =====
-- Texts in fields that colons part, as the keys that app/core/rate_limit.py and app/cache/redis_cache.py
-- write.
use Prim.Native.String
use Prim.Native.Char.{code}
use text.Mathlib.TextLemmas.{nil-append, cons-append}
use fast_api_project.Prelude.{
  ◌≡◌, refl, ap, String, Bool, true, false, ◌||◌, ◌==◌, if◌then◌else◌, arith,
}

unfoldable pub has_colon : String → Bool
has_colon String.[] = false
has_colon (String.◌∷◌ c rest) = code c == b':' || has_colon rest

-- what follows the last colon
unfoldable pub last_field : String → String
unfolding has_colon
last_field String.[] = ""
last_field (String.◌∷◌ c rest) =
    let field = last_field rest in
    if has_colon rest then field else if code c == b':' then rest else String.◌∷◌ c rest

has_colon-append : (s d : String) → has_colon (String.◌++◌ s (String.◌++◌ ":" d)) ≡ true
unfolding has_colon
has_colon-append String.[] d = rw (nil-append (String.◌++◌ ":" d), cons-append ":" "" d) refl
has_colon-append (String.◌∷◌ c s) d =
    rw (cons-append c s (String.◌++◌ ":" d)) (ground (arith, has_colon-append s d))

pub last_field-append :
    (s d : String) → has_colon d ≡ false → last_field (String.◌++◌ s (String.◌++◌ ":" d)) ≡ d
unfolding last_field has_colon
last_field-append String.[] d h =
    rw (nil-append (String.◌++◌ ":" d), cons-append ":" "" d, nil-append d, h) refl
last_field-append (String.◌∷◌ c s) d h =
    rw (cons-append c s (String.◌++◌ ":" d), has_colon-append s d) (last_field-append s d h)

-- what stands before the first colon, and what after it
unfoldable pub first_field : String → String
first_field String.[] = ""
first_field (String.◌∷◌ c rest) =
    let field = first_field rest in if code c == b':' then "" else String.◌∷◌ c field

unfoldable pub other_fields : String → String
other_fields String.[] = ""
other_fields (String.◌∷◌ c rest) =
    let fields = other_fields rest in if code c == b':' then rest else fields

pub first_field-append :
    (d s : String)
    → has_colon d ≡ false
    → (first_field (String.◌++◌ d (String.◌++◌ ":" s)) ≡ d)
      × (other_fields (String.◌++◌ d (String.◌++◌ ":" s)) ≡ s)
unfolding first_field other_fields has_colon
first_field-append String.[] s h =
    rw (nil-append (String.◌++◌ ":" s), cons-append ":" "" s, nil-append s) (refl, refl)
first_field-append (String.◌∷◌ c d) s h =
    let (first, other) = first_field-append d s (ground arith) in
    let plain : (code c == b':') ≡ false = ground arith in
    rw (cons-append c d (String.◌++◌ ":" s), plain) (ap (String.◌∷◌ c) first, other)
