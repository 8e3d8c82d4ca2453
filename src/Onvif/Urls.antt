-- ===== src/Onvif/Urls.antt =====
-- The URLs that a camera's channels are registered with, in DeviceServer/src/OnvifScanner.cpp.
use device_app.Base.{
  ℕ, zero, suc, ◌+◌, ◌≡◌, ◌≤◌, refl, ap, String, List, [], Option, none, some, Bool, true, false,
  ◌&&◌, ◌||◌, not, if_cases, ◌==◌, text_key, arith, length, All, Bool-cases, inl, inr, eq_iff,
  get_or, nat_eq,
}
use device_app.Onvif.{
  Probes, single_url, get_single_rtsp_url, fallback_urls, channel_urls, get_rtsp_urls,
  single_command, channel_command, channel_answer,
}
use Prim.Native.Char.{Char}
use device_app.Onvif.Text.{
  contains, with_login, is_refused, strip_line_ends, pop_newline, drop_first,
}
use text.Mathlib.Text.{starts_with}
use text.Mathlib.TextPositions.{starts_with-append}
use Prim.Native.String.{◌++◌ as append}

-- Not empty, and with the scanner's credentials if it has a place for them.
unfoldable pub is_usable : String → Bool
is_usable url = not (url == "") && (not (contains "//" url) || contains "//admin:5hanwha!@" url)

contains-starts :
    (s : String) → starts_with s "//admin:5hanwha!@" ≡ true → contains "//admin:5hanwha!@" s ≡ true
unfolding contains
contains-starts String.[] h = cc h
contains-starts (String.◌∷◌ c s) h = ground (arith, h)

contains-append : (t : String) → contains "//admin:5hanwha!@" (append "//admin:5hanwha!@" t) ≡ true
contains-append t = contains-starts _ (starts_with-append "//admin:5hanwha!@" t)

with_login-contains :
    (s : String) → contains "//" s ≡ true → contains "//admin:5hanwha!@" (with_login s) ≡ true
unfolding contains with_login drop_first
with_login-contains String.[] h = h
with_login-contains (String.◌∷◌ c s) h = elim (Bool-cases (starts_with (String.◌∷◌ c s) "//")) [
  | inl e ↦ rw e (contains-append (drop_first s))
  | inr e ↦ rw e (ground (arith, with_login-contains s, h, e))
]

contains-tail :
    (c : Char) (s : String) → contains "//" (String.◌∷◌ c s) ≡ false → contains "//" s ≡ false
unfolding contains
contains-tail c s h = ground (arith, h)

with_login-same : (s : String) → contains "//" s ≡ false → with_login s ≡ s
unfolding contains with_login
with_login-same String.[] h = refl
with_login-same (String.◌∷◌ c s) h =
    ground (arith, h, ap (String.◌∷◌ c) (with_login-same s (contains-tail c s h)))

-- What contains the credentials is not empty.
contains-nonempty : (s : String) → contains "//admin:5hanwha!@" s ≡ true → (s == "") ≡ false
unfolding contains
contains-nonempty s h = elim (Bool-cases (s == "")) [
  | inl e ↦ cc (ap (contains "//admin:5hanwha!@") ((eq_iff s "").0 e), h)
  | inr e ↦ e
]

with_login-is_usable : (s : String) → (s == "") ≡ false → is_usable (with_login s) ≡ true
unfolding is_usable
with_login-is_usable s h = elim (Bool-cases (contains "//" s)) [
  | inl e ↦
      let put = with_login-contains s e in ground (arith, put, contains-nonempty (with_login s) put)
  | inr e ↦ rw (with_login-same s e) (rw (h, e) refl)
]

abbrev Usable : String → Type 0
Usable url = is_usable url ≡ true

is_refused-nonempty : (s : String) → is_refused s ≡ false → (s == "") ≡ false
unfolding is_refused
is_refused-nonempty s h = ground (arith, h)

-- The single mode's URL is usable or empty.
single_url-usable :
    (line : Option (Option String)) → (single_url line == "") || is_usable (single_url line) ≡ true
unfolding single_url
single_url-usable none = refl
single_url-usable (some line) =
    let result = pop_newline (get_or line "") in
    if_cases (λ url. (url == "") || is_usable url ≡ true) (is_refused result) _ _ (λ _. refl)
      (λ ok. ground (arith, with_login-is_usable result (is_refused-nonempty result ok)))

module _ {W : Type 0} (probes : Probes W) (to_string : ℕ → String) (profile : ℕ) where
  abbrev Fits : ℕ → List String × W → Type 0
  Fits n r = (length r.0 ≤ n) × All Usable r.0

  fallback_urls-Fits :
      (n : ℕ) (ip : String) (w : W) → Fits (suc n) (fallback_urls probes to_string profile ip w)
  unfolding fallback_urls get_single_rtsp_url
  fallback_urls-Fits n ip w =
      let line = (probes.first_line w (single_command probes to_string profile ip)).0 in
      if_cases (λ us. (length us ≤ suc n) × All Usable us) (single_url line == "") _ _
        (λ _. (omega arith, tt)) (λ e. (omega arith, (ground (arith, single_url-usable line), tt)))

  channel_answer-Fits :
      (n : ℕ) (answer : Option (Option String)) (ended more : List String × W) (w : W)
      → Fits (suc n) ended
      → Fits n more
      → Fits (suc n) (channel_answer probes to_string profile answer ended more w)
  unfolding channel_answer
  channel_answer-Fits n none ended more w e m = (omega arith, tt)
  channel_answer-Fits n (some line) ended more w e m =
      let result = strip_line_ends (get_or line "") in
      if_cases (Fits (suc n)) (is_refused result) _ _ (λ _. e)
        (λ ok.
          (omega (arith, m.0), (with_login-is_usable result (is_refused-nonempty result ok), m.1)))

  channel_urls-Fits :
      (left ch : ℕ) (ip : String) (w : W)
      → Fits left (channel_urls probes to_string profile left ch ip w)
  unfolding channel_urls
  channel_urls-Fits zero ch ip w = (omega arith, tt)
  channel_urls-Fits (suc left) ch ip w =
      let (answer, w₁) = probes.first_line w (channel_command probes to_string profile ip ch) in
      channel_answer-Fits left answer _ _ w₁
        (if_cases (Fits (suc left)) (nat_eq ch 0) (fallback_urls probes to_string profile ip w₁)
          ([], w₁) (λ _. fallback_urls-Fits left ip w₁) (λ _. (omega arith, tt)))
        (channel_urls-Fits left (ch + 1) ip w₁)

  -- Whatever the commands answer, a camera gets at most four URLs, none empty, and each that has a
  -- place for credentials contains the scanner's.
  pub get_rtsp_urls-usable :
      (ip : String) (w : W)
      → let urls = (get_rtsp_urls probes to_string profile ip w).0 in
        (length urls ≤ 4) × All (λ url. is_usable url ≡ true) urls
  unfolding get_rtsp_urls
  get_rtsp_urls-usable ip w = channel_urls-Fits 4 0 ip w
