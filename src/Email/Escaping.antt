-- ===== src/Email/Escaping.antt =====
-- No text in an email can become part of its markup.
use Prim.Native.Char.{Char, code}
use text.Mathlib.TextLemmas.{nil-append, cons-append}
use mathlib.Core.Path.{ap₂}
use air_cover.Base.{
  String, ◌<>◌, ◌≡◌, refl, sym, ◌∙◌, ap, Bool, false, not, ◌&&◌, ◌||◌, List, [], ◌∷◌, map, ◌==◌,
  nat_eq, string_eq, if◌then◌else◌, Bool-cases, inl, inr,
}
use air_cover.Email.Rendering.{
  EmailCta, EmailMessage, escape_char, escape_html, shows_cta, preview_html, heading_html,
  body_html, cta_html, footer_html, render_html,
}

-- The characters that open and close tags and attributes.
abbrev is_markup : Char → Bool
is_markup c = code c == b'<' || code c == b'>' || code c == b'"' || code c == 39

abbrev put : Char → String → String
put c s = String.◌∷◌ c s

-- The markup characters of a text, in order.
unfoldable pub markup : String → String
markup String.[] = String.[]
markup (String.◌∷◌ c s) = let rest = markup s in if is_markup c then String.◌∷◌ c rest else rest

-- A text that is not empty is replaced by one letter.
abbrev outline_text : String → String
outline_text s = if s == "" then "" else "x"

abbrev outline_cta : EmailCta → EmailCta
outline_cta cta = record { label = outline_text cta.label; url = outline_text cta.url }

abbrev pub outline : EmailMessage → EmailMessage
outline message = record {
  subject = outline_text message.subject;
  preview = outline_text message.preview;
  heading = outline_text message.heading;
  body = map outline_text message.body;
  cta = outline_cta message.cta;
  footer = outline_text message.footer;
}

markup-append : (s t : String) → markup (s <> t) ≡ markup s <> markup t
unfolding markup
markup-append String.[] t = rw (nil-append t, nil-append (markup t)) refl
markup-append (String.◌∷◌ c s) t = elim (Bool-cases (is_markup c)) [
  | inl e ↦
      rw (cons-append c s t, e, cons-append c (markup s) (markup t))
        (ap (put c) (markup-append s t))
  | inr e ↦ rw (cons-append c s t, e) (markup-append s t)
]

plain_char : (c : Char) → is_markup c ≡ false → markup (put c "") ≡ ""
unfolding markup
plain_char c e = rw e refl

escape_char-markup : (c : Char) → markup (escape_char c) ≡ ""
unfolding markup escape_char
escape_char-markup c = elim (Bool-cases (code c == b'&')) [
  | inl e ↦ rw e refl
  | inr amp ↦ elim (Bool-cases (code c == 39)) [
    | inl e ↦ rw (amp, e) refl
    | inr quote ↦ elim (Bool-cases (code c == b'<')) [
      | inl e ↦ rw (amp, quote, e) refl
      | inr less ↦ elim (Bool-cases (code c == b'>')) [
        | inl e ↦ rw (amp, quote, less, e) refl
        | inr greater ↦ elim (Bool-cases (code c == b'"')) [
          | inl e ↦ rw (amp, quote, less, greater, e) refl
          | inr double ↦
              rw (amp, quote, less, greater, double)
                (plain_char c (rw (less, greater, double, quote) refl))
        ]
      ]
    ]
  ]
]

-- An escaped text has no markup.
escape_html-markup : (s : String) → markup (escape_html s) ≡ ""
unfolding markup escape_html
escape_html-markup String.[] = refl
escape_html-markup (String.◌∷◌ c s) =
    markup-append (escape_char c) (escape_html s)
    ∙ ap₂ (λ a b. a <> b) (escape_char-markup c) (escape_html-markup s)
    ∙ nil-append ""

abbrev AreAlike : String → String → Type 0
AreAlike s t = markup s ≡ markup t

append-AreAlike : (a b c d : String) → AreAlike a b → AreAlike c d → AreAlike (a <> c) (b <> d)
append-AreAlike a b c d h k = markup-append a c ∙ ap₂ (λ x y. x <> y) h k ∙ sym (markup-append b d)

-- Around an escaped text the markup does not depend on the text.
around-AreAlike :
    (before s t after later : String)
    → AreAlike after later
    → AreAlike (before <> escape_html s <> after) (before <> escape_html t <> later)
around-AreAlike before s t after later h =
    append-AreAlike before before _ _ refl
      (append-AreAlike _ _ after later (escape_html-markup s ∙ sym (escape_html-markup t)) h)

outline-empty : (s : String) → (outline_text s == "") ≡ (s == "")
outline-empty s = elim (Bool-cases (s == "")) [ inl e ↦ rw e refl | inr e ↦ rw e refl ]

preview-AreAlike : (s : String) → AreAlike (preview_html s) (preview_html (outline_text s))
preview-AreAlike s = elim (Bool-cases (s == "")) [
  | inl e ↦ rw e refl
  | inr e ↦ rw e (around-AreAlike _ s "x" _ _ refl)
]

heading-AreAlike : (s : String) → AreAlike (heading_html s) (heading_html (outline_text s))
heading-AreAlike s = append-AreAlike _ _ _ _ refl (
    append-AreAlike _ _ _ _ refl
      (append-AreAlike _ _ _ _ refl (around-AreAlike _ s (outline_text s) _ _ refl)))

body-AreAlike : (body : List String) → AreAlike (body_html body) (body_html (map outline_text body))
unfolding body_html
body-AreAlike [] = refl
body-AreAlike (s ∷ body) =
    around-AreAlike _ s (outline_text s) _ _ (append-AreAlike _ _ _ _ refl (body-AreAlike body))

shows-outline : (cta : EmailCta) → shows_cta (outline_cta cta) ≡ shows_cta cta
shows-outline cta = ap₂ (λ a b. not a && not b) (outline-empty cta.label) (outline-empty cta.url)

cta-AreAlike : (cta : EmailCta) → AreAlike (cta_html cta) (cta_html (outline_cta cta))
cta-AreAlike cta = elim (Bool-cases (shows_cta cta)) [
  | inl e ↦
      rw (shows-outline cta, e)
        (around-AreAlike _ cta.url (outline_text cta.url) _ _ (
          around-AreAlike _ cta.label (outline_text cta.label) _ _ (
            append-AreAlike _ _ _ _ refl (
              around-AreAlike _ cta.url (outline_text cta.url) _ _
                (around-AreAlike _ cta.url (outline_text cta.url) _ _ refl)))))
  | inr e ↦ rw (shows-outline cta, e) refl
]

footer-AreAlike : (s : String) → AreAlike (footer_html s) (footer_html (outline_text s))
footer-AreAlike s = elim (Bool-cases (s == "")) [
  | inl e ↦ rw e refl
  | inr e ↦ rw e (around-AreAlike _ s "x" _ _ refl)
]

-- No text in an email can open or close a tag or an attribute: the angle brackets and quotes of the
-- HTML are, in their order, those of the same email with every text that is not empty replaced by
-- one letter, whoever wrote the texts.
pub render_html-outline :
    (message : EmailMessage) → markup (render_html message) ≡ markup (render_html (outline message))
unfolding render_html
render_html-outline message = append-AreAlike _ _ _ _ refl (
    append-AreAlike _ _ _ _ (preview-AreAlike message.preview) (
      append-AreAlike _ _ _ _ (heading-AreAlike message.heading) (
        append-AreAlike _ _ _ _ (body-AreAlike message.body) (
          append-AreAlike _ _ _ _ (cta-AreAlike message.cta)
            (append-AreAlike _ _ _ _ (footer-AreAlike message.footer) refl)))))
