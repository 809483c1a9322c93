-- ===== src/Email/Rendering.antt =====
-- From an email's parts to its text and its HTML.
use Prim.Native.Char.{Char, code}
use air_cover.Base.{
  String, ◌<>◌, Bool, not, ◌&&◌, List, [], ◌∷◌, ◌==◌, nat_eq, string_eq, if◌then◌else◌,
}

-- `emailCTA`
pub record EmailCta : Type 0 where
  pub label : String
  pub url : String

-- `emailMessage`
pub record EmailMessage : Type 0 where
  pub subject : String
  pub preview : String
  pub heading : String
  pub body : List String
  pub cta : EmailCta
  pub footer : String

-- `renderedEmail`
pub record RenderedEmail : Type 0 where
  pub subject : String
  pub html : String
  pub text : String

-- `html.EscapeString`
unfoldable pub escape_char : Char → String
escape_char c =
    if code c == b'&'
    then "&amp;"
    else if code c == 39
    then "&#39;"
    else if code c == b'<'
    then "&lt;"
    else if code c == b'>'
    then "&gt;"
    else if code c == b'"'
    then "&#34;"
    else String.◌∷◌ c String.[]

unfoldable pub escape_html : String → String
escape_html String.[] = String.[]
escape_html (String.◌∷◌ c s) = escape_char c <> escape_html s

abbrev pub shows_cta : EmailCta → Bool
shows_cta cta = not (cta.label == "") && not (cta.url == "")

-- The parts of `renderHTML`, in order.
abbrev pub preview_html : String → String
preview_html preview =
    if preview == ""
    then ""
    else "<div style=\"display:none;max-height:0;overflow:hidden;\">"
      <> escape_html preview
      <> "</div>"

abbrev pub heading_html : String → String
heading_html heading =
    "<table role=\"presentation\" width=\"100%\" cellspacing=\"0\" cellpadding=\"0\" style=\"background:#f8fafc;padding:32px 16px;\"><tr><td align=\"center\">"
    <> "<table role=\"presentation\" width=\"100%\" cellspacing=\"0\" cellpadding=\"0\" style=\"max-width:560px;background:#ffffff;border:1px solid #e2e8f0;border-radius:12px;padding:32px;\">"
    <> "<tr><td style=\"font-size:14px;font-weight:700;letter-spacing:0.08em;text-transform:uppercase;color:#2563eb;padding-bottom:24px;\">Air Cover</td></tr>"
    <> "<tr><td><h1 style=\"margin:0 0 16px;font-size:24px;line-height:1.25;color:#0f172a;\">"
    <> escape_html heading
    <> "</h1></td></tr>"

unfoldable pub body_html : List String → String
body_html [] = ""
body_html (paragraph ∷ body) =
    "<tr><td><p style=\"margin:0 0 16px;font-size:16px;line-height:1.6;color:#334155;\">"
    <> escape_html paragraph
    <> "</p></td></tr>"
    <> body_html body

abbrev pub cta_html : EmailCta → String
cta_html cta =
    if shows_cta cta
    then "<tr><td style=\"padding:8px 0 24px;\"><a href=\""
      <> escape_html cta.url
      <> "\" style=\"display:inline-block;background:#2563eb;color:#ffffff;text-decoration:none;font-weight:700;padding:12px 18px;border-radius:8px;\">"
      <> escape_html cta.label
      <> "</a></td></tr>"
      <> "<tr><td><p style=\"margin:0 0 16px;font-size:14px;line-height:1.6;color:#64748b;\">If the button does not work, copy and paste this link into your browser:<br><a href=\""
      <> escape_html cta.url
      <> "\" style=\"color:#2563eb;word-break:break-all;\">"
      <> escape_html cta.url
      <> "</a></p></td></tr>"
    else ""

abbrev pub footer_html : String → String
footer_html footer =
    if footer == ""
    then ""
    else "<tr><td style=\"border-top:1px solid #e2e8f0;padding-top:16px;\"><p style=\"margin:0;font-size:13px;line-height:1.5;color:#64748b;\">"
      <> escape_html footer
      <> "</p></td></tr>"

-- `renderHTML`
unfoldable pub render_html : EmailMessage → String
render_html message =
    "<!doctype html><html><body style=\"margin:0;padding:0;background:#f8fafc;color:#0f172a;font-family:Arial,sans-serif;\">"
    <> preview_html message.preview
    <> heading_html message.heading
    <> body_html message.body
    <> cta_html message.cta
    <> footer_html message.footer
    <> "</table></td></tr></table></body></html>"

unfoldable pub body_text : List String → String
body_text [] = ""
body_text (paragraph ∷ body) = paragraph <> "\n\n" <> body_text body

-- `renderText`
unfoldable pub render_text : EmailMessage → String
render_text message =
    "Air Cover\n\n"
    <> message.heading
    <> "\n\n"
    <> body_text message.body
    <> (if shows_cta message.cta
        then message.cta.label <> ": " <> message.cta.url <> "\n\n"
        else "")
    <> (if message.footer == "" then "" else message.footer <> "\n")

-- `renderEmail`
unfoldable pub render_email : EmailMessage → RenderedEmail
render_email message = record {
  subject = message.subject;
  html = render_html message;
  text = render_text message;
}
