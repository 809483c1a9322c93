-- ===== src/Examples/Emails.antt =====
-- An email whose texts hold markup.
use air_cover.Base.{◌≡◌}
use air_cover.Recipients.{CreatedMessage}
use air_cover.Email.Rendering.{render_html}
use air_cover.Email.Messages.{sub_request_created_message}
use air_cover.Email.Escaping.{markup, outline, render_html-outline}

abbrev created : CreatedMessage
created = record {
  show_title = "Night <b>Drive</b>";
  requester_email = "alice@example.org";
  start_time = 62168994300000000000;
  end_time = 62168997900000000000;
  notes = "<script>alert('cover me')</script>";
  detail_url = "https://air.example.org/sub-requests/1";
}

render_html-outline_example :
    markup (render_html (sub_request_created_message created))
    ≡ markup (render_html (outline (sub_request_created_message created)))
render_html-outline_example = render_html-outline (sub_request_created_message created)
