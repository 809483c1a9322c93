-- ===== src/Email/Senders.antt =====
-- `ResendSender`, `SendGridSender` and the choice of `NewSender`. The client of Resend and the HTTP
-- client are parameters; the JSON of a request is in the order of its keys, as `json.Marshal` writes
-- a map.
use air_cover.Base.{
  ℕ, pos, String, ◌<>◌, not, List, [], ◌∷◌, ◌==◌, string_eq, is_empty, leb, of_int, if◌then◌else◌,
}
use air_cover.Errors.{Exec, opaque, wrap, pure, raise, map_error, ◌>>=◌}
use air_cover.Json.{Json, str, arr, obj, Elems, nil, cons, Fields, end, field}
use air_cover.Recipients.{CreatedMessage, ActedMessage, Sender}
use air_cover.Email.Rendering.{RenderedEmail, render_email}
use air_cover.Email.Messages.{
  magic_link_message, sub_request_created_message, sub_request_taken_message,
  sub_request_untaken_message,
}

-- `Sender`
pub record EmailSender (W : Type 0) : Type 0 where
  pub send_magic_link : String → String → Exec W (Unit {0})
  pub about_requests : Sender W

-- `resend.SendEmailRequest`
pub record SendEmailRequest : Type 0 where
  pub from : String
  pub to : List String
  pub cc : List String
  pub bcc : List String
  pub content : RenderedEmail

-- Whom an email goes to.
pub record Envelope : Type 0 where
  pub to : List String
  pub cc : List String
  pub bcc : List String

-- `ResendSender`
pub record ResendSender (W : Type 0) : Type 0 where
  pub from_email : String
  pub emails : SendEmailRequest → Exec W (Unit {0})

pub record SendGridRequest : Type 0 where
  pub authorization : String
  pub payload : Json

-- `SendGridSender`, whose client answers with a status.
pub record SendGridSender (W : Type 0) : Type 0 where
  pub api_key : String
  pub from_email : String
  pub http_client : SendGridRequest → Exec W ℕ

abbrev to_one : String → Envelope
to_one to_email = record { to = to_email ∷ []; cc = []; bcc = [] }

abbrev with_copies : String → List String → Envelope
with_copies to_email cc_emails = record { to = to_email ∷ []; cc = cc_emails; bcc = [] }

abbrev to_all : String → List String → Envelope
to_all from_email bcc_emails = record { to = from_email ∷ []; cc = []; bcc = bcc_emails }

-- The methods of a sender, from what it sends a rendered email with, and the end of its error texts.
module _ {W : Type 0} (from_email provider : String)
    (send : Envelope → RenderedEmail → Exec W (Unit {0})) where
  abbrev send_created : List String → CreatedMessage → Exec W (Unit {0})
  send_created bcc_emails message =
      if is_empty bcc_emails
      then pure tt
      else map_error (λ e. wrap ("failed to send sub request email via " <> provider <> ": ") e "")
          (send (to_all from_email bcc_emails) (render_email (sub_request_created_message message)))

  abbrev send_taken : String → List String → ActedMessage → Exec W (Unit {0})
  send_taken to_email cc_emails message =
      if to_email == ""
      then pure tt
      else map_error
          (λ e. wrap ("failed to send sub request taken email via " <> provider <> ": ") e "")
          (send (with_copies to_email cc_emails) (render_email (sub_request_taken_message message)))

  abbrev send_untaken : String → List String → ActedMessage → Exec W (Unit {0})
  send_untaken to_email cc_emails message =
      if to_email == ""
      then pure tt
      else map_error
          (λ e. wrap ("failed to send sub request untaken email via " <> provider <> ": ") e "")
          (send (with_copies to_email cc_emails)
            (render_email (sub_request_untaken_message message)))

  abbrev sender_of : EmailSender W
  sender_of = record {
    send_magic_link = λ to_email magic_link.
        send (to_one to_email) (render_email (magic_link_message magic_link));
    about_requests = record {
      send_sub_request_created = send_created;
      send_sub_request_taken = send_taken;
      send_sub_request_untaken = send_untaken;
    };
  }

module _ {W : Type 0} (s : ResendSender W) where
  -- `send`, `sendCC` and `sendBCC`
  unfoldable pub resend_send : Envelope → RenderedEmail → Exec W (Unit {0})
  resend_send envelope message =
      map_error (λ e. wrap "failed to send email via resend: " e "")
        (s.emails (record {
          from = s.from_email;
          to = envelope.to;
          cc = envelope.cc;
          bcc = envelope.bcc;
          content = message;
        }))

  abbrev resend_sender : EmailSender W
  resend_sender = sender_of s.from_email "resend" resend_send

-- `{"email": ...}` for each address.
unfoldable pub addresses : List String → Elems
addresses [] = nil
addresses (email ∷ emails) = cons (obj (field "email" (str email) end)) (addresses emails)

-- An optional list of addresses, in front of other fields.
abbrev copies_field : String → List String → Fields → Fields
copies_field key emails fields =
    if is_empty emails then fields else field key (arr (addresses emails)) fields

abbrev content_part : String → String → Json
content_part type value = obj (field "type" (str type) (field "value" (str value) end))

-- The payload of `send`, `sendCC` and `sendBCC`
unfoldable pub send_grid_payload : String → Envelope → RenderedEmail → Json
send_grid_payload from_email envelope message = obj (
    field "content"
      (arr (
        cons (content_part "text/plain" message.text)
          (cons (content_part "text/html" message.html) nil)))
      (field "from" (obj (field "email" (str from_email) (field "name" (str "Air Cover") end))) (
        field "personalizations"
          (arr (
            cons
              (obj (
                copies_field "bcc" envelope.bcc
                  (copies_field "cc" envelope.cc (field "to" (arr (addresses envelope.to)) end))))
              nil))
          (field "subject" (str message.subject) end))))

abbrev checked_status : {W : Type 0} → ℕ → Exec W (Unit {0})
checked_status status =
    if leb 400 status
    then raise (opaque ("sendgrid api returned error status: " <> of_int (pos status)))
    else pure tt

module _ {W : Type 0} (s : SendGridSender W) where
  unfoldable pub send_grid_send : Envelope → RenderedEmail → Exec W (Unit {0})
  send_grid_send envelope message = do
    status ←
        map_error (λ e. wrap "failed to send email via sendgrid: " e "")
          (s.http_client (record {
            authorization = "Bearer " <> s.api_key;
            payload = send_grid_payload s.from_email envelope message;
          }))
    checked_status status

  abbrev send_grid_sender : EmailSender W
  send_grid_sender = sender_of s.from_email "sendgrid" send_grid_send

-- `ConsoleSender`, which only writes to the log.
abbrev pub console_sender : {W : Type 0} → EmailSender W
console_sender = record {
  send_magic_link = λ to_email magic_link. pure tt;
  about_requests = record {
    send_sub_request_created = λ bcc_emails message. pure tt;
    send_sub_request_taken = λ to_email cc_emails message. pure tt;
    send_sub_request_untaken = λ to_email cc_emails message. pure tt;
  };
}

module _ {W : Type 0} (resend_client : String → SendEmailRequest → Exec W (Unit {0}))
    (http_client : SendGridRequest → Exec W ℕ) where
  -- `NewSender`
  unfoldable pub new_sender : String → String → String → EmailSender W
  new_sender resend_api_key send_grid_api_key from_email =
      if not (resend_api_key == "")
      then resend_sender (record { from_email = from_email; emails = resend_client resend_api_key })
      else if not (send_grid_api_key == "")
      then send_grid_sender (record {
        api_key = send_grid_api_key;
        from_email = from_email;
        http_client = http_client;
      })
      else console_sender
