-- ===== src/Email/Messages.antt =====
-- The four emails of the program.
use air_cover.Base.{String, ◌<>◌, List, [], ◌∷◌, ◌==◌, string_eq, trim, if◌then◌else◌}
use air_cover.Domain.{Time}
use air_cover.Calendar.{clock_of, show_in_email}
use air_cover.Recipients.{CreatedMessage, ActedMessage}
use air_cover.Email.Rendering.{EmailMessage}

-- `formatEmailTime`
unfoldable pub format_email_time : Time → String
format_email_time value = show_in_email (clock_of value)

abbrev when_text : Time → Time → String
when_text start_time end_time =
    "When: " <> format_email_time start_time <> " to " <> format_email_time end_time

-- `magicLinkMessage`
unfoldable pub magic_link_message : String → EmailMessage
magic_link_message magic_link = record {
  subject = "Log in to Air Cover";
  preview = "Use your secure link to log in to Air Cover.";
  heading = "Log in to Air Cover";
  body =
      "Use the secure link below to log in to Air Cover. This link expires soon and can only be used once."
      ∷ [];
  cta = record { label = "Log in to Air Cover"; url = magic_link };
  footer = "If you did not request this email, you can ignore it.";
}

abbrev notes_body : String → List String
notes_body notes = if notes == "" then [] else ("Notes: " <> notes) ∷ []

-- `subRequestCreatedMessage`
unfoldable pub sub_request_created_message : CreatedMessage → EmailMessage
sub_request_created_message message = record {
  subject = "New sub request: " <> message.show_title;
  preview = "A new sub request is available in Air Cover.";
  heading = "New sub request";
  body =
      (message.requester_email <> " posted a new sub request for " <> message.show_title <> ".")
      ∷ when_text message.start_time message.end_time
      ∷ notes_body (trim message.notes);
  cta = record { label = "View sub request"; url = message.detail_url };
  footer = "You are receiving this because you are an active Air Cover user.";
}

-- `subRequestTakenMessage`
unfoldable pub sub_request_taken_message : ActedMessage → EmailMessage
sub_request_taken_message message = record {
  subject = "Sub request taken: " <> message.show_title;
  preview = "Your sub request has been taken in Air Cover.";
  heading = "Sub request taken";
  body =
      (message.actor_email <> " took your sub request for " <> message.show_title <> ".")
      ∷ when_text message.start_time message.end_time
      ∷ [];
  cta = record { label = "View sub request"; url = message.detail_url };
  footer = "You are receiving this because you posted this sub request in Air Cover.";
}

-- `subRequestUntakenMessage`
unfoldable pub sub_request_untaken_message : ActedMessage → EmailMessage
sub_request_untaken_message message = record {
  subject = "Sub request no longer covered: " <> message.show_title;
  preview = "Your sub request is no longer covered in Air Cover.";
  heading = "Sub request no longer covered";
  body =
      (message.actor_email <> " is no longer covering your sub request for " <> message.show_title
        <> ".")
      ∷ when_text message.start_time message.end_time
      ∷ [];
  cta = record { label = "View sub request"; url = message.detail_url };
  footer = "You are receiving this because you posted this sub request in Air Cover.";
}
