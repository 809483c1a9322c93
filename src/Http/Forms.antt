-- ===== src/Http/Forms.antt =====
-- What the form of a new request is read as.
use mathlib.Core.Path.{subst}
use air_cover.Base.{ℤ, String, ◌≡◌, refl, Option, none, some, List, to_int?}
use air_cover.Domain.{Time}
use air_cover.SubRequests.Ports.{CreateInput}
use air_cover.Calendar.{scan_clock, clock_of, parse_local}
use air_cover.Calendar.RoundTrip.{parse_local-clock_of}
use air_cover.Http.Message.{Request, form_value, parsed_form, good}
use air_cover.Http.SubRequestHandlers.{
  with_end, with_start, with_show, create_input, parse_create_sub_request_input,
}

-- The input says what the fields say: the instants are whole minutes, and the calendar shows them
-- with the very date and time of day that were filled in.
pub record Reads (fields : List (String × String)) (input : CreateInput) : Type 0 where
  pub show : to_int? (form_value "show" fields) ≡ some input.show_id
  pub start_time : scan_clock (form_value "start_time" fields) ≡ some (clock_of input.start_time)
  pub end_time : scan_clock (form_value "end_time" fields) ≡ some (clock_of input.end_time)
  pub notes : input.notes ≡ form_value "notes" fields

module _ (fields : List (String × String)) (input : CreateInput) where
  end-Reads :
      (id : ℤ) (from : Time) (o : Option Time)
      → to_int? (form_value "show" fields) ≡ some id
      → scan_clock (form_value "start_time" fields) ≡ some (clock_of from)
      → parse_local (form_value "end_time" fields) ≡ o
      → with_end fields id from o ≡ good input
      → Reads fields input
  end-Reads id from none show begins e h = cc h
  end-Reads id from (some till) show begins e h =
      let ends = (parse_local-clock_of (form_value "end_time" fields) till e).0 in
      let read : CreateInput = record {
        show_id = id;
        start_time = from;
        end_time = till;
        notes = form_value "notes" fields;
      } in
      let same : read ≡ input = cc h in
      subst (Reads fields) same
        (record { show = show; start_time = begins; end_time = ends; notes = refl })

  start-Reads :
      (id : ℤ) (o : Option Time)
      → to_int? (form_value "show" fields) ≡ some id
      → parse_local (form_value "start_time" fields) ≡ o
      → with_start fields id o ≡ good input
      → Reads fields input
  start-Reads id none show e h = cc h
  start-Reads id (some from) show e h =
      end-Reads id from (parse_local (form_value "end_time" fields)) show
        (parse_local-clock_of (form_value "start_time" fields) from e).0 refl h

  show-Reads :
      (o : Option ℤ)
      → to_int? (form_value "show" fields) ≡ o
      → with_show fields o ≡ good input
      → Reads fields input
  show-Reads none show h = cc h
  show-Reads (some id) show h =
      start-Reads id (parse_local (form_value "start_time" fields)) show refl h

-- A form that is accepted as a new request is the body that was sent; its show is a number, its start
-- and its end are dates with a time of day that exist, and the instants of the input are those that
-- the calendar shows with the very fields that were filled in; the notes are as sent.
pub parse_create-Reads :
    (r : Request) (input : CreateInput)
    → parse_create_sub_request_input r ≡ good input
    → (fields : List (String × String)) × (parsed_form r ≡ some fields) × Reads fields input
unfolding parse_create_sub_request_input
parse_create-Reads r input h = go (parsed_form r) refl h
  where
    go :
        (o : Option (List (String × String)))
        → parsed_form r ≡ o
        → create_input o ≡ good input
        → (fields : List (String × String)) × (parsed_form r ≡ some fields) × Reads fields input
    go none e h = cc h
    go (some fields) e h =
        (fields, e, show-Reads fields input (to_int? (form_value "show" fields)) refl h)
