-- ===== src/Examples/Recipients.antt =====
-- The announcement of a request to one user.
use air_cover.Base.{pos, true, none, [], ◌∷◌}
use air_cover.Errors.{pure}
use air_cover.SubRequests.Ports.{CreatedEvent}
use air_cover.Sqlite.Tables.{Db}
use air_cover.Recipients.{Sender, sub_request_created}
use air_cover.Recipients.Created.{Announced, db_notifier, created-Announced}

abbrev event : CreatedEvent
event = record {
  request = record {
    id = pos 1;
    show_id = pos 7;
    posted_by_user_id = pos 1;
    taken_by_user_id = none;
    substitute_id = none;
    start_time = 2000;
    end_time = 3000;
    notes = "";
    created_at = 10;
    updated_at = 10;
  };
  requester_email = "alice@example.org";
  show_title = "Night Drive";
  detail_path = "/sub-requests/1";
}

abbrev database : Db
database = record {
  users =
      record {
        id = pos 1;
        email = "root@example.org";
        role = none;
        is_enabled = true;
        created_at = none;
      }
      ∷ [];
  user_seq = 1;
  magic_links = [];
  magic_link_seq = 0;
  sessions = [];
  sub_requests = [];
  sub_request_seq = 0;
  current_timestamp = 1000;
  faults = [];
}

abbrev silent : Sender Db
silent = record {
  send_sub_request_created = λ emails message. pure tt;
  send_sub_request_taken = λ to copies message. pure tt;
  send_sub_request_untaken = λ to copies message. pure tt;
}

created-Announced_example :
    Announced silent "https://air.example.org/" event database
      (sub_request_created (db_notifier silent "https://air.example.org/") event database)
created-Announced_example = created-Announced silent "https://air.example.org/" event database
