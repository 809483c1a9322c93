-- ===== src/Authorization/Actions.antt =====
-- The constants of internal/app/authorization/authorization.go.
use air_cover.Base.{String}

abbrev pub action_admin_access : String
action_admin_access = "admin:access"

abbrev pub action_user_list : String
action_user_list = "user:list"

abbrev pub action_user_create : String
action_user_create = "user:create"

abbrev pub action_user_update : String
action_user_update = "user:update"

abbrev pub action_sub_request_delete : String
action_sub_request_delete = "subrequest:delete"

abbrev pub action_sub_request_take : String
action_sub_request_take = "subrequest:take"

abbrev pub action_sub_request_untake : String
action_sub_request_untake = "subrequest:untake"

abbrev pub resource_admin : String
resource_admin = "admin"

abbrev pub resource_user : String
resource_user = "user"

abbrev pub resource_sub_request : String
resource_sub_request = "subrequest"
