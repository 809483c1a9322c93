-- ===== src/Http/Services.antt =====
-- The services of internal/app behind the ports of the HTTP server, as internal/cmd/server.go puts
-- them there.
use air_cover.Http.Ports.{AuthService, SubRequestService, AdminService}

abbrev pub auth_of : {W : Type 0} → air_cover.Auth.Ports.Service W → AuthService W
auth_of s = record {
  request_login = air_cover.Auth.Service.request_login s;
  verify_magic_link = air_cover.Auth.Service.verify_magic_link s;
  logout = air_cover.Auth.Service.logout s;
  authenticate_session = air_cover.Auth.Service.authenticate_session s;
}

abbrev pub sub_requests_of :
    {W : Type 0} → air_cover.SubRequests.Ports.Service W → SubRequestService W
sub_requests_of s = record {
  list_dashboard = air_cover.SubRequests.Dashboard.list_dashboard s;
  get = air_cover.SubRequests.Dashboard.get s;
  create = air_cover.SubRequests.Service.create s;
  delete = air_cover.SubRequests.Service.delete s;
  apply_action = air_cover.SubRequests.Actions.apply_action s;
}

abbrev pub admin_of : {W : Type 0} → air_cover.Admin.Ports.Service W → AdminService W
admin_of s = record {
  list_users = air_cover.Admin.Service.list_users s;
  create_user = air_cover.Admin.Service.create_user s;
  update_user = air_cover.Admin.Service.update_user s;
  import_catalog_users = air_cover.Admin.Service.import_catalog_users s;
}
