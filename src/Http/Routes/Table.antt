-- ===== src/Http/Routes/Table.antt =====
-- The routes that src/api/routes registers, in its order.
pub mod Reached
use airies_ups_c.Base.{Bool, true, false, Option, none, some, List, [], ◌∷◌, String}
use airies_ups_c.Base.Text.{bytes}
use airies_ups_c.Http.Routes.{
  Method, api_get, api_post, api_put, api_delete, Route, api_server_route,
}

-- A call of `api_server_route`.
pub record Registration : Type 0 where
  pub streaming : Bool
  pub pattern : String
  pub method : Method
  pub handler : String

abbrev get : String → String → Registration
get pattern handler = record {
  streaming = false;
  pattern = pattern;
  method = api_get;
  handler = handler;
}

abbrev post : String → String → Registration
post pattern handler = record {
  streaming = false;
  pattern = pattern;
  method = api_post;
  handler = handler;
}

abbrev put : String → String → Registration
put pattern handler = record {
  streaming = false;
  pattern = pattern;
  method = api_put;
  handler = handler;
}

abbrev delete : String → String → Registration
delete pattern handler = record {
  streaming = false;
  pattern = pattern;
  method = api_delete;
  handler = handler;
}

abbrev or_kept : Option (List Route) → List Route → List Route
or_kept none routes = routes
or_kept (some more) routes = more

-- The result of a call is not looked at: a route for which there is no room is left out.
unfoldable pub register_all : List Registration → List Route → List Route
unfolding api_server_route
register_all [] routes = routes
register_all (g ∷ calls) routes =
    let next =
      or_kept (api_server_route g.streaming routes (bytes g.pattern) g.method g.handler) routes in
    register_all calls next

abbrev pub core_routes : List Registration
core_routes =
    get "/api/version" "handle_version"
    ∷ get "/api/status" "handle_status"
    ∷ get "/api/commands" "handle_commands"
    ∷ post "/api/cmd" "handle_cmd"
    ∷ get "/api/events" "handle_events"
    ∷ post "/api/restart" "handle_restart"
    ∷ []

abbrev pub auth_routes : List Registration
auth_routes =
    post "/api/auth/setup" "handle_auth_setup"
    ∷ post "/api/auth/login" "handle_auth_login"
    ∷ post "/api/auth/change" "handle_auth_change"
    ∷ post "/api/auth/logout" "handle_auth_logout"
    ∷ get "/api/auth/check" "handle_auth_check"
    ∷ get "/api/setup/status" "handle_setup_status"
    ∷ get "/api/setup/ports" "handle_setup_ports"
    ∷ post "/api/setup/test" "handle_setup_test"
    ∷ []

abbrev pub shutdown_routes : List Registration
shutdown_routes =
    get "/api/shutdown/groups" "handle_shutdown_groups_get"
    ∷ post "/api/shutdown/groups" "handle_shutdown_groups_post"
    ∷ put "/api/shutdown/groups" "handle_shutdown_groups_put"
    ∷ delete "/api/shutdown/groups" "handle_shutdown_groups_delete"
    ∷ get "/api/shutdown/targets" "handle_shutdown_targets_get"
    ∷ post "/api/shutdown/targets" "handle_shutdown_targets_post"
    ∷ put "/api/shutdown/targets" "handle_shutdown_targets_put"
    ∷ delete "/api/shutdown/targets" "handle_shutdown_targets_delete"
    ∷ post "/api/shutdown/targets/test_ssh" "handle_shutdown_targets_test_ssh"
    ∷ post "/api/shutdown/targets/test_confirm" "handle_shutdown_targets_test_confirm"
    ∷ get "/api/shutdown/settings" "handle_shutdown_settings_get"
    ∷ post "/api/shutdown/settings" "handle_shutdown_settings_set"
    ∷ get "/api/shutdown/workflow/status" "handle_workflow_status"
    ∷ []

abbrev pub config_routes : List Registration
config_routes =
    get "/api/config/ups/history" "handle_config_ups_history"
    ∷ get "/api/config/ups*" "handle_config_ups_get"
    ∷ post "/api/config/ups" "handle_config_ups_set"
    ∷ get "/api/config/app" "handle_app_config_get"
    ∷ post "/api/config/app" "handle_app_config_set"
    ∷ get "/api/about" "handle_about"
    ∷ []

abbrev pub weather_routes : List Registration
weather_routes =
    get "/api/weather/status" "handle_weather_status"
    ∷ get "/api/weather/config" "handle_weather_config_get"
    ∷ post "/api/weather/config" "handle_weather_config_set"
    ∷ post "/api/weather/simulate" "handle_weather_simulate"
    ∷ get "/api/weather/report" "handle_weather_report"
    ∷ []

-- The stream's route is there only with a broadcaster.
abbrev pub stream_route : Bool → List Registration
stream_route false = []
stream_route true =
    record {
      streaming = true;
      pattern = "/api/events/stream";
      method = api_get;
      handler = "sse_handle_stream";
    }
    ∷ []

unfoldable pub api_register_routes : Bool → List Route
unfolding register_all
api_register_routes has_sse =
    let core = register_all (stream_route has_sse) (register_all core_routes []) in
    let signed = register_all auth_routes core in
    let stopped = register_all shutdown_routes signed in
    register_all weather_routes (register_all config_routes stopped)
