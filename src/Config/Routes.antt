-- ===== src/Config/Routes.antt =====
-- services/gateway/routing/router.py: `load_route_sets_from_yaml`, on the document of the file.
use bedrock_gateway_platform.Base.{String, [], ok, ◌>>=◌, string_eq}
use bedrock_gateway_platform.Dict.{Dict}
use bedrock_gateway_platform.Dict
use bedrock_gateway_platform.Routing.Router.{RouteSet}
use bedrock_gateway_platform.Config.Yaml.{
  Yaml, sequence, no_items, Loaded, or_empty_as, type_error, or_empty, get_or, section, present,
  string, list,
}
use bedrock_gateway_platform.Config.Tables.{read_all}

unfoldable pub route_set_of : String → Yaml → Loaded RouteSet
route_set_of name y = do
  cfg ← or_empty_as type_error y
  primary ← present (Dict.get "primary" cfg)
  primary_model ← string primary
  fallbacks ← list (get_or cfg "fallbacks" (sequence no_items))
  ok (record { name = name; primary = primary_model; fallbacks = fallbacks })

unfoldable pub load_route_sets_from_yaml : Yaml → Loaded (Dict String RouteSet)
load_route_sets_from_yaml document = do
  raw ← or_empty document
  entries ← section raw "route_sets"
  read_all route_set_of entries []
