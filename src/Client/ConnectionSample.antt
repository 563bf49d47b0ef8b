-- ===== src/Client/ConnectionSample.antt =====
-- A concrete client that is connected to a concrete server.
use db2rest_bridge.Base.{refl}
use db2rest_bridge.Base.Search.{cut_prefix}
use db2rest_bridge.Base.{split_on}
use db2rest_bridge.Query.Samples.{whole}
use db2rest_bridge.Crud.Samples.{Cell, person, word, backend}
use db2rest_bridge.Crud.Samples
use db2rest_bridge.Api.Routes.{handler_with_options}
use db2rest_bridge.Api.Mux.{first_match}
use db2rest_bridge.Server.Rest.{rest_server}
use db2rest_bridge.Client.Remote.{Connection}
use db2rest_bridge.Client.UrlSamples.{urls, styles, binders, path_of, api}
use db2rest_bridge.Client.RemoteSamples.{
  empty, decoders, write, server, version, show_none, methods, options, refuse, not_routed, client,
}

unfoldable pub connection :
    Connection urls styles
      (rest_server Samples.cells decoders show_none version server)
      write
      client
unfolding client methods split_on cut_prefix handler_with_options first_match rest_server urls write
connection = record {
  binders = binders;
  path_of = path_of;
  base = "/api";
  api = api;
  plain = (refl, (refl, tt));
  http_error = refuse;
  options = options;
  at = refl;
  transparent = λ h. refl;
  route = first_match;
  no_body = empty;
  no_route = not_routed;
  unedited = refl;
  doer = refl;
  routing = λ op clear. (refl, refl);
}
