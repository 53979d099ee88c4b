-- ===== src/Entry/Start.antt =====
-- cmd/cipolin/main.go: what the program starts with its configuration.
use cipolin.Base.{Bool, Option, none, some, if◌then◌else◌}
use cipolin.Base.Texts.{String, str_eq}
use cipolin.Fetcher.Fetch.{new_event_fetcher}
use cipolin.Fetcher.Fetch
use cipolin.Graph.Neo4j.{Arithmetic, Neo4j, Result, ok, err}
use cipolin.Graph.Engine.{GraphRankEngineConfig, GraphRankEngine, new_graph_rank_engine}
use cipolin.Policy.Engine.{PolicyConfig, new_plugin_engine}
use cipolin.Entry.Settings.{Config, or_text}

unfoldable pub master_key_of : Config → String → String
master_key_of config generated = or_text config.master_key generated

unfoldable pub fetcher_config : Config → Fetch.Config
unfolding new_event_fetcher
fetcher_config config =
    new_event_fetcher
      (record { ttl = config.fetch_ttl; fetch_timeout = config.fetch_timeout; fetch_limit = 0 })

unfoldable pub graph_config : Config → GraphRankEngineConfig
graph_config config = record {
  uri = config.neo4j_uri;
  username = config.neo4j_username;
  password = config.neo4j_password;
  database = config.neo4j_database;
  cache_ttl = config.rank_cache_ttl;
  query_timeout = config.neo4j_timeout;
}

unfoldable pub plugin_config : Config → PolicyConfig
plugin_config config = record {
  command = config.request_policy_plugin;
  timeout = config.request_policy_timeout;
  fail_open = config.request_policy_fail_open;
}

-- What `NewPluginEngine` makes of it: the configuration of the engine that judges the requests.
unfoldable pub engine_config : Config → PolicyConfig
unfolding plugin_config new_plugin_engine
engine_config config = (new_plugin_engine (plugin_config config)).0

module _ (m : Arithmetic) (n : Neo4j m) where
  -- `none` is the end of the program by `log.Fatalf`.
  abbrev pub or_fatal :
      Result (GraphRankEngine m.Float64) × n.Database
      → Option (GraphRankEngine m.Float64 × n.Database)
  or_fatal (ok engine, d) = some (engine, d)
  or_fatal (err e, d) = none

  unfoldable pub start_engine :
      Config → Bool → Bool → n.Database → Option (GraphRankEngine m.Float64 × n.Database)
  unfolding graph_config new_graph_rank_engine
  start_engine config has_driver has_connection d =
      if str_eq config.neo4j_password ""
      then none
      else or_fatal (new_graph_rank_engine m n (graph_config config) has_driver has_connection d)
