-- ===== src/Examples/Judging.antt =====
-- A plugin that answers every request alike.
use cipolin.Base.{ℕ, ◌≡◌, [], ◌⊎◌, refl, Bool, true, false, some, none}
use cipolin.Base.Int.{pos}
use cipolin.Base.Texts.{String}
use cipolin.Nostr.{Filter}
use cipolin.Policy.Engine.{
  PolicyConfig, PluginEngine, RequestContext, Host, line, evaluate_request, new_plugin_engine,
}
use cipolin.Policy.Verdicts.{HasAnswered, evaluate_request-accepts}
use cipolin.Policy.Rejects.{IsRejection, IsUnencodable, evaluate_request-rejects}

abbrev pub host_of : String → Host
host_of action = record {
  State = ℕ;
  stat = λ path s. some (pos 5);
  start = λ script? command s. (true, s);
  write = λ payload s. (true, s);
  read = λ timeout s. (line " {} ", s);
  kill = λ s. s;
  fresh_id = λ n s. "req-1";
  parse_ip = λ ip. some true;
  encode = λ m. some "{}";
  decode = λ text. some (record { id = "req-1"; action = action; msg = "" });
}

abbrev config : Bool → PolicyConfig
config fail_open = record { command = "plugin --strict"; timeout = pos 0; fail_open = fail_open }

abbrev pub context : RequestContext
context = record { ip = "10.0.0.1"; authed = none; received_at = pos 9 }

abbrev pub any_event : Filter
any_event = record {
  ids = [];
  authors = [];
  kinds = [];
  tags = [];
  since = pos 0;
  until = pos 0;
  limit = 0;
}

abbrev pub idle : PluginEngine
idle = record { running = false; script_path = ""; script_mod_time = pos 0; seq = 0 }

idle_new :
    new_plugin_engine (config false) ≡ (record (config false) { timeout = pos 1_500_000_000 }, idle)
unfolding new_plugin_engine
idle_new = refl

evaluate_request-accepts_example : HasAnswered (host_of "accept") (config false) (λ a. a ≡ "accept")
unfolding evaluate_request
evaluate_request-accepts_example =
    evaluate_request-accepts (host_of "accept") (config false) context any_event "query" idle 0 refl
      refl refl

evaluate_request-rejects_example :
    HasAnswered (host_of "shadowReject") (config true) IsRejection
    ⊎ IsUnencodable (host_of "shadowReject") (config true) context any_event "query"
unfolding evaluate_request
evaluate_request-rejects_example =
    evaluate_request-rejects (host_of "shadowReject") (config true) context any_event "query" idle 0
      refl refl refl
