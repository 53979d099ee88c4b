-- ===== src/Policy/Engine.antt =====
-- internal/requestpolicy/plugin.go: the engine that keeps the plugin's process.
use Prim.Native.String.{◌++◌}
use cipolin.Base.{
  ℕ, zero, suc, Bool, true, false, not, ◌&&◌, ◌||◌, Option, none, some, if◌then◌else◌,
}
use cipolin.Base.Int.{ℤ, pos, ltb_ℤ}
use cipolin.Base.Texts.{String, str_eq}
use cipolin.Nostr.{Filter}
use cipolin.Policy.Texts.{trim_space, has_blank}

pub record PolicyConfig : Type 0 where
  pub command : String
  pub timeout : ℤ
  pub fail_open : Bool

-- The process is there with its two pipes, or none of them is.
pub record PluginEngine : Type 0 where
  pub running : Bool
  pub script_path : String
  pub script_mod_time : ℤ
  pub seq : ℕ

pub record InputMessage : Type 0 where
  pub type : String
  pub id : String
  pub filter : Filter
  pub received_at : ℤ
  pub source_type : String
  pub source_info : String
  pub authed : Option String
  pub request_type : String

pub record OutputMessage : Type 0 where
  pub id : String
  pub action : String
  pub msg : String

-- What the engine reads of the context of a request, and the clock.
pub record RequestContext : Type 0 where
  pub ip : String
  pub authed : Option String
  pub received_at : ℤ

-- What waiting for a line comes to.
pub data Reading : Type 0 where
  line : String → Reading
  broken timed_out : Reading

-- The operating system, `encoding/json` on the messages, and the identifier that is written from
-- the clock and the sequence number. `parse_ip` tells whether an address is one of IPv4.
pub record Host : Type 1 where
  pub State : Type 0
  pub stat : String → State → Option ℤ
  pub start : Bool → String → State → Bool × State
  pub write : String → State → Bool × State
  pub read : ℤ → State → Reading × State
  pub kill : State → State
  pub fresh_id : ℕ → State → String
  pub parse_ip : String → Option Bool
  pub encode : InputMessage → Option String
  pub decode : String → Option OutputMessage

unfoldable pub looks_like_script_path : String → Bool
unfolding has_blank
looks_like_script_path command = not (str_eq command "") && not (has_blank command)

-- The configuration of a new engine, and the engine.
unfoldable pub new_plugin_engine : PolicyConfig → PolicyConfig × PluginEngine
unfolding looks_like_script_path
new_plugin_engine cfg = (
  if ltb_ℤ (pos 0) cfg.timeout then cfg else record cfg { timeout = pos 1_500_000_000 },
  record {
    running = false;
    script_path = if looks_like_script_path cfg.command then cfg.command else "";
    script_mod_time = pos 0;
    seq = 0;
  },
)

module _ (host : Host) (cfg : PolicyConfig) where
  open host use {State, stat, start, write, read, kill, fresh_id, parse_ip, encode, decode}

  unfoldable pub stop : PluginEngine → State → PluginEngine × State
  stop p s = if p.running then (record p { running = false }, kill s) else (p, s)

  abbrev reloaded : PluginEngine → State → Option ℤ → Bool × PluginEngine × State
  reloaded p s none = (false, p, s)
  reloaded p s (some mod_time) =
      let (p', s') = stop p s in
      if ltb_ℤ p.script_mod_time mod_time
      then (true, record p' { script_mod_time = mod_time }, s')
      else (true, p, s)

  -- `false` is an error.
  unfoldable pub reload_if_changed : PluginEngine → State → Bool × PluginEngine × State
  unfolding stop
  reload_if_changed p s =
      if str_eq p.script_path "" || not p.running
      then (true, p, s)
      else reloaded p s (stat p.script_path s)

  abbrev launched : PluginEngine → Bool × State → Bool × PluginEngine × State
  launched p (true, s) = (true, record p { running = true }, s)
  launched p (false, s) = (false, p, s)

  abbrev started_script : PluginEngine → State → Option ℤ → Bool × PluginEngine × State
  started_script p s none = (false, p, s)
  started_script p s (some mod_time) =
      launched (record p { script_mod_time = mod_time }) (start true cfg.command s)

  unfoldable pub ensure_started : PluginEngine → State → Bool × PluginEngine × State
  unfolding looks_like_script_path
  ensure_started p s =
      if p.running
      then (true, p, s)
      else if looks_like_script_path cfg.command
      then started_script p s (stat cfg.command s)
      else launched p (start false cfg.command s)

  abbrev pub decoded : String → Option OutputMessage
  decoded text = if str_eq text "" then none else decode text

  -- A timeout stops the process.
  abbrev pub received : PluginEngine → Reading × State → Option OutputMessage × PluginEngine × State
  received p (line l, s) = (decoded (trim_space l), p, s)
  received p (broken, s) = (none, p, s)
  received p (timed_out, s) = let (p', s') = stop p s in (none, p', s')

  abbrev pub resume :
      (PluginEngine → State → Option OutputMessage × PluginEngine × State)
      → Bool × PluginEngine × State
      → Option OutputMessage × PluginEngine × State
  resume again (true, p, s) = again p s
  resume again (false, p, s) = (none, p, s)

  abbrev pub written :
      PluginEngine
      → (PluginEngine → State → Option OutputMessage × PluginEngine × State)
      → Bool × State
      → Option OutputMessage × PluginEngine × State
  written p again (true, s) = received p (read cfg.timeout s)
  written p again (false, s) = let (p', s') = stop p s in resume again (ensure_started p' s')

  -- The loop over the attempts; `none` is an error.
  unfoldable pub request :
      ℕ → String → PluginEngine → State → Option OutputMessage × PluginEngine × State
  unfolding stop ensure_started trim_space
  request zero payload p s = (none, p, s)
  request (suc n) payload p s = written p (λ p' s'. request n payload p' s') (write payload s)

  -- Whether the request is rejected, and the message.
  unfoldable pub on_plugin_failure : Bool × String
  on_plugin_failure =
      if cfg.fail_open then (false, "") else (true, "blocked: request policy plugin error")

  unfoldable pub by_action : String → String → Bool × String
  unfolding on_plugin_failure
  by_action action msg =
      if str_eq action "accept"
      then (false, "")
      else if str_eq action "reject"
      then (true, if str_eq msg "" then "blocked: rejected by request policy plugin" else msg)
      else if str_eq action "shadowReject"
      then (true, "")
      else on_plugin_failure

  abbrev pub respond :
      String → Option OutputMessage × PluginEngine × State → (Bool × String) × PluginEngine × State
  respond id (none, p, s) = let (p', s') = stop p s in (on_plugin_failure, p', s')
  respond id (some r, p, s) =
      (if str_eq r.id id then by_action r.action r.msg else on_plugin_failure, p, s)

  unfoldable pub source_from_context : RequestContext → String × String
  source_from_context ctx = if str_eq ctx.ip "" then ("Unknown", "") else elim (parse_ip ctx.ip) [
    | none ↦ ("Unknown", ctx.ip)
    | some is_v4 ↦ if is_v4 then ("IP4", ctx.ip) else ("IP6", ctx.ip)
  ]

  unfoldable pub build_input_message : RequestContext → Filter → String → String → InputMessage
  unfolding source_from_context
  build_input_message ctx f request_type id = record {
    type = "new";
    id = id;
    filter = f;
    received_at = ctx.received_at;
    source_type = (source_from_context ctx).0;
    source_info = (source_from_context ctx).1;
    authed = ctx.authed;
    request_type = request_type;
  }

  abbrev pub send :
      String → Option String → PluginEngine → State → (Bool × String) × PluginEngine × State
  send id none p s = ((true, "blocked: request policy plugin error"), p, s)
  send id (some payload) p s = respond id (request 2 (payload ++ "\n") p s)

  module _ (ctx : RequestContext) (f : Filter) (request_type : String) where
    abbrev pub numbered : PluginEngine → State → (Bool × String) × PluginEngine × State
    numbered p s =
        let id = fresh_id (suc p.seq) s in
        send id (encode (build_input_message ctx f request_type id)) (record p { seq = suc p.seq })
          s

    abbrev pub when_started : Bool × PluginEngine × State → (Bool × String) × PluginEngine × State
    when_started (true, p, s) = numbered p s
    when_started (false, p, s) = (on_plugin_failure, p, s)

    abbrev pub when_reloaded : Bool × PluginEngine × State → (Bool × String) × PluginEngine × State
    when_reloaded (true, p, s) = when_started (ensure_started p s)
    when_reloaded (false, p, s) = (on_plugin_failure, p, s)

    unfoldable pub evaluate_request : PluginEngine → State → (Bool × String) × PluginEngine × State
    unfolding reload_if_changed ensure_started request by_action build_input_message
    evaluate_request p s =
        if str_eq cfg.command "" then ((false, ""), p, s) else when_reloaded (reload_if_changed p s)
