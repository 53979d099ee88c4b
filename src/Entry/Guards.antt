-- ===== src/Entry/Guards.antt =====
-- cmd/cipolin/main.go: the policies that a request has to pass.
use cipolin.Base.{
  ◌≡◌, refl, sym, ap, ◌∙◌, Bool, true, false, false≢true, List, [], ◌∷◌, Option, none, some,
  if◌then◌else◌,
}
use cipolin.Base.Int.{pos, ltb_ℤ}
use cipolin.Base.Texts.{String, str_eq}
use cipolin.Nostr.{Filter}
use cipolin.Policy.Engine.{PluginEngine, RequestContext, Host, evaluate_request}
use cipolin.Policy.Verdicts.{HasAnswered, evaluate_request-accepts}
use cipolin.Entry.Settings.{Config}
use cipolin.Entry.Start.{plugin_config, engine_config}

module _ (host : Host) where
  -- What the policies share: the engine of the plugin and the host that it runs on.
  abbrev pub Shared : Type 0
  Shared = PluginEngine × host.State

  -- A policy says whether it rejects a filter, and with which message.
  abbrev pub Policy : Type 0
  Policy = Filter → Shared → (Bool × String) × Shared

  module _ (config : Config) (ctx : RequestContext) where
    unfoldable pub plugin_policy : String → Policy
    unfolding evaluate_request engine_config
    plugin_policy request_type f (engine, s) =
        let (verdict, engine', s') =
          evaluate_request host (engine_config config) ctx f request_type engine s in
        (verdict, (engine', s'))

    abbrev pub when : Bool → Policy → List Policy → List Policy
    when true policy policies = policy ∷ policies
    when false policy policies = policies

    abbrev has_plugin : Config → Bool
    has_plugin c = if str_eq c.request_policy_plugin "" then false else true

    -- The list for `REQ` or for `COUNT`.
    unfoldable pub policies : Policy → String → List Policy
    unfolding plugin_policy
    policies must_auth request_type =
        when config.enable_nip42_auth must_auth
          (when (has_plugin config) (plugin_policy request_type) [])

    -- The handler of the relay that is set if there is a policy.
    unfoldable pub on_request : (List Policy → Policy) → Policy → String → Option Policy
    unfolding policies
    on_request seq_request must_auth request_type = elim (policies must_auth request_type) [
      | [] ↦ none
      | p ∷ ps ↦ some (seq_request (p ∷ ps))
    ]

-- The timeout is all that a new engine changes.
engine_config-command :
    (config : Config) → (engine_config config).command ≡ config.request_policy_plugin
unfolding engine_config
engine_config-command config = by_timeout (ltb_ℤ (pos 0) config.request_policy_timeout)
  where
    by_timeout :
        (test : Bool)
        → (if test
            then plugin_config config
            else record (plugin_config config) { timeout = pos 1_500_000_000 }).command
          ≡ config.request_policy_plugin
    by_timeout true = refl
    by_timeout false = refl

engine_config-fail_open :
    (config : Config) → (engine_config config).fail_open ≡ config.request_policy_fail_open
unfolding engine_config
engine_config-fail_open config = by_timeout (ltb_ℤ (pos 0) config.request_policy_timeout)
  where
    by_timeout :
        (test : Bool)
        → (if test
            then plugin_config config
            else record (plugin_config config) { timeout = pos 1_500_000_000 }).fail_open
          ≡ config.request_policy_fail_open
    by_timeout true = refl
    by_timeout false = refl

-- What the library's sequence of policies and its policy of authentication promise.
pub record IsSequential (host : Host) (seq_request : List (Policy host) → Policy host)
    : Type 0 where
  pub of_none : (f : Filter) (s : Shared host) → seq_request [] f s ≡ ((false, ""), s)
  pub of_more :
      (p : Policy host) (ps : List (Policy host)) (f : Filter) (s : Shared host)
      → seq_request (p ∷ ps) f s ≡ (if (p f s).0.0 then p f s else seq_request ps f (p f s).1)

abbrev pub IsAuthed : Option String → Type 0
IsAuthed none = ⊥
IsAuthed (some pubkey) = Unit {0}

pub record NeedsAuth (host : Host) (ctx : RequestContext) (must_auth : Policy host) : Type 0 where
  pub authed : (f : Filter) (s : Shared host) → (must_auth f s).0.0 ≡ false → IsAuthed ctx.authed

module _ (host : Host) (seq_request : List (Policy host) → Policy host)
    (sequential : IsSequential host seq_request) where
  -- The first of two policies or more has accepted, and the rest in the state that it left.
  first-accepts :
      (p : Policy host) (ps : List (Policy host)) (f : Filter) (s : Shared host)
      → (seq_request (p ∷ ps) f s).0.0 ≡ false
      → ((p f s).0.0 ≡ false) × ((seq_request ps f (p f s).1).0.0 ≡ false)
  first-accepts p ps f s h = by_verdict (p f s) refl (
      ap (λ (out : (Bool × String) × Shared host). out.0.0) (sym (sequential.of_more p ps f s)) ∙ h)
    where
      by_verdict :
          (out : (Bool × String) × Shared host)
          → p f s ≡ out
          → (if out.0.0 then out else seq_request ps f out.1).0.0 ≡ false
          → (out.0.0 ≡ false) × ((seq_request ps f out.1).0.0 ≡ false)
      by_verdict ((true, msg), s') e k = absurd (false≢true (sym k))
      by_verdict ((false, msg), s') e k = (refl, k)

  module _ (config : Config) (ctx : RequestContext) (must_auth : Policy host)
      (needs_auth : NeedsAuth host ctx must_auth) where
    -- With authentication enabled and a plugin that does not fail open, a REQ or a COUNT that the
    -- relay's handler lets through comes from an authenticated client, and the plugin has answered,
    -- within the timeout of a new engine, with the identifier of a request and the action accept.
    pub on_request-guarded :
        (request_type : String) (f : Filter) (s : Shared host) (handler : Policy host)
        → config.enable_nip42_auth ≡ true
        → str_eq config.request_policy_plugin "" ≡ false
        → config.request_policy_fail_open ≡ false
        → on_request host config ctx seq_request must_auth request_type ≡ some handler
        → (handler f s).0.0 ≡ false
        → IsAuthed ctx.authed × HasAnswered host (engine_config config) (λ a. a ≡ "accept")
    unfolding on_request policies plugin_policy
    on_request-guarded request_type f s handler auth plugin shut set h =
        let plug = plugin_policy host config ctx request_type in
        let listed : policies host config ctx must_auth request_type ≡ must_auth ∷ plug ∷ [] =
          rw (auth, plugin) refl in
        let made : on_request host config ctx seq_request must_auth request_type
            ≡ some (seq_request (must_auth ∷ plug ∷ [])) =
          rw (listed, on_request) refl in
        let same : some (seq_request (must_auth ∷ plug ∷ [])) ≡ some handler = sym made ∙ set in
        let one : seq_request (must_auth ∷ plug ∷ []) ≡ handler = cc in
        let (authed, later) =
          first-accepts must_auth (plug ∷ []) f s (ap (λ (p : Policy host). (p f s).0.0) one ∙ h) in
        let (answered, _) = first-accepts plug [] f (must_auth f s).1 later in
        (
          needs_auth.authed f s authed,
          evaluate_request-accepts host (engine_config config) ctx f request_type
              (must_auth f s).1.0 (must_auth f s).1.1
              (ap (λ command. str_eq command "") (engine_config-command config) ∙ plugin)
              (engine_config-fail_open config ∙ shut) answered,
        )
