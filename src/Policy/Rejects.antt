-- ===== src/Policy/Rejects.antt =====
-- An engine that fails open.
use Prim.Native.String.{◌++◌}
use cipolin.Base.{
  ℕ, suc, Bool, true, false, Option, none, some, ◌≡◌, ◌⊎◌, inl, inr, refl, sym, ◌∙◌, false≢true,
  arith, Bool-cases,
}
use cipolin.Base.Texts.{String, str_eq, eq_iff}
use cipolin.Nostr.{Filter}
use cipolin.Policy.Engine.{
  PolicyConfig, PluginEngine, OutputMessage, RequestContext, Host, request, on_plugin_failure,
  by_action, respond, send, when_started, when_reloaded, evaluate_request, ensure_started,
  reload_if_changed, build_input_message,
}
use cipolin.Policy.Verdicts.{HasSaid, HasAnswered, request-HasSaid}

abbrev pub IsRejection : String → Type 0
IsRejection action = (action ≡ "reject") ⊎ (action ≡ "shadowReject")

-- The message of a request cannot be encoded.
pub record IsUnencodable (host : Host) (cfg : PolicyConfig) (ctx : RequestContext) (f : Filter)
    (request_type : String) : Type 0 where
  pub id : String
  pub fails : host.encode (build_input_message host cfg ctx f request_type id) ≡ none

module _ (host : Host) (cfg : PolicyConfig) (lax : cfg.fail_open ≡ true) where
  open host use {State, encode, fresh_id}

  failure-accepts : (on_plugin_failure host cfg).0 ≡ false
  unfolding on_plugin_failure
  failure-accepts = rw lax refl

  not_failure : {A : Type 0} → (on_plugin_failure host cfg).0 ≡ true → A
  not_failure h = absurd (false≢true (sym failure-accepts ∙ h))

  by_action-rejects :
      (action msg : String)
      → (by_action host cfg action msg).0 ≡ true
      → (action ≡ "reject") ⊎ (action ≡ "shadowReject")
  unfolding by_action on_plugin_failure
  by_action-rejects action msg h = elim (Bool-cases (str_eq action "accept")) [
    | inl e ↦ ground (arith, e, h)
    | inr e ↦ elim (Bool-cases (str_eq action "reject")) [
      | inl e' ↦ inl ((eq_iff action "reject").0 e')
      | inr e' ↦ elim (Bool-cases (str_eq action "shadowReject")) [
        | inl e'' ↦ inr ((eq_iff action "shadowReject").0 e'')
        | inr e'' ↦ ground (arith, e, e', e'', lax, h)
      ]
    ]
  ]

  respond-rejects :
      (n : ℕ) (at : State) (x : Option OutputMessage × PluginEngine × State)
      → ((r : OutputMessage) → x.0 ≡ some r → HasSaid host cfg r)
      → (respond host cfg (fresh_id n at) x).0.0 ≡ true
      → HasAnswered host cfg IsRejection
  respond-rejects n at (none, p, s) said h = not_failure h
  respond-rejects n at (some r, p, s) said h = elim (Bool-cases (str_eq r.id (fresh_id n at))) [
    | inl e ↦ record {
      answer = r;
      said = said r refl;
      number = n;
      at = at;
      own_id = (eq_iff r.id (fresh_id n at)).0 e;
      acts = by_action-rejects r.action r.msg (rw e at h);
    }
    | inr e ↦ not_failure (rw e at h)
  ]

  module _ (ctx : RequestContext) (f : Filter) (request_type : String) where
    abbrev Rejected : Type 0
    Rejected = HasAnswered host cfg IsRejection ⊎ IsUnencodable host cfg ctx f request_type

    send-rejects :
        (n : ℕ) (at : State) (o : Option String) (p : PluginEngine) (s : State)
        → encode (build_input_message host cfg ctx f request_type (fresh_id n at)) ≡ o
        → (send host cfg (fresh_id n at) o p s).0.0 ≡ true
        → Rejected
    send-rejects n at none p s e h = inr (record { id = fresh_id n at; fails = e })
    send-rejects n at (some payload) p s e h = inl (
        respond-rejects n at (request host cfg 2 (payload ++ "\n") p s)
          (λ r e'. request-HasSaid host cfg r 2 (payload ++ "\n") p s e') h)

    when_started-rejects :
        (x : Bool × PluginEngine × State)
        → (when_started host cfg ctx f request_type x).0.0 ≡ true
        → Rejected
    when_started-rejects (true, p, s) h =
        send-rejects (suc p.seq) s
          (encode (build_input_message host cfg ctx f request_type (fresh_id (suc p.seq) s)))
          (record p { seq = suc p.seq }) s refl h
    when_started-rejects (false, p, s) h = not_failure h

    when_reloaded-rejects :
        (x : Bool × PluginEngine × State)
        → (when_reloaded host cfg ctx f request_type x).0.0 ≡ true
        → Rejected
    when_reloaded-rejects (true, p, s) h = when_started-rejects (ensure_started host cfg p s) h
    when_reloaded-rejects (false, p, s) h = not_failure h

-- An engine with a command that fails open rejects a request only if the plugin has written, in
-- time, a message with the identifier of a request that rejects it, openly or not, or if the
-- message of the request cannot be encoded.
pub evaluate_request-rejects :
    (host : Host) (cfg : PolicyConfig) (ctx : RequestContext) (f : Filter) (request_type : String)
    (p : PluginEngine) (s : host.State)
    → str_eq cfg.command "" ≡ false
    → cfg.fail_open ≡ true
    → (evaluate_request host cfg ctx f request_type p s).0.0 ≡ true
    → HasAnswered host cfg IsRejection ⊎ IsUnencodable host cfg ctx f request_type
unfolding evaluate_request
evaluate_request-rejects host cfg ctx f request_type p s commanded lax h =
    when_reloaded-rejects host cfg lax ctx f request_type (reload_if_changed host cfg p s)
      (rw commanded at h)
