-- ===== src/Policy/Verdicts.antt =====
-- A verdict is the plugin's own: what the engine needs before it accepts or rejects.
use Prim.Native.String.{◌++◌}
use cipolin.Base.{
  ℕ, zero, suc, Bool, true, false, Option, none, some, ◌≡◌, inl, inr, refl, sym, ◌∙◌, ap,
  false≢true, arith, Bool-cases,
}
use cipolin.Base.Texts.{String, str_eq, eq_iff}
use cipolin.Nostr.{Filter}
use cipolin.Policy.Texts.{trim_space}
use cipolin.Policy.Engine.{
  PolicyConfig, PluginEngine, OutputMessage, RequestContext, Reading, line, broken, timed_out, Host,
  stop, decoded, received, resume, written, request, on_plugin_failure, by_action, respond, send,
  when_started, when_reloaded, evaluate_request, ensure_started, reload_if_changed,
  build_input_message,
}

-- The plugin has written a line, read in time, that decodes to this message.
pub record HasSaid (host : Host) (cfg : PolicyConfig) (r : OutputMessage) : Type 0 where
  pub state : host.State
  pub text : String
  pub came : (host.read cfg.timeout state).0 ≡ line text
  pub means : host.decode (trim_space text) ≡ some r

module _ (host : Host) (cfg : PolicyConfig) where
  open host use {State, read, decode, encode, write}

  decoded-some :
      (text : String) (r : OutputMessage) → decoded host cfg text ≡ some r → decode text ≡ some r
  decoded-some text r h = elim (Bool-cases (str_eq text "")) [
    | inl e ↦ ground (arith, e)
    | inr e ↦ ground (arith, e)
  ]

  module _ (r : OutputMessage) where
    received-HasSaid :
        (p : PluginEngine) (s : State) (x : Reading × State)
        → read cfg.timeout s ≡ x
        → (received host cfg p x).0 ≡ some r
        → HasSaid host cfg r
    received-HasSaid p s (line l, s') e h = record {
      state = s;
      text = l;
      came = ap (λ x. x.0) e;
      means = decoded-some (trim_space l) r h;
    }
    received-HasSaid p s (broken, s') e h = ground arith
    received-HasSaid p s (timed_out, s') e h = ground arith

    resume-HasSaid :
        (again : PluginEngine → State → Option OutputMessage × PluginEngine × State)
        → ((p : PluginEngine) (s : State) → (again p s).0 ≡ some r → HasSaid host cfg r)
        → (x : Bool × PluginEngine × State) → (resume host cfg again x).0 ≡ some r
        → HasSaid host cfg r
    resume-HasSaid again k (true, p, s) h = k p s h
    resume-HasSaid again k (false, p, s) h = ground arith

    written-HasSaid :
        (p : PluginEngine)
        (again : PluginEngine → State → Option OutputMessage × PluginEngine × State)
        → ((p : PluginEngine) (s : State) → (again p s).0 ≡ some r → HasSaid host cfg r)
        → (x : Bool × State) → (written host cfg p again x).0 ≡ some r
        → HasSaid host cfg r
    written-HasSaid p again k (true, s) h = received-HasSaid p s (read cfg.timeout s) refl h
    written-HasSaid p again k (false, s) h =
        resume-HasSaid again k (ensure_started host cfg (stop host cfg p s).0 (stop host cfg p s).1)
          h

    pub request-HasSaid :
        (n : ℕ) (payload : String) (p : PluginEngine) (s : State)
        → (request host cfg n payload p s).0 ≡ some r
        → HasSaid host cfg r
    unfolding request
    request-HasSaid zero payload p s h = ground arith
    request-HasSaid (suc n) payload p s h =
        written-HasSaid p (λ p' s'. request host cfg n payload p' s')
          (λ p' s' h'. request-HasSaid n payload p' s' h') (write payload s) h

  by_action-accepts :
      (action msg : String)
      → cfg.fail_open ≡ false
      → (by_action host cfg action msg).0 ≡ false
      → action ≡ "accept"
  unfolding by_action on_plugin_failure
  by_action-accepts action msg shut h = elim (Bool-cases (str_eq action "accept")) [
    | inl e ↦ (eq_iff action "accept").0 e
    | inr e ↦ ground (arith, e, shut, h)
  ]

-- The plugin has answered a request by its own identifier with such an action.
pub record HasAnswered (host : Host) (cfg : PolicyConfig) (Action : String → Type 0) : Type 0 where
  pub answer : OutputMessage
  pub said : HasSaid host cfg answer
  pub number : ℕ
  pub at : host.State
  pub own_id : answer.id ≡ host.fresh_id number at
  pub acts : Action answer.action

module _ (host : Host) (cfg : PolicyConfig) (shut : cfg.fail_open ≡ false) where
  open host use {State, encode, fresh_id}

  abbrev Accepted : Type 0
  Accepted = HasAnswered host cfg (λ a. a ≡ "accept")

  failure-rejects : (on_plugin_failure host cfg).0 ≡ true
  unfolding on_plugin_failure
  failure-rejects = rw shut refl

  not_failure : {A : Type 0} → (on_plugin_failure host cfg).0 ≡ false → A
  not_failure h = absurd (false≢true (sym h ∙ failure-rejects))

  respond-accepts :
      (n : ℕ) (at : State) (x : Option OutputMessage × PluginEngine × State)
      → ((r : OutputMessage) → x.0 ≡ some r → HasSaid host cfg r)
      → (respond host cfg (fresh_id n at) x).0.0 ≡ false
      → Accepted
  respond-accepts n at (none, p, s) said h = not_failure h
  respond-accepts n at (some r, p, s) said h = elim (Bool-cases (str_eq r.id (fresh_id n at))) [
    | inl e ↦ record {
      answer = r;
      said = said r refl;
      number = n;
      at = at;
      own_id = (eq_iff r.id (fresh_id n at)).0 e;
      acts = by_action-accepts host cfg r.action r.msg shut (rw e at h);
    }
    | inr e ↦ not_failure (rw e at h)
  ]

  send-accepts :
      (n : ℕ) (at : State) (o : Option String) (p : PluginEngine) (s : State)
      → (send host cfg (fresh_id n at) o p s).0.0 ≡ false
      → Accepted
  send-accepts n at none p s h = absurd (false≢true (sym h))
  send-accepts n at (some payload) p s h =
      respond-accepts n at (request host cfg 2 (payload ++ "\n") p s)
        (λ r e. request-HasSaid host cfg r 2 (payload ++ "\n") p s e) h

  module _ (ctx : RequestContext) (f : Filter) (request_type : String) where
    when_started-accepts :
        (x : Bool × PluginEngine × State)
        → (when_started host cfg ctx f request_type x).0.0 ≡ false
        → Accepted
    when_started-accepts (true, p, s) h =
        send-accepts (suc p.seq) s
          (encode (build_input_message host cfg ctx f request_type (fresh_id (suc p.seq) s)))
          (record p { seq = suc p.seq }) s h
    when_started-accepts (false, p, s) h = not_failure h

    when_reloaded-accepts :
        (x : Bool × PluginEngine × State)
        → (when_reloaded host cfg ctx f request_type x).0.0 ≡ false
        → Accepted
    when_reloaded-accepts (true, p, s) h = when_started-accepts (ensure_started host cfg p s) h
    when_reloaded-accepts (false, p, s) h = not_failure h

-- An engine with a command that does not fail open accepts a request only if the plugin has
-- written, in time, a message with the identifier of a request and the action accept: no error on
-- the way, of the process, the pipes or the encoding, lets a request through.
pub evaluate_request-accepts :
    (host : Host) (cfg : PolicyConfig) (ctx : RequestContext) (f : Filter) (request_type : String)
    (p : PluginEngine) (s : host.State)
    → str_eq cfg.command "" ≡ false
    → cfg.fail_open ≡ false
    → (evaluate_request host cfg ctx f request_type p s).0.0 ≡ false
    → HasAnswered host cfg (λ a. a ≡ "accept")
unfolding evaluate_request
evaluate_request-accepts host cfg ctx f request_type p s commanded shut h =
    when_reloaded-accepts host cfg shut ctx f request_type (reload_if_changed host cfg p s)
      (rw commanded at h)
