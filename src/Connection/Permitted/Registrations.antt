-- ===== src/Connection/Permitted/Registrations.antt =====
-- QoreNatsConnection::setupCallbacks (src/QoreNatsConnection.cpp) by the rules of
-- Connection.Permitted.
use module_nats.Common.{String, refl, Option, none, some, List, [], ◌∷◌, if◌then◌else◌}
use module_nats.Runtime.{done}
use module_nats.Value.{Value, Fields}
use module_nats.Connection.Setup.{Callback, Client, Setup, callback, skip, apply, on_closed}
use module_nats.Connection.Options.{connection_error}
use module_nats.Connection.Construct.{
  extract_callback, hold, register, register_closed, new_context, registrations, any_callback,
  callback_keys, setup_callbacks,
}
use module_nats.Connection.Permitted.{Sound, Ends, Any, Does, skip-Does, run-Does}
use module_nats.Connection.Permitted.Settings.{quiet-Does}
use module_nats.Connection.Permitted.Options.{branch-Does}

module _ (v : Value) (c : Client) where
  new_context-Does : Does v Any new_context Any
  unfolding new_context
  new_context-Does s i p = (
    record {
      checked = i.checked;
      given = i.given;
      same_timeout = i.same_timeout;
      same_order = i.same_order;
      same_keep = i.same_keep;
      no_dialer = i.no_dialer;
    },
    λ e. tt,
  )

  hold_case-Does :
      (k : Callback) (o : Option (List Callback)) (s : Setup)
      → Sound v s
      → Ends
          (Sound v)
          Any
          (elim o [ none ↦ (done, s) | some ks ↦ (done, record s { context = some (k ∷ ks) }) ])
  hold_case-Does k none s i = (i, λ e. tt)
  hold_case-Does k (some ks) s i = (
    record {
      checked = i.checked;
      given = i.given;
      same_timeout = i.same_timeout;
      same_order = i.same_order;
      same_keep = i.same_keep;
      no_dialer = i.no_dialer;
    },
    λ e. tt,
  )

  hold-Does : (k : Callback) → Does v Any (hold k) Any
  unfolding hold
  hold-Does k s i p = hold_case-Does k s.context s i

  module _ (h : Fields) where
    register-Does :
        (key : String) (k : Callback) (fmt : String) → Does v Any (register c h key k fmt) Any
    unfolding register
    register-Does key k fmt =
        branch-Does v c Any Any (extract_callback h key) _ skip
          (λ e.
            run-Does v (hold k ∷ apply c connection_error fmt [] (callback k) ∷ [])
              (hold-Does k, (quiet-Does v c connection_error fmt [] (callback k) refl, tt)))
          λ e. skip-Does v Any

    register_closed-Does : Does v Any (register_closed c h) Any
    unfolding register_closed
    register_closed-Does =
        run-Does v
          ((if extract_callback h "on_closed" then hold on_closed else skip)
            ∷ apply c connection_error "failed to set closed callback" [] (callback on_closed)
            ∷ [])
          (
            branch-Does v c Any Any (extract_callback h "on_closed") (hold on_closed) skip
                (λ e. hold-Does on_closed) (λ e. skip-Does v Any),
            (
              quiet-Does v c connection_error "failed to set closed callback" []
                  (callback on_closed) refl,
              tt,
            ),
          )

    pub setup_callbacks-Does : Does v Any (setup_callbacks c h) Any
    unfolding setup_callbacks registrations
    setup_callbacks-Does =
        branch-Does v c Any Any (any_callback h callback_keys) _ skip
          (λ e. run-Does v (registrations c h) (
            new_context-Does,
            (
              register-Does _ _ _,
              (
                register-Does _ _ _,
                (
                  register_closed-Does,
                  (register-Does _ _ _, (register-Does _ _ _, (register-Does _ _ _, tt))),
                ),
              ),
            ),
          ))
          λ e. skip-Does v Any
