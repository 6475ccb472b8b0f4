-- ===== src/Connection/Permitted/Options.antt =====
-- The servers, the TLS options and the whole of QoreNatsConnection::configureOptions
-- (src/QoreNatsConnection.cpp) by the rules of Connection.Permitted.
use module_nats.Common.{
  pos, String, ◌≡◌, refl, sym, ◌∙◌, Bool, true, false, ◌⊎◌, inl, inr, List, [], ◌∷◌, All,
  if◌then◌else◌,
}
use module_nats.Common.Int.{int32}
use module_nats.Value.{Value, Fields, get_key_value, or_int, texts}
use module_nats.Connection.Setup.{
  Client, Setup, Action, int_setting, flag_setting, reconnect_jitter, servers, url,
  user_credentials, ca_certificates, certificates_chain, skip, run, apply, check_url, check_file,
}
use module_nats.Connection.Options.{
  connection_error, auth_error, tls_error, check_servers, set_servers, servers_option, is_int,
  jitter_option, certificate_option, verify_option, handshake_option, tls_options, tls_option,
  url_option, options_before, options_after, configure_options,
}
use module_nats.Connection.Permitted.{
  UrlPermitted, FilePermitted, Sound, Ends, Any, Does, next-Does, skip-Does, run-Does, apply-Does,
  check_url-Does, check_file-Does,
}
use module_nats.Connection.Permitted.Settings.{
  quiet-Does, on_string-Does, on_true-Does, on_hash-Does, on_list-Does, string_option-Does,
  int_option-Does, flag_option-Does, file_option-Does, user_option-Does, nkey_option-Does,
  timeout_option-Does, randomize_option-Does, order_option-Does,
}
use text.Mathlib.TextEquality.{eq_iff}
use text.Mathlib.Text.{◌==◌}

module _ (v : Value) (c : Client) where
  pub branch-Does :
      (P Q : Setup → Type 0) (b : Bool) (a k : Action)
      → (b ≡ true → Does v P a Q)
      → (b ≡ false → Does v P k Q)
      → Does v P (if b then a else k) Q
  branch-Does P Q true a k f g = f refl
  branch-Does P Q false a k f g = g refl

  -- Two rules for the same action.
  both-Does :
      (P Q R T : Setup → Type 0) (a : Action)
      → Does v P a Q
      → Does v R a T
      → Does v (λ s. P s × R s) a (λ s. Q s × T s)
  both-Does P Q R T a f g s i (p, r) = ((f s i p).0, λ e. ((f s i p).1 e, (g s i r).1 e))

  abbrev Asked : String → Setup → Type 0
  Asked w s = UrlPermitted s.trace w

  abbrev Sites : List String → Setup → Type 0
  Sites us s = All (λ u. (u ≡ "") ⊎ UrlPermitted s.trace u) us

  check_url-keeps : (w u : String) → Does v (Asked w) (check_url c u) (Asked w)
  unfolding check_url
  check_url-keeps w u s i p = ((check_url-Does v c u s i tt).0, λ e. inr p)

  check_servers-keeps :
      (w : String) (us : List String) → Does v (Asked w) (check_servers c us) (Asked w)
  unfolding check_servers
  check_servers-keeps w [] = skip-Does v (Asked w)
  check_servers-keeps w (u ∷ us) =
      let ih = check_servers-keeps w us in
      branch-Does (Asked w) (Asked w) (u == "") (check_servers c us) _ (λ e. ih)
        λ e.
          next-Does v (Asked w) (Asked w) (Asked w) (check_url c u) (check_servers c us)
            (check_url-keeps w u) ih

  check_servers-Does : (us : List String) → Does v Any (check_servers c us) (Sites us)
  unfolding check_servers
  check_servers-Does [] = skip-Does v Any
  check_servers-Does (u ∷ us) =
      let ih = check_servers-Does us in
      branch-Does Any (Sites (u ∷ us)) (u == "") (check_servers c us) _
        (λ e s i p. ((ih s i p).0, λ d. (inl ((eq_iff u "").0 e), (ih s i p).1 d)))
        λ e.
          next-Does v Any (Asked u) (Sites (u ∷ us)) (check_url c u) (check_servers c us)
            (check_url-Does v c u)
            (λ s i p.
              ((ih s i tt).0, λ d. (inr ((check_servers-keeps u us s i p).1 d), (ih s i tt).1 d)))

  set_servers-Does : (us : List String) → Does v Any (set_servers c us) Any
  unfolding set_servers run
  set_servers-Does [] = skip-Does v Any
  set_servers-Does (u ∷ us) =
      next-Does v Any (Sites (u ∷ us)) Any (check_servers c (u ∷ us)) _
        (check_servers-Does (u ∷ us))
        (next-Does v (Sites (u ∷ us)) Any Any
          (apply c connection_error "failed to set servers" [] (servers (u ∷ us))) skip
          (λ s i p.
            apply-Does v c connection_error "failed to set servers" [] (servers (u ∷ us)) s
              i.checked tt p i.given i.same_timeout i.same_order i.same_keep i.no_dialer)
          (skip-Does v Any))

  certificates-Does :
      (cert key : String)
      → Does v Any
          (run (
            check_file c cert
            ∷ check_file c key
            ∷ apply c tls_error "failed to load client certificate/key" []
                (certificates_chain cert key)
            ∷ []))
          Any
  unfolding run check_file
  certificates-Does cert key =
      let Known = λ (s : Setup). FilePermitted s.trace cert in
      let Both = λ (s : Setup). FilePermitted s.trace cert × FilePermitted s.trace key in
      let second : Does v Known (check_file c key) Both =
        λ s i p. let (j, q) = check_file-Does v c key s i tt in (j, λ e. (inr p, q e)) in
      let set =
        apply c tls_error "failed to load client certificate/key" []
          (certificates_chain cert key) in
      next-Does v Any Known Any (check_file c cert) _ (check_file-Does v c cert) (
        next-Does v Known Both Any (check_file c key) _ second (
          next-Does v Both Any Any set skip
            (λ s i p.
              apply-Does v c tls_error "failed to load client certificate/key" []
                (certificates_chain cert key) s i.checked (p.0, (p.1, tt)) tt i.given i.same_timeout
                i.same_order i.same_keep i.no_dialer)
            (skip-Does v Any)))

  module _ (h : Fields) where
    servers_option-Does : Does v Any (servers_option c h) Any
    unfolding servers_option
    servers_option-Does =
        on_list-Does v c (get_key_value h "servers") _ λ vs. set_servers-Does (texts vs)

    jitter_option-Does : Does v Any (jitter_option c h) Any
    unfolding jitter_option
    jitter_option-Does =
        let jitter = get_key_value h "reconnect_jitter_ms" in
        let tls = get_key_value h "reconnect_jitter_tls_ms" in
        let set : Does v Any
            (apply c connection_error "failed to set reconnect jitter" []
              (reconnect_jitter (or_int jitter (pos 0)) (or_int tls (pos 0))))
            Any =
          quiet-Does v c connection_error _ [] (reconnect_jitter _ _) refl in
        branch-Does Any Any (is_int jitter) _ _ (λ e. set)
          λ e. branch-Does Any Any (is_int tls) _ _ (λ e. set) λ e. skip-Does v Any

    certificate_option-Does : Does v Any (certificate_option c h) Any
    unfolding certificate_option
    certificate_option-Does =
        on_string-Does v c Any Any (get_key_value h "client_cert") _ (skip-Does v Any) λ cert e.
          on_string-Does v c Any Any (get_key_value h "client_key") _ (skip-Does v Any)
            λ key e. certificates-Does cert key

    verify_option-Does : Does v Any (verify_option c h) Any
    unfolding verify_option
    verify_option-Does =
        on_true-Does v c (get_key_value h "skip_verify") _
          (quiet-Does v c tls_error _ [] (flag_setting _ true) refl)

    handshake_option-Does : Does v Any (handshake_option c h) Any
    unfolding handshake_option
    handshake_option-Does =
        on_true-Does v c (get_key_value h "tls_handshake_first") _
          (quiet-Does v c tls_error _ [] (flag_setting _ true) refl)

    ca-Does :
        (path : String) (s : Setup)
        → Sound v s
        → FilePermitted s.trace path
        → Ends
            (Sound v)
            Any
            (apply c tls_error "failed to load CA certificates" [] (ca_certificates path) s)
    ca-Does path s i p =
        apply-Does v c tls_error "failed to load CA certificates" [] (ca_certificates path) s
          i.checked (p, tt) tt i.given i.same_timeout i.same_order i.same_keep i.no_dialer

    tls_options-Does : Does v Any (run (tls_options c h)) Any
    unfolding tls_options
    tls_options-Does = run-Does v (tls_options c h) (
      quiet-Does v c tls_error _ [] (flag_setting _ true) refl,
      (
        file_option-Does v c h "ca_cert" tls_error _ ca_certificates ca-Does,
        (
          certificate_option-Does,
          (
            verify_option-Does,
            (
              string_option-Does v c h _ _ _ _,
              (
                string_option-Does v c h _ _ _ _,
                (string_option-Does v c h _ _ _ _, (handshake_option-Does, tt)),
              ),
            ),
          ),
        ),
      ),
    )

  tls_option-Does : (h : Fields) → Does v Any (tls_option c h) Any
  unfolding tls_option
  tls_option-Does h = on_hash-Does v c (get_key_value h "tls") _ tls_options-Does

  module _ (h : Fields) where
    credentials-Does :
        (path : String) (s : Setup)
        → Sound v s
        → FilePermitted s.trace path
        → Ends
            (Sound v)
            Any
            (apply c auth_error "failed to set credentials file" [] (user_credentials path) s)
    credentials-Does path s i p =
        apply-Does v c auth_error "failed to set credentials file" [] (user_credentials path) s
          i.checked (p, tt) tt i.given i.same_timeout i.same_order i.same_keep i.no_dialer

    module _ (same : get_key_value h "url" ≡ v) where
      url_option-Does : Does v Any (url_option c h) Any
      unfolding url_option
      url_option-Does =
          on_string-Does v c Any Any (get_key_value h "url") _ (skip-Does v Any) λ u e s i p.
            apply-Does v c connection_error "failed to set URL" [] (url u) s i.checked tt tt
              (sym same ∙ e, i.given) i.same_timeout i.same_order i.same_keep i.no_dialer

      options_before-Does : Does v Any (run (options_before c h)) Any
      unfolding options_before
      options_before-Does = run-Does v (options_before c h) (
        url_option-Does,
        (
          string_option-Does v c h _ _ _ _,
          (
            user_option-Does v c h,
            (
              nkey_option-Does v c h,
              (
                file_option-Does v c h "credentials" auth_error _ user_credentials credentials-Does,
                (
                  string_option-Does v c h _ _ _ _,
                  (
                    timeout_option-Does v c h,
                    (
                      int_option-Does v c h _ _ _ (int_setting "natsOptions_SetReconnectWait")
                          (λ n. refl),
                      (
                        int_option-Does v c h _ _ _
                            (λ n. int_setting "natsOptions_SetMaxReconnect" (int32 n)) (λ n. refl),
                        (
                          int_option-Does v c h _ _ _ (int_setting "natsOptions_SetPingInterval")
                              (λ n. refl),
                          (
                            int_option-Does v c h _ _ _
                                (λ n. int_setting "natsOptions_SetMaxPingsOut" (int32 n))
                                (λ n. refl),
                            (randomize_option-Does v c h, (servers_option-Does h, tt)),
                          ),
                        ),
                      ),
                    ),
                  ),
                ),
              ),
            ),
          ),
        ),
      )

      options_after-Does : Does v Any (run (options_after c h)) Any
      unfolding options_after
      options_after-Does = run-Does v (options_after c h) (
        flag_option-Does v c h _ _ _ _,
        (
          flag_option-Does v c h _ _ _ _,
          (
            flag_option-Does v c h _ _ _ _,
            (
              jitter_option-Does h,
              (
                int_option-Does v c h _ _ _
                    (λ n. int_setting "natsOptions_SetReconnectBufSize" (int32 n)) (λ n. refl),
                (
                  int_option-Does v c h _ _ _
                      (λ n. int_setting "natsOptions_SetMaxPendingMsgs" (int32 n)) (λ n. refl),
                  (
                    int_option-Does v c h _ _ _ (int_setting "natsOptions_SetMaxPendingBytes")
                        (λ n. refl),
                    (
                      flag_option-Does v c h _ _ _ _,
                      (
                        order_option-Does v c h,
                        (
                          int_option-Does v c h _ _ _ (int_setting "natsOptions_SetWriteDeadline")
                              (λ n. refl),
                          (
                            flag_option-Does v c h _ _ _ _,
                            (string_option-Does v c h _ _ _ _, (tls_option-Does h, tt)),
                          ),
                        ),
                      ),
                    ),
                  ),
                ),
              ),
            ),
          ),
        ),
      )

      -- configureOptions keeps what Sound says, whatever the options are.
      pub configure_options-Does : Does v Any (configure_options c h) Any
      unfolding configure_options
      configure_options-Does =
          run-Does v (run (options_before c h) ∷ run (options_after c h) ∷ [])
            (options_before-Does, (options_after-Does, tt))
