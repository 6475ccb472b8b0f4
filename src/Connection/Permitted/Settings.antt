-- ===== src/Connection/Permitted/Settings.antt =====
-- Each option of QoreNatsConnection::configureOptions (src/QoreNatsConnection.cpp) by the rules of
-- Connection.Permitted.
use module_nats.Common.{ℤ, String, ◌≡◌, refl, Bool, true, false, List, [], ◌∷◌}
use module_nats.Common.Int.{int32}
use module_nats.Runtime.{Arg}
use module_nats.Value.{Value, Values, Fields, get_key_value}
use module_nats.Connection.Setup.{
  Client, Setup, Action, Setting, string_setting, int_setting, flag_setting, user_info,
  reconnect_jitter, callback, proxy_handler, nkey_from_seed, timeout, ip_resolution_order,
  no_randomize, skip, run, apply, check_file, on_string, on_int, on_bool, on_hash, on_true,
  string_option, int_option, flag_option, file_option,
}
use module_nats.Connection.Options.{
  connection_error, auth_error, string_or_null, user_option, nkey_option, timeout_option,
  randomize_option, order_option, on_list,
}
use module_nats.Connection.Permitted.{
  FilePermitted, Sound, Ends, Any, Does, next-Does, skip-Does, apply-Does, check_file-Does,
}

-- A setting that names no file, server or URL and does not concern the dialer.
abbrev pub quiet : Setting → Bool
quiet (string_setting f x) = true
quiet (int_setting f n) = true
quiet (flag_setting f b) = true
quiet (user_info user password) = true
quiet (reconnect_jitter a b) = true
quiet (callback k) = true
quiet proxy_handler = true
quiet _ = false

module _ (v : Value) (c : Client) where
  pub quiet-Does :
      (err fmt : String) (shown : List Arg) (q : Setting)
      → quiet q ≡ true
      → Does v Any (apply c err fmt shown q) Any
  quiet-Does err fmt shown (string_setting f x) e s i p =
      apply-Does v c err fmt shown (string_setting f x) s i.checked tt tt i.given i.same_timeout
        i.same_order i.same_keep i.no_dialer
  quiet-Does err fmt shown (int_setting f n) e s i p =
      apply-Does v c err fmt shown (int_setting f n) s i.checked tt tt i.given i.same_timeout
        i.same_order i.same_keep i.no_dialer
  quiet-Does err fmt shown (flag_setting f b) e s i p =
      apply-Does v c err fmt shown (flag_setting f b) s i.checked tt tt i.given i.same_timeout
        i.same_order i.same_keep i.no_dialer
  quiet-Does err fmt shown (user_info u w) e s i p =
      apply-Does v c err fmt shown (user_info u w) s i.checked tt tt i.given i.same_timeout
        i.same_order i.same_keep i.no_dialer
  quiet-Does err fmt shown (reconnect_jitter a b) e s i p =
      apply-Does v c err fmt shown (reconnect_jitter a b) s i.checked tt tt i.given i.same_timeout
        i.same_order i.same_keep i.no_dialer
  quiet-Does err fmt shown (callback k) e s i p =
      apply-Does v c err fmt shown (callback k) s i.checked tt tt i.given i.same_timeout
        i.same_order i.same_keep i.no_dialer
  quiet-Does err fmt shown proxy_handler e s i p =
      apply-Does v c err fmt shown proxy_handler s i.checked tt tt i.given i.same_timeout
        i.same_order i.same_keep i.no_dialer
  quiet-Does err fmt shown q e s i p = absurd (cc)

  pub on_string-Does :
      (P Q : Setup → Type 0) (x : Value) (f : String → Action)
      → Does v P skip Q
      → ((u : String) → x ≡ Value.str u → Does v P (f u) Q)
      → Does v P (on_string x f) Q
  unfolding on_string
  on_string-Does P Q (Value.str u) f k h = h u refl
  on_string-Does P Q _ f k h = k

  pub on_int-Does :
      (x : Value) (f : ℤ → Action) → ((n : ℤ) → Does v Any (f n) Any) → Does v Any (on_int x f) Any
  unfolding on_int
  on_int-Does (Value.int n) f h = h n
  on_int-Does _ f h = skip-Does v Any

  pub on_bool-Does :
      (x : Value) (f : Bool → Action)
      → ((b : Bool) → Does v Any (f b) Any)
      → Does v Any (on_bool x f) Any
  unfolding on_bool
  on_bool-Does (Value.bool b) f h = h b
  on_bool-Does _ f h = skip-Does v Any

  pub on_true-Does : (x : Value) (a : Action) → Does v Any a Any → Does v Any (on_true x a) Any
  unfolding on_true
  on_true-Does (Value.bool true) a h = h
  on_true-Does _ a h = skip-Does v Any

  pub on_hash-Does :
      (x : Value) (f : Fields → Action)
      → ((h : Fields) → Does v Any (f h) Any)
      → Does v Any (on_hash x f) Any
  unfolding on_hash
  on_hash-Does (Value.hash t) f h = h t
  on_hash-Does _ f h = skip-Does v Any

  pub on_list-Does :
      (x : Value) (f : Values → Action)
      → ((vs : Values) → Does v Any (f vs) Any)
      → Does v Any (on_list x f) Any
  unfolding on_list
  on_list-Does (Value.list vs) f h = h vs
  on_list-Does _ f h = skip-Does v Any

  -- A file is checked in front of the call that has it.
  pub file-Does :
      (path err fmt : String) (q : Setting)
      → ((s : Setup)
          → Sound v s
          → FilePermitted s.trace path
          → Ends (Sound v) Any (apply c err fmt [] q s))
      → Does v Any (run (check_file c path ∷ apply c err fmt [] q ∷ [])) Any
  unfolding run
  file-Does path err fmt q h =
      let Known = λ (s : Setup). FilePermitted s.trace path in
      next-Does v Any Known Any (check_file c path) _ (check_file-Does v c path)
        (next-Does v Known Any Any (apply c err fmt [] q) skip h (skip-Does v Any))

  module _ (h : Fields) where
    pub string_option-Does :
        (key err fmt f : String) → Does v Any (string_option c h key err fmt f) Any
    unfolding string_option
    string_option-Does key err fmt f =
        on_string-Does Any Any (get_key_value h key) (λ x. apply c err fmt [] (string_setting f x))
          (skip-Does v Any) λ x e. quiet-Does err fmt [] (string_setting f x) refl

    pub int_option-Does :
        (key err fmt : String) (q : ℤ → Setting)
        → ((n : ℤ) → quiet (q n) ≡ true)
        → Does v Any (int_option c h key err fmt q) Any
    unfolding int_option
    int_option-Does key err fmt q silent =
        on_int-Does (get_key_value h key) (λ n. apply c err fmt [] (q n))
          λ n. quiet-Does err fmt [] (q n) (silent n)

    pub flag_option-Does : (key err fmt f : String) → Does v Any (flag_option c h key err fmt f) Any
    unfolding flag_option
    flag_option-Does key err fmt f =
        on_bool-Does (get_key_value h key) (λ b. apply c err fmt [] (flag_setting f b))
          λ b. quiet-Does err fmt [] (flag_setting f b) refl

    pub user_option-Does : Does v Any (user_option c h) Any
    unfolding user_option
    user_option-Does =
        let q = λ (user : String). user_info user (string_or_null (get_key_value h "password")) in
        on_string-Does Any Any (get_key_value h "username")
          (λ user. apply c auth_error "failed to set user info" [] (q user)) (skip-Does v Any)
          λ user e. quiet-Does auth_error "failed to set user info" [] (q user) refl

    -- a file, and a setting that is about this file only
    pub file_option-Does :
        (key err fmt : String) (q : String → Setting)
        → ((path : String) (s : Setup)
            → Sound v s
            → FilePermitted s.trace path
            → Ends (Sound v) Any (apply c err fmt [] (q path) s))
        → Does v Any (file_option c h key err fmt q) Any
    unfolding file_option
    file_option-Does key err fmt q keep =
        on_string-Does Any Any (get_key_value h key)
          (λ path. run (check_file c path ∷ apply c err fmt [] (q path) ∷ [])) (skip-Does v Any)
          λ path e. file-Does path err fmt (q path) (keep path)

    pub nkey_option-Does : Does v Any (nkey_option c h) Any
    unfolding nkey_option
    nkey_option-Does =
        let fmt : String = "failed to set NKey seed" in
        let q = nkey_from_seed (string_or_null (get_key_value h "nkey_pub")) in
        on_string-Does Any Any (get_key_value h "nkey_seed")
          (λ seed. run (check_file c seed ∷ apply c auth_error fmt [] (q seed) ∷ []))
          (skip-Does v Any)
          λ seed e. file-Does seed auth_error fmt (q seed) λ s i p.
            apply-Does v c auth_error fmt [] (q seed) s i.checked (p, tt) tt i.given i.same_timeout
              i.same_order i.same_keep i.no_dialer

    pub timeout_option-Does : Does v Any (timeout_option c h) Any
    unfolding timeout_option
    timeout_option-Does = on_int-Does (get_key_value h "connect_timeout_ms") _ λ n s i p.
        apply-Does v c connection_error "failed to set connect timeout" [] (timeout n)
          (record s { connect_timeout_ms = n }) i.checked tt tt i.given refl i.same_order
          i.same_keep i.no_dialer

    pub randomize_option-Does : Does v Any (randomize_option c h) Any
    unfolding randomize_option
    randomize_option-Does = on_true-Does (get_key_value h "no_randomize") _ λ s i p.
        apply-Does v c connection_error "failed to set no randomize" [] no_randomize
          (record s { keep_order = true }) i.checked tt tt i.given i.same_timeout i.same_order refl
          i.no_dialer

    pub order_option-Does : Does v Any (order_option c h) Any
    unfolding order_option
    order_option-Does = on_int-Does (get_key_value h "ip_resolution_order") _ λ n s i p.
        apply-Does v c connection_error "failed to set IP resolution order" []
          (ip_resolution_order (int32 n)) (record s { ip_order = int32 n }) i.checked tt tt i.given
          i.same_timeout refl i.same_keep i.no_dialer
