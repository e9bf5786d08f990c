-- ===== src/Acl/Decisions.antt =====
-- The plugin's callbacks allow only what the script allows, and deny in every other case.
use gengo.Prelude.{
  ℕ, ◌≡◌, ◌≢◌, ◌↔◌, ◌⊎◌, inl, inr, refl, List, true, false, some, arith, ap, Option-cases,
}
use gengo.Prelude.Text.{codes}
use gengo.Engine.{Engine, Arg, SaysTrue}
use gengo.Acl.{
  AclCheck, BasicAuth, access_name, Handle, engine, no_engine, rejected, Plugin, err_success,
  err_acl_denied, err_auth, call_bool, acl_args, auth_args, on_acl_check, on_basic_auth,
}

module _ (g : Engine) where
  call_bool-engine :
      (fn : List ℕ) (args : List Arg) (st : g.State)
      → ((call_bool g fn args (engine st)).0 ≡ true) ↔ SaysTrue (g.call st fn args).1
  unfolding call_bool
  call_bool-engine fn args st = ground arith

  call_bool_closed :
      (fn : List ℕ) (args : List Arg) (h : Handle g)
      → ((st : g.State) → h ≢ engine st)
      → (call_bool g fn args h).0 ≡ false
  unfolding call_bool
  call_bool_closed fn args no_engine closed = refl
  call_bool_closed fn args rejected closed = refl
  call_bool_closed fn args (engine st) closed = absurd (closed st refl)

  on_acl_check_true :
      (ed : AclCheck) (p : Plugin g) (st : g.State)
      → p.handle ≡ engine st
      → (a : List ℕ) → access_name ed.access ≡ some a
      → SaysTrue (g.call st (codes "acl") (acl_args g ed a)).1
      → (on_acl_check g ed p).0 ≡ err_success
  unfolding on_acl_check
  on_acl_check_true ed p st h a known s =
      let yes' = (call_bool-engine (codes "acl") (acl_args g ed a) st).1 s in
      rw (known, on_acl_check)
        (ground (arith, yes', ap (call_bool g (codes "acl") (acl_args g ed a)) h))

  -- On an engine, an access is allowed exactly when it is of one of the four known kinds and the
  -- script's `acl`, called on the client, the user, the topic and that kind, answers true. In every
  -- other case it is denied.
  pub on_acl_check-allows :
      (ed : AclCheck) (p : Plugin g) (st : g.State)
      → p.handle ≡ engine st
      → (((on_acl_check g ed p).0 ≡ err_success) ↔ (
          (access : List ℕ) × (access_name ed.access ≡ some access)
          × SaysTrue (g.call st (codes "acl") (acl_args g ed access)).1))
        × (((on_acl_check g ed p).0 ≡ err_success) ⊎ ((on_acl_check g ed p).0 ≡ err_acl_denied))
  unfolding on_acl_check
  on_acl_check-allows ed p st h = elim (Option-cases (access_name ed.access)) [
    | inl other ↦ ground arith
    | inr (access, known) ↦
        let args = acl_args g ed access in
        let asked = call_bool-engine (codes "acl") args st in
        let open_call : call_bool g (codes "acl") args p.handle
            ≡ call_bool g (codes "acl") args (engine st) =
          ap (call_bool g (codes "acl") args) h in
        (
          (
            λ e. (access, known, asked.0 (ground arith)),
            λ (a, k, s). on_acl_check_true ed p st h a k s,
          ),
          ground arith,
        )
  ]

  -- With `basic_auth`, a login passes exactly when the script's `auth`, called on the client, the
  -- user and the password, answers true; otherwise it fails.
  pub on_basic_auth-allows :
      (ed : BasicAuth) (p : Plugin g) (st : g.State)
      → p.handle ≡ engine st
      → (((on_basic_auth g ed p).0 ≡ err_success)
          ↔ SaysTrue (g.call st (codes "auth") (auth_args g ed)).1)
        × (((on_basic_auth g ed p).0 ≡ err_success) ⊎ ((on_basic_auth g ed p).0 ≡ err_auth))
  unfolding on_basic_auth
  on_basic_auth-allows ed p st h =
      let args = auth_args g ed in
      let asked = call_bool-engine (codes "auth") args st in
      let open_call = ap (call_bool g (codes "auth") args) h in
      ((λ e. asked.0 (ground arith), λ s. ground (arith, asked.1 s, open_call)), ground arith)

  -- With no engine behind the handle, every access and every login is denied.
  pub closed_handle_denies :
      (ed : AclCheck) (login : BasicAuth) (p : Plugin g)
      → ((st : g.State) → p.handle ≢ engine st)
      → ((on_acl_check g ed p).0 ≡ err_acl_denied) × ((on_basic_auth g login p).0 ≡ err_auth)
  unfolding on_acl_check on_basic_auth
  closed_handle_denies ed login p closed =
      let no_login = call_bool_closed (codes "auth") (auth_args g login) p.handle closed in
      elim (Option-cases (access_name ed.access)) [
        | inl other ↦ (rw (other, on_acl_check), ground arith)
        | inr (access, known) ↦
            let no_access = call_bool_closed (codes "acl") (acl_args g ed access) p.handle closed in
            (rw (known, on_acl_check) (ground arith), ground arith)
      ]
