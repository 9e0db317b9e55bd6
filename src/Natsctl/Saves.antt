-- ===== src/Natsctl/Saves.antt =====
-- What a command writes.
use threadr.Common.{String, List, [], ◌∷◌, ◌≡◌, str_eq, Bool-cases, inl, inr}
use threadr.Common.Exec.{Result, ok, err, Exec, wrap, wrap-eq-ok, ◌>>=◌}
use threadr.Common.Exec.Keeps.{
  Keeps, pure-Keeps, raise-Keeps, wrap-Keeps, bind-Keeps, bind_yields-Keeps,
}
use threadr.Natsctl.{
  Library, Command, add_account, add_user, generate_creds, init, list_accounts, list_users,
  test_connection, Lines, run_add_account, run_add_user, run_generate_creds, run_init,
  run_list_accounts, run_list_users, run_test_connection, instance_of, with_instance, run_root,
  closed, execute,
}

module _ {W C : Type 0} (natsctl : Library W C) where
  -- The configuration was loaded for the instance.
  abbrev pub IsLoaded : String → C → Type 0
  IsLoaded id cfg = (u : W) × (v : W) × (natsctl.load_config id u ≡ (ok cfg, v))

  -- The configurations that a command with these arguments may save for an instance: what the library
  -- has made for it at the set-up, for `init`, and out of one that was loaded for it and the command's
  -- own arguments, one for an account and two for a user. No other command has any.
  pub data IsMade : Command → List String → String → C → Type 0 where
    by_set_up :
        {args : List String} {id : String} {cfg : C} (u v : W)
        → natsctl.initial_setup id u ≡ (ok cfg, v)
        → IsMade init args id cfg
    by_add_tenant :
        {name id : String} {cfg : C} (loaded : C) (jwt : String) (u v : W)
        → IsLoaded id loaded
        → natsctl.add_tenant id name loaded u ≡ (ok (jwt, cfg), v)
        → IsMade add_account (name ∷ []) id cfg
    by_add_user :
        {name account id : String} {cfg : C} (loaded : C) (jwt : String) (u v : W)
        → IsLoaded id loaded
        → natsctl.add_user_to_tenant id name account loaded u ≡ (ok (jwt, cfg), v)
        → IsMade add_user (name ∷ account ∷ []) id cfg

  -- `P` survives each call of the library, a save as long as it saves what the command with its
  -- arguments may save.
  pub record MadeCalls (command : Command) (args : List String) (P : W → Type 0) : Type 0 where
    pub init_store : (w : W) → P w → P (natsctl.init_store w)
    pub close_store : (w : W) → P w → P (natsctl.close_store w)
    pub get_default_instance_id : Keeps P natsctl.get_default_instance_id
    pub load_config : (id : String) → Keeps P (natsctl.load_config id)
    pub save_config :
        (id : String) (cfg : C) → IsMade command args id cfg → Keeps P (natsctl.save_config id cfg)
    pub initial_setup : (id : String) → Keeps P (natsctl.initial_setup id)
    pub add_tenant : (id name : String) (cfg : C) → Keeps P (natsctl.add_tenant id name cfg)
    pub add_user_to_tenant :
        (id name account : String) (cfg : C)
        → Keeps P (natsctl.add_user_to_tenant id name account cfg)
    pub generate_creds_file :
        (id account user dir : String) → Keeps P (natsctl.generate_creds_file id account user dir)
    pub test_connection_with_creds :
        (path : String) → Keeps P (natsctl.test_connection_with_creds path)

module _ {W C : Type 0} (natsctl : Library W C) (P : W → Type 0) {command : Command}
    {args : List String} (k : MadeCalls natsctl command args P) where
  loaded_then :
      (id message : String) (f : C → Exec W Lines)
      → ((cfg : C) → IsLoaded natsctl id cfg → Keeps P (f cfg))
      → Keeps P (wrap message (natsctl.load_config id) >>= f)
  loaded_then id message f kf =
      bind_yields-Keeps _ _ (IsLoaded natsctl id) (wrap-Keeps _ _ (k.load_config id))
        (λ w w' cfg h. (w, w', wrap-eq-ok message _ h)) kf

  generate_creds-Keeps :
      (id account user dir : String) → Keeps P (run_generate_creds natsctl id account user dir)
  unfolding run_generate_creds
  generate_creds-Keeps id account user dir =
      bind-Keeps _ _ (wrap-Keeps _ _ (k.generate_creds_file id account user dir)) λ _. pure-Keeps _

  list_accounts-Keeps : (id : String) → Keeps P (run_list_accounts natsctl id)
  unfolding run_list_accounts
  list_accounts-Keeps id = bind-Keeps _ _ (wrap-Keeps _ _ (k.load_config id)) λ cfg. pure-Keeps _

  list_users-Keeps : (id name : String) → Keeps P (run_list_users natsctl id name)
  unfolding run_list_users
  list_users-Keeps id name = bind-Keeps _ _ (wrap-Keeps _ _ (k.load_config id)) λ cfg. pure-Keeps _

  test_connection-Keeps : (path : String) → Keeps P (run_test_connection natsctl path)
  unfolding run_test_connection
  test_connection-Keeps path =
      bind-Keeps _ _ (wrap-Keeps _ _ (k.test_connection_with_creds path)) λ _. pure-Keeps _

  instance_of-Keeps : (given : String) → Keeps P (instance_of natsctl given)
  unfolding instance_of
  instance_of-Keeps given = elim (Bool-cases (str_eq given "")) [
    | inl empty ↦ rw empty (wrap-Keeps _ _ k.get_default_instance_id)
    | inr named ↦ rw named (pure-Keeps given)
  ]

  with_instance-Keeps :
      (given : String) (command : String → Exec W Lines)
      → ((id : String) → Keeps P (command id))
      → Keeps P (with_instance natsctl given command)
  with_instance-Keeps given command kc =
      bind-Keeps _ _ (instance_of-Keeps given) λ id. bind-Keeps _ _ (kc id) λ lines. pure-Keeps _

module _ {W C : Type 0} (natsctl : Library W C) (P : W → Type 0) where
  add_account-Keeps :
      (name : String)
      → MadeCalls natsctl add_account (name ∷ []) P
      → (id : String) → Keeps P (run_add_account natsctl id name)
  unfolding run_add_account
  add_account-Keeps name k id = loaded_then natsctl P k id _ _ λ cfg loaded.
      bind_yields-Keeps _ _ (λ made. IsMade natsctl add_account (name ∷ []) id made.1)
        (wrap-Keeps _ _ (k.add_tenant id name cfg))
        (λ w w' made h. by_add_tenant cfg made.0 w w' loaded (wrap-eq-ok _ _ h))
        λ made is_made.
          bind-Keeps _ _ (wrap-Keeps _ _ (k.save_config id made.1 is_made)) λ _. pure-Keeps _

  add_user-Keeps :
      (name account : String)
      → MadeCalls natsctl add_user (name ∷ account ∷ []) P
      → (id : String) → Keeps P (run_add_user natsctl id name account)
  unfolding run_add_user
  add_user-Keeps name account k id = loaded_then natsctl P k id _ _ λ cfg loaded.
      bind_yields-Keeps _ _ (λ made. IsMade natsctl add_user (name ∷ account ∷ []) id made.1)
        (wrap-Keeps _ _ (k.add_user_to_tenant id name account cfg))
        (λ w w' made h. by_add_user cfg made.0 w w' loaded (wrap-eq-ok _ _ h))
        λ made is_made.
          bind-Keeps _ _ (wrap-Keeps _ _ (k.save_config id made.1 is_made)) λ _. pure-Keeps _

  init-Keeps :
      (args : List String)
      → MadeCalls natsctl init args P
      → (id : String) → Keeps P (run_init natsctl id)
  unfolding run_init
  init-Keeps args k id =
      bind_yields-Keeps _ _ (IsMade natsctl init args id) (wrap-Keeps _ _ (k.initial_setup id))
        (λ w w' cfg h. by_set_up w w' (wrap-eq-ok _ _ h))
        λ cfg is_made.
          bind-Keeps _ _ (wrap-Keeps _ _ (k.save_config id cfg is_made)) λ _. pure-Keeps _

  run_root-Keeps :
      (given : String) (command : Command) (args : List String)
      → MadeCalls natsctl command args P
      → Keeps P (run_root natsctl given command args)
  unfolding run_root
  run_root-Keeps given init args k = with_instance-Keeps natsctl P k given _ (init-Keeps args k)
  run_root-Keeps given list_accounts args k =
      with_instance-Keeps natsctl P k given _ (list_accounts-Keeps natsctl P k)
  run_root-Keeps given add_account [] k = raise-Keeps _
  run_root-Keeps given add_account (a ∷ []) k =
      with_instance-Keeps natsctl P k given _ (add_account-Keeps a k)
  run_root-Keeps given add_account (a ∷ b ∷ rest) k = raise-Keeps _
  run_root-Keeps given add_user [] k = raise-Keeps _
  run_root-Keeps given add_user (a ∷ []) k = raise-Keeps _
  run_root-Keeps given add_user (a ∷ b ∷ []) k =
      with_instance-Keeps natsctl P k given _ (add_user-Keeps a b k)
  run_root-Keeps given add_user (a ∷ b ∷ c ∷ rest) k = raise-Keeps _
  run_root-Keeps given generate_creds [] k = raise-Keeps _
  run_root-Keeps given generate_creds (a ∷ []) k = raise-Keeps _
  run_root-Keeps given generate_creds (a ∷ b ∷ []) k = raise-Keeps _
  run_root-Keeps given generate_creds (a ∷ b ∷ c ∷ []) k =
      with_instance-Keeps natsctl P k given _ λ id. generate_creds-Keeps natsctl P k id a b c
  run_root-Keeps given generate_creds (a ∷ b ∷ c ∷ d ∷ rest) k = raise-Keeps _
  run_root-Keeps given list_users [] k = raise-Keeps _
  run_root-Keeps given list_users (a ∷ []) k =
      with_instance-Keeps natsctl P k given _ λ id. list_users-Keeps natsctl P k id a
  run_root-Keeps given list_users (a ∷ b ∷ rest) k = raise-Keeps _
  run_root-Keeps given test_connection [] k = raise-Keeps _
  run_root-Keeps given test_connection (a ∷ []) k =
      with_instance-Keeps natsctl P k given _ λ id. test_connection-Keeps natsctl P k a
  run_root-Keeps given test_connection (a ∷ b ∷ rest) k = raise-Keeps _

  closed_keeps :
      ((v : W) → P v → P (natsctl.close_store v))
      → (outcome : Result Lines) (w : W) → P w
      → P (closed natsctl outcome w).1
  closed_keeps close (ok lines) w h = close w h
  closed_keeps close (err e) w h = h

  -- No natsctl command saves anything, for any instance, but a configuration that the library has made
  -- for that instance: `init` at the set-up, and `add-account` with one argument and `add-user` with
  -- two out of a configuration that was loaded and these arguments. A command that only reads, one with
  -- the wrong number of arguments, and one whose call of the library fails save nothing.
  pub execute_saves_made :
      (given : String) (command : Command) (args : List String)
      → MadeCalls natsctl command args P
      → Keeps P (execute natsctl given command args)
  unfolding execute
  execute_saves_made given command args k = record {
    at = λ w h.
        closed_keeps k.close_store (run_root natsctl given command args (natsctl.init_store w)).0 _
          ((run_root-Keeps given command args k).at (natsctl.init_store w) (k.init_store w h));
  }
