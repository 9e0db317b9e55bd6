-- ===== src/Natsctl.antt =====
-- The command line of cmd/natsctl. The package pkg/api/natsctl, which is not in the repository, is the
-- record `Library`, and cobra's checks of the arguments are written out. An error keeps its cause, also
-- where the code formats it by `%v`.
pub mod Saves
mod Tests
use threadr.Common.{
  String, Bool, Option, none, some, List, [], ◌∷◌, ◌++◌, map, if◌then◌else◌, str_eq,
}
use threadr.Common.Exec.{Result, ok, err, Exec, pure, raise, failed, wrap, ◌>>=◌, ◌>>◌}
use Prim.Native.String.{◌++◌ as str_append}

-- The users of an account with their tokens, and the accounts of a configuration, in the order in which
-- a range over the map meets them.
pub record Account : Type 0 where
  pub users : List (String × String)

pub record Library (W C : Type 0) : Type 0 where
  pub init_store : W → W
  pub close_store : W → W
  pub get_default_instance_id : Exec W String
  pub load_config : String → Exec W C
  pub save_config : String → C → Exec W (Unit {0})
  pub initial_setup : String → Exec W C
  pub add_tenant : String → String → C → Exec W (String × C)
  pub add_user_to_tenant : String → String → String → C → Exec W (String × C)
  pub generate_creds_file : String → String → String → String → Exec W (Unit {0})
  pub test_connection_with_creds : String → Exec W (Unit {0})
  pub accounts : C → List (String × Account)

pub data Command : Type 0 where
  add_account add_user generate_creds init list_accounts list_users test_connection : Command

-- What a command prints, line by line.
abbrev pub Lines : Type 0
Lines = List String

abbrev pub account_lines : List (String × Account) → Lines
account_lines [] = "No accounts found." ∷ []
account_lines (a ∷ accounts) =
    "Accounts:" ∷ map (λ (entry : String × Account). str_append "-  " entry.0) (a ∷ accounts)

unfoldable pub find_account : String → List (String × Account) → Option Account
find_account name [] = none
find_account name ((n, a) ∷ accounts) =
    let rest = find_account name accounts in if str_eq n name then some a else rest

abbrev pub user_line : String × String → String
user_line (name, jwt) = str_append "- " (str_append name (str_append ": " jwt))

abbrev pub user_lines : String → List (String × String) → Lines
user_lines name [] = str_append "No users found in account '" (str_append name "'.") ∷ []
user_lines name (u ∷ users) =
    str_append "Users in account '" (str_append name "':") ∷ map user_line (u ∷ users)

abbrev pub users_of : String → Option Account → Lines
users_of name none = str_append "Account '" (str_append name "' not found") ∷ []
users_of name (some account) = user_lines name account.users

module _ {W C : Type 0} (natsctl : Library W C) where
  -- Each command takes the id of the instance and its arguments.
  unfoldable pub run_add_account : String → String → Exec W Lines
  run_add_account instance_id account_name = do
    cfg ← wrap "failed to load configuration" (natsctl.load_config instance_id)
    made ← wrap "failed to create new account" (natsctl.add_tenant instance_id account_name cfg)
    wrap "failed to save updated configuration" (natsctl.save_config instance_id made.1)
    pure (str_append "New account created successfully. JWT: " made.0 ∷ [])

  unfoldable pub run_add_user : String → String → String → Exec W Lines
  run_add_user instance_id username account = do
    cfg ← wrap "failed to load configuration" (natsctl.load_config instance_id)
    made ←
        wrap "failed to create new user"
          (natsctl.add_user_to_tenant instance_id username account cfg)
    wrap "failed to save configuration" (natsctl.save_config instance_id made.1)
    pure (str_append "New user created successfully. JWT: " made.0 ∷ [])

  unfoldable pub run_generate_creds : String → String → String → String → Exec W Lines
  run_generate_creds instance_id account user dir = do
    wrap "failed to generate credentials file"
        (natsctl.generate_creds_file instance_id account user dir)
    pure ("Credentials file generated successfully." ∷ [])

  unfoldable pub run_init : String → Exec W Lines
  run_init instance_id = do
    cfg ← wrap "initialization error" (natsctl.initial_setup instance_id)
    wrap "failed to save configuration" (natsctl.save_config instance_id cfg)
    pure ("Setup complete. Configuration is now saved." ∷ [])

  unfoldable pub run_list_accounts : String → Exec W Lines
  run_list_accounts instance_id = do
    cfg ← wrap "failed to load configuration" (natsctl.load_config instance_id)
    pure (account_lines (natsctl.accounts cfg))

  unfoldable pub run_list_users : String → String → Exec W Lines
  run_list_users instance_id account_name = do
    cfg ← wrap "failed to load configuration" (natsctl.load_config instance_id)
    pure (users_of account_name (find_account account_name (natsctl.accounts cfg)))

  -- A failure ends the program, with the exit code 1.
  unfoldable pub run_test_connection : String → Exec W Lines
  run_test_connection creds_path = do
    wrap "Connection test failed" (natsctl.test_connection_with_creds creds_path)
    pure ("Successfully connected and communicated with NATS server." ∷ [])

  -- `PersistentPreRunE`, which runs before each command.
  unfoldable pub instance_of : String → Exec W String
  instance_of given =
      if str_eq given ""
      then wrap "failed to load default instance ID" natsctl.get_default_instance_id
      else pure given

  abbrev pub with_instance : String → (String → Exec W Lines) → Exec W Lines
  with_instance given command = do
    instance_id ← instance_of given
    lines ← command instance_id
    pure (str_append "Using Instance ID: " instance_id ∷ lines)

  abbrev pub wrong_args : Exec W Lines
  wrong_args = raise (failed "accepts a fixed number of arguments")

  -- `rootCmd.Execute`: the number of the arguments is checked first; `init` and `list-accounts` take any.
  unfoldable pub run_root : String → Command → List String → Exec W Lines
  run_root given init args = with_instance given run_init
  run_root given list_accounts args = with_instance given run_list_accounts
  run_root given add_account (name ∷ []) = with_instance given λ id. run_add_account id name
  run_root given add_account args = wrong_args
  run_root given add_user (name ∷ account ∷ []) =
      with_instance given λ id. run_add_user id name account
  run_root given add_user args = wrong_args
  run_root given generate_creds (account ∷ user ∷ dir ∷ []) =
      with_instance given λ id. run_generate_creds id account user dir
  run_root given generate_creds args = wrong_args
  run_root given list_users (name ∷ []) = with_instance given λ id. run_list_users id name
  run_root given list_users args = wrong_args
  run_root given test_connection (path ∷ []) = with_instance given λ id. run_test_connection path
  run_root given test_connection args = wrong_args

  abbrev pub closed : Result Lines → W → Result Lines × W
  closed (ok lines) w = (ok lines, natsctl.close_store w)
  closed (err e) w = (err e, w)

  -- `os.Exit` runs no deferred call, so that a command that fails leaves the store open.
  unfoldable pub execute : String → Command → List String → Exec W Lines
  execute given command args w =
      let (outcome, v) = run_root given command args (natsctl.init_store w) in closed outcome v
