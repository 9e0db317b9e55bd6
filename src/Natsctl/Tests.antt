-- ===== src/Natsctl/Tests.antt =====
-- Commands on a library that counts the accounts of its configuration.
use threadr.Common.{ℕ, ◌+◌, ◌≤◌, String, List, [], ◌∷◌, ◌≡◌, refl, All, arith}
use threadr.Common.Exec.{ok, ◌>>=◌}
use threadr.Natsctl.{
  Library, Command, Account, add_account, list_users, run_root, execute, instance_of,
  run_add_account, run_list_users, find_account,
}
use threadr.Natsctl.Saves.{
  IsMade, by_set_up, by_add_tenant, by_add_user, MadeCalls, execute_saves_made,
}

abbrev account : Account
account = record { users = ("ann", "J1") ∷ [] }

-- A configuration is a number, and the world the list of those that were saved.
abbrev natsctl : Library (List ℕ) ℕ
natsctl = record {
  init_store = λ w. w;
  close_store = λ w. w;
  get_default_instance_id = λ w. (ok "main", w);
  load_config = λ id w. (ok 1, w);
  save_config = λ id cfg w. (ok tt, cfg ∷ w);
  initial_setup = λ id w. (ok 0, w);
  add_tenant = λ id name cfg w. (ok ("J0", cfg + 1), w);
  add_user_to_tenant = λ id name account cfg w. (ok ("J1", cfg), w);
  generate_creds_file = λ id account user dir w. (ok tt, w);
  test_connection_with_creds = λ path w. (ok tt, w);
  accounts = λ cfg. ("ops", account) ∷ [];
}

add_test :
    execute natsctl "" add_account ("ops" ∷ []) []
    ≡ (ok ("Using Instance ID: main" ∷ "New account created successfully. JWT: J0" ∷ []), 2 ∷ [])
unfolding execute run_root instance_of run_add_account ◌>>=◌
add_test = refl

users_test :
    execute natsctl "i1" list_users ("ops" ∷ []) []
    ≡ (ok ("Using Instance ID: i1" ∷ "Users in account 'ops':" ∷ "- ann: J1" ∷ []), [])
unfolding execute run_root instance_of run_list_users find_account ◌>>=◌
users_test = refl

abbrev AtMostTwo : List ℕ → Type 0
AtMostTwo = All (λ (cfg : ℕ). cfg ≤ 2)

made_bounded :
    {command : Command} {args : List String} {id : String} {cfg : ℕ}
    → IsMade natsctl command args id cfg
    → cfg ≤ 2
made_bounded (by_set_up u v h) = ground arith
made_bounded (by_add_tenant loaded jwt u v (x, y, read) h) = ground arith
made_bounded (by_add_user loaded jwt u v (x, y, read) h) = ground arith

calls : MadeCalls natsctl add_account ("ops" ∷ []) AtMostTwo
calls = record {
  init_store = λ w h. h;
  close_store = λ w h. h;
  get_default_instance_id = record { at = λ w h. h };
  load_config = λ id. record { at = λ w h. h };
  save_config = λ id cfg made. record { at = λ w h. (made_bounded made, h) };
  initial_setup = λ id. record { at = λ w h. h };
  add_tenant = λ id name cfg. record { at = λ w h. h };
  add_user_to_tenant = λ id name account cfg. record { at = λ w h. h };
  generate_creds_file = λ id account user dir. record { at = λ w h. h };
  test_connection_with_creds = λ path. record { at = λ w h. h };
}

execute_saves_made_example : AtMostTwo (execute natsctl "" add_account ("ops" ∷ []) []).1
execute_saves_made_example =
    (execute_saves_made natsctl AtMostTwo "" add_account ("ops" ∷ []) calls).at [] tt
