-- ===== src/Operator/Tests/Utils.antt =====
-- Commands that are run by a system that lists them.
use threadr.Common.{String, none, List, [], ◌∷◌, ◌++◌, ◌≡◌, refl}
use threadr.Common.Exec.{Result, ok, err, failed, not_found, wrapped, ◌>>=◌}
use threadr.Common.Texts.{after_prefix, split_on, without, remove_all}
use threadr.Operator.Utils.{
  System, get_non_empty_lines, get_project_dir, run_cmd, install_cert_manager,
  uninstall_cert_manager, load_image_to_kind_cluster_with_name,
}

-- "a", an empty line, and "b".
lines_test : get_non_empty_lines (97 ∷ 10 ∷ 10 ∷ 98 ∷ 10 ∷ []) ≡ (97 ∷ []) ∷ (98 ∷ []) ∷ []
unfolding get_non_empty_lines split_on
lines_test = refl

abbrev first : List String → String
first [] = ""
first (arg ∷ args) = arg

abbrev last : List String → String
last [] = ""
last (arg ∷ []) = arg
last (arg ∷ next ∷ args) = last (next ∷ args)

-- The system is in "/p/test/e2e".
abbrev system : (String → Result String) → System (List String)
system answers = record {
  getwd = λ w. (ok (47 ∷ 112 ∷ 47 ∷ 116 ∷ 101 ∷ 115 ∷ 116 ∷ 47 ∷ 101 ∷ 50 ∷ 101 ∷ []), w);
  chdir = λ dir w. (err not_found, w);
  environ = λ w. [];
  lookup_env = λ name w. none;
  combined_output = λ cmd w. (answers (first cmd.args), w ++ last cmd.args ∷ []);
}

directory_test : (get_project_dir (system ok) []).0 ≡ ok (47 ∷ 112 ∷ [])
unfolding get_project_dir remove_all without after_prefix ◌>>=◌
directory_test = refl

waits_test :
    (install_cert_manager (system ok) []).1
    ≡ "https://github.com/jetstack/cert-manager/releases/download/v1.5.3/cert-manager.yaml" ∷ "5m"
      ∷ []
unfolding install_cert_manager run_cmd get_project_dir ◌>>=◌
waits_test = refl

-- Without an answer nothing is waited for, and a removal only warns.
fails_test :
    (install_cert_manager (system (λ arg. err (failed arg))) []).0
    ≡ err (wrapped "failed with error" (failed "kubectl"))
unfolding install_cert_manager run_cmd ◌>>=◌
fails_test = refl

warns_test : (uninstall_cert_manager (system (λ arg. err (failed arg))) []).0 ≡ ok tt
unfolding uninstall_cert_manager run_cmd ◌>>=◌
warns_test = refl

loads_test : (load_image_to_kind_cluster_with_name (system ok) "i" []) ≡ (ok tt, "kind" ∷ [])
unfolding load_image_to_kind_cluster_with_name run_cmd get_project_dir ◌>>=◌
loads_test = refl
