-- ===== src/Messages/Tests/Handlers.antt =====
-- Handlers and a broker that count what reaches them.
use threadr.Common.{ℕ, suc, List, [], ◌∷◌, ◌≡◌, ◌↔◌, refl}
use threadr.Common.Exec.{Result, ok, err, failed, not_found, Exec, ◌>>=◌}
use threadr.Messages.Handlers.{handle_all, Mistral, mistral_handle}
use threadr.Messages.Handlers.Laws.{after_all, mistral_handle_iff}

abbrev counts : ℕ → Exec ℕ (Unit {0})
counts event n = (ok tt, suc n)

abbrev fails : ℕ → Exec ℕ (Unit {0})
fails event n = (err (failed "no"), suc n)

all_called_test : handle_all (fails ∷ counts ∷ []) 5 0 ≡ (ok tt, 2)
unfolding handle_all ◌>>=◌
all_called_test = refl

after_all_test : after_all (fails ∷ counts ∷ []) 5 0 ≡ 2
after_all_test = refl

abbrev answered : ℕ
answered = 503

abbrev service : Mistral ℕ ℕ
service = record {
  data_as = λ event. ok ("nick", "hello");
  marshal = λ system user. ok "{}";
  post = λ payload n. (ok (503, ""), suc n);
  decode = λ body. ok tt;
}

mistral_handle_iff_example :
    (mistral_handle service 5 0 ≡ (ok tt, 1)) ↔ ((answered ≡ 200) × (service.decode "" ≡ ok tt))
mistral_handle_iff_example =
    mistral_handle_iff service 5 "nick" "hello" "{}" "" answered 0 1 refl refl refl

abbrev fetches : List (Result (List ℕ))
fetches = ok (1 ∷ 2 ∷ []) ∷ err not_found ∷ ok (3 ∷ []) ∷ []

abbrev keep : ℕ → List ℕ → List ℕ
keep msg seen = msg ∷ seen
