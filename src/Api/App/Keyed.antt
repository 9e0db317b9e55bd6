-- ===== src/Api/App/Keyed.antt =====
-- What a request without the key can do.
use threadr.Common.{String, Option, none, some, List, [], ◌∷◌, ◌≡◌, ◌≢◌, refl, ap, sym, subst, All}
use mathlib.Core.List.{Memᴰ}
use mathlib.Core.List.Memᴰ.{not-nil}
use threadr.Api.Middleware.{Ctx, Claim, text, flag, other, Claims, Reply, Verdict, stop, next}
use threadr.Api.Admin.{Outcome, guarded, welcome, welcome_user}
use threadr.Api.Admin.SetClaims.{no_key_no_call}
use threadr.Api.App.{Route, use_at, handle, FirebaseApp, app_routes, served}

welcome_quiet : {D : Type 0} (claim : Option Claim) (d : D) → (welcome claim d).1 ≡ d
welcome_quiet none d = refl
welcome_quiet (some (text t)) d = refl
welcome_quiet (some (flag b)) d = refl
welcome_quiet (some other) d = refl

welcome_user_quiet : {D : Type 0} (claims : Option Claims) (d : D) → (welcome_user claims d).1 ≡ d
welcome_user_quiet none d = refl
welcome_user_quiet (some claims) d = welcome_quiet (claims "instanceId") d

guarded_quiet :
    {D : Type 0} (verdict : Verdict) (handler : D → Outcome × D) (d : D)
    → (handler d).1 ≡ d
    → (guarded verdict handler d).1 ≡ d
guarded_quiet (stop reply) handler d quiet = refl
guarded_quiet next handler d quiet = quiet

module _ {D : Type 0} (api_key : String) where
  -- A request without the key leaves the directory alone.
  abbrev pub IsQuiet : Route D → Type 0
  IsQuiet (use_at path guard) = Unit
  IsQuiet (handle method path handler) =
      (c : Ctx) (d : D) → c.get "X-API-Key" ≢ api_key → (handler c d).1 ≡ d

  -- Picks among these routes, by a request without the key.
  abbrev pub IsKeyless : List (Route D) → Route D × Ctx → Type 0
  IsKeyless routes (route, c) = Memᴰ route routes × (c.get "X-API-Key" ≢ api_key)

  app_routes-IsQuiet : (firebase : FirebaseApp D) → All IsQuiet (app_routes api_key firebase)
  app_routes-IsQuiet firebase = (
    tt,
    (
      (λ c d wrong. welcome_user_quiet (c.locals "user") d),
      (
        (λ c d wrong. refl),
        (
          (λ c d wrong. ap (λ r. r.1) (no_key_no_call firebase.directory api_key c d wrong).0),
          (
            (λ c d wrong. ap (λ r. r.1) (no_key_no_call firebase.directory api_key c d wrong).1),
            tt,
          ),
        ),
      ),
    ),
  )

  member-IsQuiet :
      (routes : List (Route D)) (route : Route D)
      → All IsQuiet routes
      → Memᴰ route routes
      → IsQuiet route
  member-IsQuiet [] route quiet member = absurd (not-nil member)
  member-IsQuiet (r ∷ routes) route (quiet, rest) (Memᴰ.head same) = subst IsQuiet (sym same) quiet
  member-IsQuiet (r ∷ routes) route (quiet, rest) (Memᴰ.tail later) =
      member-IsQuiet routes route rest later

  -- Whatever routes of the API fiber picks for a request that does not carry the key, and whatever
  -- these routes read of it besides, the claims of all users stay as they are.
  pub keyless_changes_nothing :
      (firebase : FirebaseApp D) (not_found : Reply) (picks : List (Route D × Ctx)) (d : D)
      → All (IsKeyless (app_routes api_key firebase)) picks
      → (served not_found picks d).1 ≡ d
  unfolding served
  keyless_changes_nothing firebase not_found [] d keyless = refl
  keyless_changes_nothing firebase not_found ((use_at path guard, c) ∷ picks) d (here, keyless) =
      guarded_quiet (guard c) (served not_found picks) d
        (keyless_changes_nothing firebase not_found picks d keyless)
  keyless_changes_nothing firebase not_found ((handle method path handler, c) ∷ picks) d
        ((member, wrong), keyless) =
      member-IsQuiet _ _ (app_routes-IsQuiet firebase) member c d wrong
