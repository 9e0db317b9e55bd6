-- ===== src/Operator/Sync/Tidied.antt =====
-- What the deletion of orphans does to the stored bots.
use threadr.Common.{
  Bool, true, false, Option, none, some, List, [], ◌∷◌, ◌||◌, ◌&&◌, not, if◌then◌else◌, map,
  deep_equal_iff, ◌≡◌, refl, sym, ap, ◌∙◌, All, Bool-cases, arith, inl, inr,
}
use mathlib.Core.Path.{fun_ext}
use mathlib.Core.Bool.{false≢true}
use threadr.Common.Maps.{Found-discrete}
use threadr.Common.Exec.{
  is_not_found, Result, ok, err, pure, bind-eq-ok, pure-eq-ok, attempt-eq-ok, raise-ne-ok,
}
use threadr.Common.Exec.Preserves.{view-result}
use threadr.Operator.Kube.{ObjectKey, ObjectKey-discrete}
use threadr.Operator.Types.{ThreadrBot, bot_key}
use threadr.Operator.Client.{Client}
use threadr.Operator.Client.Server.{BotServer}
use threadr.Operator.Sync.{
  is_expected, key_eq, threadr_bot_synced_by_label, threadr_bot_synced_by_value, orphan_deleted,
  delete_orphan, delete_unexpected, delete_orphaned_contracts,
}
use threadr.Operator.Sync.Spec.{Bots, put, is_synced, unsynced}

-- A key is in the list of keys of some bots exactly if one of them has it.
bot_of_key :
    (P : ThreadrBot → Type 0) (bs : List ThreadrBot) (k : ObjectKey)
    → All P bs
    → is_expected (map bot_key bs) k ≡ true
    → (b : ThreadrBot) × P b × (bot_key b ≡ k)
bot_of_key P [] k h e = unfold is_expected in cc
bot_of_key P (b ∷ bs) k h e = elim (Bool-cases (key_eq (bot_key b) k)) [
  | inl same ↦ (b, h.0, (deep_equal_iff ObjectKey-discrete (bot_key b) k).0 same)
  | inr other ↦ bot_of_key P bs k h.1 (unfold is_expected in ground arith)
]

-- One round of the loop over the listed bots, at one key.
one_more :
    (expected : List ObjectKey) (b : ThreadrBot) (later : Bool) (after before : Bots)
    (k : ObjectKey)
    → after ≡ (if is_expected expected (bot_key b) then before else put before (bot_key b) none)
    → (if later && not (is_expected expected k) then none else after k)
      ≡ (if (key_eq (bot_key b) k || later) && not (is_expected expected k) then none else before k)
one_more expected b later after before k h = ground (
  arith,
  ap (λ bots. bots k) h,
  at_key,
  λ (e : key_eq (bot_key b) k ≡ true).
      ap (is_expected expected) ((deep_equal_iff ObjectKey-discrete (bot_key b) k).0 e),
)
  where
    at_key :
        (if is_expected expected (bot_key b) then before else put before (bot_key b) none) k ≡ (
          if is_expected expected (bot_key b)
          then before k
          else (if key_eq (bot_key b) k then none else before k))
    at_key =
        elim (is_expected expected (bot_key b))
          as (λ t.
            (if t then before else put before (bot_key b) none) k
            ≡ (if t then before k else (if key_eq (bot_key b) k then none else before k))) [
              | true ↦ refl
              | false ↦ refl
            ]

module _ {W : Type 0} (c : Client W) (s : BotServer c) where
  open s use {bot_at, admit}

  orphan_deleted-lands :
      (bot : ThreadrBot) (outcome : Result (Unit {0})) (w v w' : W)
      → c.delete_bot bot w ≡ (outcome, v)
      → orphan_deleted c outcome v ≡ (ok tt, w')
      → bot_at w' ≡ put (bot_at w) (bot_key bot) none
  unfolding orphan_deleted
  orphan_deleted-lands bot (ok done) w v w' tried h =
      let (_, still) = pure-eq-ok h in ap bot_at (sym still) ∙ fun_ext (s.delete_ok bot w v tried)
  orphan_deleted-lands bot (err e) w v w' tried h = elim (Bool-cases (is_not_found e)) [
    | inl absent ↦
        let (_, still) = pure-eq-ok (rw absent at h) in
        ap bot_at (sym still) ∙ fun_ext (s.delete_not_found bot e w v tried absent)
    | inr other ↦ absurd (raise-ne-ok e v (rw other at h))
  ]

  delete_orphan-lands :
      (bot : ThreadrBot) (w w' : W)
      → delete_orphan c bot w ≡ (ok tt, w')
      → bot_at w' ≡ put (bot_at w) (bot_key bot) none
  unfolding delete_orphan
  delete_orphan-lands bot w w' h =
      let (outcome, v, tried, rest) = bind-eq-ok _ _ h in
      orphan_deleted-lands bot outcome w v w' (attempt-eq-ok (c.delete_bot bot) tried) rest

  skip_or_delete-lands :
      (expected : Bool) (b : ThreadrBot) (w w' : W)
      → (if expected then pure tt else delete_orphan c b) w ≡ (ok tt, w')
      → bot_at w' ≡ (if expected then bot_at w else put (bot_at w) (bot_key b) none)
  skip_or_delete-lands true b w w' h = let (_, still) = pure-eq-ok h in ap bot_at (sym still)
  skip_or_delete-lands false b w w' h = delete_orphan-lands b w w' h

  -- The bots that the list names are gone, but for those that are expected.
  delete_unexpected-lands :
      (expected : List ObjectKey) (bs : List ThreadrBot) (w w' : W)
      → delete_unexpected c expected bs w ≡ (ok tt, w')
      → (k : ObjectKey)
      → bot_at w' k ≡ (
          if is_expected (map bot_key bs) k && not (is_expected expected k)
          then none
          else bot_at w k)
  unfolding delete_unexpected is_expected
  delete_unexpected-lands expected [] w w' h k =
      let (_, still) = pure-eq-ok h in ap (λ v. bot_at v k) (sym still)
  delete_unexpected-lands expected (b ∷ bs) w w' h k =
      let (_, v, first, rest) = bind-eq-ok _ _ h in
      delete_unexpected-lands expected bs v w' rest k
      ∙ one_more expected b (is_expected (map bot_key bs) k) (bot_at v) (bot_at w) k
          (skip_or_delete-lands (is_expected expected (bot_key b)) b w v first)

  -- The listed bots are just the stored ones that carry the syncer's label.
  listed_unsynced :
      (bs : List ThreadrBot) (w x : W) (k : ObjectKey) (b : Option ThreadrBot)
      → c.list_bots threadr_bot_synced_by_label threadr_bot_synced_by_value w ≡ (ok bs, x)
      → bot_at w k ≡ b
      → (if is_expected (map bot_key bs) k then none else b) ≡ unsynced b
  listed_unsynced bs w x k none found stored = ground arith
  listed_unsynced bs w x k (some b) found stored = elim (Bool-cases (is_synced b)) [
    | inl made ↦
        let label = (deep_equal_iff Found-discrete _ _).0 made in
        rw (made, s.list_complete _ _ bs w x found k b stored label)
    | inr manual ↦ rw manual (elim (Bool-cases (is_expected (map bot_key bs) k)) [
      | inl there ↦ absurd (not_listed there manual)
      | inr absent ↦ rw absent
    ])
  ]
    where
      not_listed : is_expected (map bot_key bs) k ≡ true → is_synced b ≡ false → ⊥
      not_listed there manual =
          let (b', (stored', label), key) =
            bot_of_key _ bs k (s.list_sound _ _ bs w x found) there in
          let same : b ≡ b' = cc (stored, stored', ap (bot_at w) key) in
          let made = (deep_equal_iff Found-discrete _ _).1 label in
          false≢true (sym manual ∙ ap is_synced same ∙ made)

  pub delete_orphaned_contracts-lands :
      (expected : List ObjectKey) (u w' : W)
      → delete_orphaned_contracts c expected u ≡ (ok tt, w')
      → (k : ObjectKey)
      → bot_at w' k ≡ (if is_expected expected k then bot_at u k else unsynced (bot_at u k))
  unfolding delete_orphaned_contracts
  delete_orphaned_contracts-lands expected u w' h k =
      let (existing, x, found, deleted) = bind-eq-ok _ _ h in
      let same = view-result _ (s.list_keeps _ _) found in
      ground (
        arith,
        delete_unexpected-lands expected existing x w' deleted k,
        ap (λ bots. bots k) same,
        listed_unsynced existing u x k (bot_at u k) found refl,
      )
