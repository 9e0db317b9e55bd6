-- ===== src/Operator/Cluster/Bots.antt =====
-- The calls on bots of the cluster in memory, as `Server` asks for them.
use threadr.Common.{
  String, Bool, true, false, Option, none, some, List, [], ◌∷◌, ◌≡◌, refl, sym, ap, ◌∙◌,
  if◌then◌else◌, All, map, deep_equal, deep_equal_iff, arith, Bool-cases, inl, inr, subst,
}
use threadr.Common.Maps.{find, Found-discrete}
use threadr.Common.Exec.{Err, Result, ok, err}
use threadr.Common.Exec.Preserves.{Preserves}
use threadr.Operator.Kube.{ObjectKey, ObjectKey-discrete}
use threadr.Operator.Types.{ThreadrBot, bot_key, defaulted, read_back}
use threadr.Operator.Client.Server.{BotServer}
use threadr.Operator.Sync.{key_eq, is_expected}
use threadr.Operator.Sync.Spec.{put}
use threadr.Operator.Cluster.{
  Cluster, client, bot_in, bot_named, or_not_found, set_bot, labelled, list_in,
}

pub bot_in-set :
    (k : ObjectKey) (b : Option ThreadrBot) (w : Cluster) (j : ObjectKey)
    → bot_named k b ≡ b
    → bot_in (set_bot k b w) j ≡ put (bot_in w) k b j
unfolding is_expected
bot_in-set k b w j h = elim (Bool-cases (key_eq k j)) [
  | inl same ↦
      rw same (subst (λ i. bot_named i b ≡ b) ((deep_equal_iff ObjectKey-discrete k j).0 same) h)
  | inr other ↦ rw other
]

pub written_bot :
    (b live : ThreadrBot) (w w' : Cluster)
    → client.create_bot b w ≡ (ok live, w')
    → (j : ObjectKey) → bot_in w' j ≡ put (bot_in w) (bot_key b) (some (defaulted b)) j
written_bot b live w w' h j =
    ap (λ (r : Result ThreadrBot × Cluster). bot_in r.1 j) (sym h)
    ∙ bot_in-set (bot_key b) (some (defaulted b)) w j refl

pub status_written :
    (b live : ThreadrBot) (w w' : Cluster)
    → client.update_bot_status b w ≡ (ok live, w')
    → (j : ObjectKey) → bot_in w' j ≡ put (bot_in w) (bot_key b) (some (read_back b)) j
status_written b live w w' h j =
    ap (λ (r : Result ThreadrBot × Cluster). bot_in r.1 j) (sym h)
    ∙ bot_in-set (bot_key b) (some (read_back b)) w j refl

named_key :
    (k : ObjectKey) (there : Bool) (o : Option ThreadrBot) (b : ThreadrBot)
    → (if there then bot_named k o else none) ≡ some b
    → bot_key b ≡ k
named_key k true none b h = ground arith
named_key k true (some o) b h = ap (λ r. elim r [ none ↦ k | some a ↦ bot_key a ]) (sym h)
named_key k false o b h = ground arith

pub bot_in-named :
    (w : Cluster) (k : ObjectKey) (b : ThreadrBot) → bot_in w k ≡ some b → bot_key b ≡ k
bot_in-named w k b h = named_key k (is_expected w.names k) (w.bots k) b h

abbrev pub IsListed : String → String → Cluster → ThreadrBot → Type 0
IsListed label value w b =
    (bot_in w (bot_key b) ≡ some b) × (find label b.metadata.labels ≡ some value)

labelled_sound :
    (label value : String) (w : Cluster) (k : ObjectKey) (o : Option ThreadrBot)
    (bs : List ThreadrBot)
    → bot_in w k ≡ o
    → All (IsListed label value w) bs
    → All (IsListed label value w) (labelled label value o bs)
labelled_sound label value w k none bs stored rest = rest
labelled_sound label value w k (some b) bs stored rest =
    elim (Bool-cases (deep_equal Found-discrete (find label b.metadata.labels) (some value))) [
      | inl has ↦ rw has (
        (
          ap (bot_in w) (bot_in-named w k b stored) ∙ stored,
          (deep_equal_iff Found-discrete _ _).0 has,
        ),
        rest,
      )
      | inr other ↦ rw other rest
    ]

pub list_in_sound :
    (label value : String) (ks : List ObjectKey) (w : Cluster)
    → All (IsListed label value w) (list_in label value ks w)
list_in_sound label value [] w = tt
list_in_sound label value (k ∷ ks) w =
    labelled_sound label value w k (bot_in w k) _ refl (list_in_sound label value ks w)

labelled-keeps :
    (label value : String) (o : Option ThreadrBot) (bs : List ThreadrBot) (k : ObjectKey)
    → is_expected (map bot_key bs) k ≡ true
    → is_expected (map bot_key (labelled label value o bs)) k ≡ true
unfolding is_expected
labelled-keeps label value none bs k h = h
labelled-keeps label value (some b) bs k h = ground arith

labelled-adds :
    (label value : String) (b : ThreadrBot) (bs : List ThreadrBot) (k : ObjectKey)
    → bot_key b ≡ k
    → find label b.metadata.labels ≡ some value
    → is_expected (map bot_key (labelled label value (some b) bs)) k ≡ true
unfolding is_expected
labelled-adds label value b bs k key has =
    rw ((deep_equal_iff Found-discrete _ _).1 has, (deep_equal_iff ObjectKey-discrete _ _).1 key)
      refl

pub list_in_complete :
    (label value : String) (ks : List ObjectKey) (w : Cluster) (k : ObjectKey) (b : ThreadrBot)
    → is_expected ks k ≡ true
    → bot_in w k ≡ some b
    → find label b.metadata.labels ≡ some value
    → is_expected (map bot_key (list_in label value ks w)) k ≡ true
unfolding is_expected
list_in_complete label value [] w k b there stored has = there
list_in_complete label value (i ∷ ks) w k b there stored has = elim (Bool-cases (key_eq i k)) [
  | inl same ↦
      let at_i : bot_in w i ≡ some b =
        ap (bot_in w) ((deep_equal_iff ObjectKey-discrete i k).0 same) ∙ stored in
      rw at_i (labelled-adds label value b _ k (bot_in-named w k b stored) has)
  | inr other ↦
      labelled-keeps label value (bot_in w i) _ k
        (list_in_complete label value ks w k b (rw other at there) stored has)
]

pub bot_in-expected :
    (w : Cluster) (k : ObjectKey) (b : ThreadrBot)
    → bot_in w k ≡ some b
    → is_expected w.names k ≡ true
bot_in-expected w k b h = ground arith

pub read_bot :
    (o : Option ThreadrBot) (b : ThreadrBot) (w w' : Cluster)
    → or_not_found o w ≡ (ok b, w')
    → o ≡ some b
read_bot none b w w' h = cc
read_bot (some o) b w w' h = cc

pub missed_bot :
    (o : Option ThreadrBot) (e : Err) (w w' : Cluster) → or_not_found o w ≡ (err e, w') → o ≡ none
missed_bot none e w w' h = refl
missed_bot (some o) e w w' h = cc

pub read_keeps : (k : ObjectKey) → Preserves bot_in (client.get_bot k)
read_keeps k = record { at = λ w. read_still (bot_in w k) w }
  where
    read_still : (o : Option ThreadrBot) (w : Cluster) → bot_in (or_not_found o w).1 ≡ bot_in w
    read_still none w = refl
    read_still (some b) w = refl

unfoldable pub bots_lawful : BotServer client
bots_lawful = record {
  bot_at = bot_in;
  admit = defaulted;
  admit_metadata = λ b. refl;
  get_keeps = read_keeps;
  get_ok = λ k b w w' h.
      let stored = read_bot (bot_in w k) b w w' h in (stored, bot_in-named w k b stored);
  get_not_found = λ k e w w' h a. missed_bot (bot_in w k) e w w' h;
  create_ok = written_bot;
  update_ok = written_bot;
  delete_ok = λ b w w' h j.
      ap (λ (r : Result (Unit {0}) × Cluster). bot_in r.1 j) (sym h)
      ∙ bot_in-set (bot_key b) none w j refl;
  delete_not_found = λ b e w w' h a. cc;
  list_keeps = λ label value. record { at = λ w. refl };
  list_sound = λ label value bs w w' h.
      let same : list_in label value w.names w ≡ bs = cc in
      subst (All (IsListed label value w)) same (list_in_sound label value w.names w);
  list_complete = λ label value bs w w' h k b stored has.
      let same : list_in label value w.names w ≡ bs = cc in
      subst (λ bots. is_expected (map bot_key bots) k ≡ true) same
        (list_in_complete label value w.names w k b (bot_in-expected w k b stored) stored has);
  namespace_get_keeps = λ n. record { at = λ w. refl };
  namespace_create_keeps = λ n. record { at = λ w. refl };
}
