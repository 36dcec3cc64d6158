-- ===== src/Users/Sample.antt =====
-- A pool of two users, with what src/bff/user_management.py asks of Cognito.
use Prim.Native.String.{String}
use mathlib.Core.Path.{◌≡◌, refl, subst, sym}
use mathlib.Core.Logic.{◌≢◌, ◌⊎◌, inl, inr}
use mathlib.Core.Bool.{Bool, true, false, not}
use mathlib.Core.Option.{Option, none, some}
use mathlib.Core.List.{List, [], ◌∷◌, map}
use text.Mathlib.Text.{◌==◌ as str_eq}
use text.Mathlib.TextEquality.{eq_iff}
use foundation_intelligence.Common.{
  Result, ok, err, ok_eq, some_eq, delete, if◌then◌else◌, Bool-cases, is_one_of, is_empty, In,
  In-delete, Distinct, any-In, any_none, In-All,
}
use foundation_intelligence.Users.Client.{last, User, Cognito}
use foundation_intelligence.Users.Documented.{Documented}
use foundation_intelligence.Users.Guarded.{HasAdmin}

pub record Account : Type 0 where
  pub groups : List String
  pub enabled : Bool

pub record Pair : Type 0 where
  pub ana : Account
  pub ben : Account

abbrev pub account : Pair → String → Option Account
account p u = if str_eq u "ana" then some p.ana else if str_eq u "ben" then some p.ben else none

abbrev pub change : String → (Account → Account) → Pair → Pair
change u f p =
    if str_eq u "ana"
    then record p { ana = f p.ana }
    else if str_eq u "ben"
    then record p { ben = f p.ben }
    else p

abbrev pub groups_of : Option Account → List String
groups_of none = []
groups_of (some a) = a.groups

abbrev pub is_on : Option Account → Bool
is_on none = false
is_on (some a) = a.enabled

abbrev pub user_of : String → Option Account → Result String User
user_of u none = err "UserNotFoundException"
user_of u (some a) = ok (record {
  username = u;
  attributes = ("sub", u) ∷ [];
  enabled = a.enabled;
  status = "CONFIRMED";
})

abbrev pub shown : String → Account → User
shown u a = record {
  username = u;
  attributes = ("sub", u) ∷ [];
  enabled = a.enabled;
  status = "CONFIRMED";
}

abbrev pub one_if : Bool → User → List User → List User
one_if true u us = u ∷ us
one_if false u us = us

abbrev pub members : String → Pair → List User
members g p =
    one_if (is_one_of g p.ana.groups) (shown "ana" p.ana)
      (one_if (is_one_of g p.ben.groups) (shown "ben" p.ben) [])

abbrev pub joins_group : String → Account → Account
joins_group g a = record a { groups = g ∷ a.groups }

abbrev pub leaves_group : String → Account → Account
leaves_group g a = record a { groups = delete (λ h. str_eq h g) a.groups }

abbrev pub switched : Bool → Account → Account
switched b a = record a { enabled = b }

abbrev pub pair : Cognito
pair = record {
  Pool = Pair;
  admin_get_user = λ u p. user_of u (account p u);
  admin_list_groups_for_user = λ u p. last (groups_of (account p u));
  list_users_in_group = λ g p. last (members g p);
  list_users = λ n t p. ok (shown "ana" p.ana ∷ shown "ben" p.ben ∷ [], none);
  admin_create_user = λ mail p. (p, err "UsernameExistsException");
  admin_add_user_to_group = λ u g p. (change u (joins_group g) p, ok tt);
  admin_remove_user_from_group = λ u g p. (change u (leaves_group g) p, ok tt);
  admin_disable_user = λ u p. (change u (switched false) p, ok tt);
  admin_enable_user = λ u p. (change u (switched true) p, ok tt);
  admin_reset_user_password = λ u p. (p, ok tt);
}

abbrev pub Holds : String → Option Account → Type 0
Holds g a = In g (groups_of a) × (is_on a ≡ true)

-- A change of one account keeps what it keeps of that account, and the other account.
change-Holds :
    (p : Pair) (v g u : String) (f : Account → Account)
    → (v ≡ u → (a : Account) → Holds g (some a) → Holds g (some (f a)))
    → Holds g (account p u)
    → Holds g (account (change v f p) u)
change-Holds p v g u f keep h = elim (Bool-cases (str_eq v "ana")) [
  | inl v_ana ↦ elim (Bool-cases (str_eq u "ana")) [
    | inl u_ana ↦
        let same : v ≡ u = cc ((eq_iff v "ana").0 v_ana, (eq_iff u "ana").0 u_ana) in
        rw (v_ana, u_ana) (keep same p.ana (rw u_ana at h))
    | inr u_other ↦ rw (v_ana, u_other) (rw u_other at h)
  ]
  | inr v_other ↦ elim (Bool-cases (str_eq v "ben")) [
    | inr nobody ↦ rw (v_other, nobody) h
    | inl v_ben ↦ elim (Bool-cases (str_eq u "ana")) [
      | inl u_ana ↦ rw (v_other, v_ben, u_ana) (rw u_ana at h)
      | inr u_other ↦ elim (Bool-cases (str_eq u "ben")) [
        | inl u_ben ↦
            let same : v ≡ u = cc ((eq_iff v "ben").0 v_ben, (eq_iff u "ben").0 u_ben) in
            rw (v_other, v_ben, u_other, u_ben) (keep same p.ben (rw (u_other, u_ben) at h))
        | inr u_nobody ↦ rw (v_other, v_ben, u_other, u_nobody) (rw (u_other, u_nobody) at h)
      ]
    ]
  ]
]

is_one_of-In : (g : String) (xs : List String) → is_one_of g xs ≡ true → In g xs
is_one_of-In g xs h =
    let (a, m, same) = any-In (λ x. str_eq x g) xs h in subst (λ x. In x xs) ((eq_iff a g).0 same) m

In-is_one_of : (g : String) (xs : List String) → In g xs → is_one_of g xs ≡ true
In-is_one_of g xs m = elim (Bool-cases (is_one_of g xs)) [
  | inl there ↦ there
  | inr out ↦ cc (
    In-All (λ x. str_eq x g ≡ false) g xs m (any_none (λ x. str_eq x g) xs out),
    (eq_iff g g).1 refl,
  )
]

abbrev pub names : List User → List String
names = map (λ x. x.username)

In-one_if :
    (b : Bool) (x : User) (us : List User) (u : String)
    → In u (names (one_if b x us))
    → ((b ≡ true) × (x.username ≡ u)) ⊎ In u (names us)
In-one_if true x us u (inl e) = inl (refl, e)
In-one_if true x us u (inr m) = inr m
In-one_if false x us u m = inr m

members-groups :
    (g : String) (p : Pair) (u : String)
    → In u (names (members g p))
    → In g (groups_of (account p u))
members-groups g p u m = elim (In-one_if (is_one_of g p.ana.groups) (shown "ana" p.ana) _ u m) [
  | inl (hit, e) ↦ rw (← e) (is_one_of-In g p.ana.groups hit)
  | inr k ↦ elim (In-one_if (is_one_of g p.ben.groups) (shown "ben" p.ben) [] u k) [
    | inl (hit, e) ↦ rw (← e) (is_one_of-In g p.ben.groups hit)
    | inr none_left ↦ absurd none_left
  ]
]

groups-members :
    (g : String) (p : Pair) (u : String)
    → In g (groups_of (account p u))
    → In u (names (members g p))
groups-members g p u m = elim (Bool-cases (str_eq u "ana")) [
  | inl u_ana ↦
      let hit : is_one_of g p.ana.groups ≡ true = In-is_one_of g p.ana.groups (rw u_ana at m) in
      rw hit (inl (sym ((eq_iff u "ana").0 u_ana)))
  | inr u_other ↦ elim (Bool-cases (str_eq u "ben")) [
    | inl u_ben ↦
        let hit : is_one_of g p.ben.groups ≡ true =
          In-is_one_of g p.ben.groups (rw (u_other, u_ben) at m) in
        rw hit (later (is_one_of g p.ana.groups) (sym ((eq_iff u "ben").0 u_ben)))
    | inr u_nobody ↦ absurd (rw (u_other, u_nobody) at m)
  ]
]
  where
    later :
        (b : Bool)
        → "ben" ≡ u
        → In u (names (one_if b (shown "ana" p.ana) (shown "ben" p.ben ∷ [])))
    later true e = inr (inl e)
    later false e = inl e

members-Distinct :
    (b b' : Bool) (p : Pair)
    → Distinct str_eq (names (one_if b (shown "ana" p.ana) (one_if b' (shown "ben" p.ben) [])))
members-Distinct true true p = ((refl, tt), (tt, tt))
members-Distinct true false p = (tt, tt)
members-Distinct false true p = (tt, tt)
members-Distinct false false p = tt

named : (p : Pair) (g u : String) → In g (groups_of (account p u)) → is_empty u ≡ false
named p g String.[] m = absurd m
named p g (String.◌∷◌ c s) m = refl

reads_user :
    (u : String) (o : Option Account) (user : User) → user_of u o ≡ ok user → user.enabled ≡ is_on o
reads_user u none user e = cc
reads_user u (some a) user e = rw (← ok_eq e) refl

pub pair_documented : Documented pair
pair_documented = record {
  groups = λ p u. groups_of (account p u);
  enabled = λ p u. is_on (account p u);
  is_alias = λ u. false;
  reads_enabled = λ p u user e. reads_user u (account p u) user e;
  lists_groups = λ p u ns e g m. subst (In g) (some_eq e) m;
  lists_members = λ p g us e. rw (← some_eq e) (
    λ u. (members-groups g p u, groups-members g p u),
    members-Distinct (is_one_of g p.ana.groups) (is_one_of g p.ben.groups) p,
  );
  names_users = named;
  created = λ p mail g u m on. (m, on);
  added = λ p v h g u m on. change-Holds p v g u (joins_group h) (λ e a k. (inr k.0, k.1)) (m, on);
  removed = λ p v h g u m on other.
      change-Holds p v g u (leaves_group h)
        (λ e a k. (
          In-delete (λ x. str_eq x h) g a.groups k.0
              (apart g h (elim other [ inl kept ↦ kept | inr away ↦ absurd (away.1 e) ])),
          k.1,
        ))
        (m, on);
  disabled = λ p v g u m on name other.
      change-Holds p v g u (switched false) (λ e a k. absurd (other e)) (m, on);
  enabled_again =
      λ p v g u m on. change-Holds p v g u (switched true) (λ e a k. (k.0, refl)) (m, on);
  reset = λ p v g u m on. (m, on);
}
  where
    apart : (g h : String) → h ≢ g → str_eq g h ≡ false
    apart g h other = elim (Bool-cases (str_eq g h)) [
      | inl same ↦ absurd (other (sym ((eq_iff g h).0 same)))
      | inr d ↦ d
    ]

pub pair-HasAdmin :
    (p : Pair) (u : String) → Holds "admin" (account p u) → HasAdmin pair pair_documented p
unfolding pair_documented
pair-HasAdmin p u h = (u, h)

-- The pool takes no aliases.
pub named_by_username : (u : String) → not (pair_documented.is_alias u) ≡ true
unfolding pair_documented
named_by_username u = refl
