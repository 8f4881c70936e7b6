-- ===== src/Nat/Answers.antt =====
-- The rules that the handlers of packages/schema/src/endpoints/nat answer.
use ngfw_sh.Prelude.{or_else, All, ℕ, ◌≤◌, String, ◌≡◌, refl, true, Option, none, some, List, arith}
use ngfw_sh.Platform.Http.{Reply, ok, refused}
use ngfw_sh.Nat.{
  NatRule, CreateBody, UpdateBody, within, within_in, valid_rule, create_body, update_body,
  nat_rule_create, or_given, updated_rule, nat_rule_update, nat_rule_list,
}

-- A rule that meets the schema, is the user's, and was not updated before it was created.
abbrev pub IsOwn : String → NatRule → Type 0
IsOwn user r = (valid_rule r ≡ true) × (r.owner_id ≡ user) × (r.created_at ≤ r.updated_at)

abbrev pub AnswersOwn : String → Reply NatRule → Type 0
AnswersOwn user (ok status r) = IsOwn user r
AnswersOwn user (refused status message) = Unit

abbrev pub AnswersOwnList : String → Reply (List NatRule) → Type 0
AnswersOwnList user (ok status rs) = All (IsOwn user) rs
AnswersOwnList user (refused status message) = Unit

within-or_else :
    (low high : ℕ) (f : Option String) (d : String)
    → within low high d ≡ true
    → within_in low high f ≡ true
    → within low high (or_else f d) ≡ true
within-or_else low high none d k h = k
within-or_else low high (some s) d k h = h

within-or_given :
    (low high : ℕ) (f : Option String) (d : Option String)
    → within_in low high d ≡ true
    → within_in low high f ≡ true
    → within_in low high (or_given f d) ≡ true
within-or_given low high none d k h = k
within-or_given low high (some s) d k h = h

-- The constants of an update are within the bounds of its fields.
constants_within :
    (within 1 255 "Updated NAT Rule" ≡ true)
    × (within 1 50 "WAN" ≡ true)
    × (within 1 255 "any" ≡ true)
    × (within 1 50 "LAN" ≡ true)
    × (within 1 255 "192.168.1.100" ≡ true)
    × (within_in 0 50 (some "8080") ≡ true)
    × (within_in 0 50 (some "192.168.1.100") ≡ true)
    × (within_in 0 50 (some "80") ≡ true)
    × (within_in 0 500 none ≡ true)
unfolding within
constants_within = (refl, refl, refl, refl, refl, refl, refl, refl, refl)

updated_rule_valid :
    (id user : String) (now : ℕ) (u : UpdateBody)
    → update_body u ≡ true
    → valid_rule (updated_rule id user now u) ≡ true
updated_rule_valid id user now u h =
    let c = constants_within in
    ground (
      arith,
      within-or_else 1 255 u.name "Updated NAT Rule" c.0,
      within-or_else 1 50 u.source_zone "WAN" c.1,
      within-or_else 1 255 u.source_address "any" c.2,
      within-or_else 1 50 u.destination_zone "LAN" c.3,
      within-or_else 1 255 u.destination_address "192.168.1.100" c.4,
      within-or_given 0 50 u.external_port (some "8080") c.5,
      within-or_given 0 50 u.internal_ip (some "192.168.1.100") c.6,
      within-or_given 0 50 u.internal_port (some "80") c.7,
      within-or_given 0 500 u.description none c.8,
    )

-- For bodies that meet their schemas, every rule that a creation, an update or a list of NAT rules
-- answers meets the schema of a rule, is the asking user's, and was not updated before it was created.
answers_own :
    (id user : String) (now : ℕ) (b : CreateBody) (u : UpdateBody) (device : Option String)
    → create_body b ≡ true
    → update_body u ≡ true
    → AnswersOwn user (nat_rule_create id user now b)
      × AnswersOwn user (nat_rule_update id user now u)
      × AnswersOwnList user (nat_rule_list user device now)
unfolding nat_rule_create nat_rule_update nat_rule_list within
answers_own id user now b u device hb hu = (
  (hb, refl, omega arith),
  (updated_rule_valid id user now u hu, refl, omega arith),
  (
    (refl, refl, omega arith),
    ((refl, refl, omega arith), ((refl, refl, omega arith), ((refl, refl, omega arith), tt))),
  ),
)
