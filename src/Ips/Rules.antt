-- ===== src/Ips/Rules.antt =====
-- A user's custom rules: packages/schema/src/endpoints/ips/ruleCreate.ts, ruleDelete.ts, ruleList.ts.
use ngfw_sh.Prelude.Text.{String-set}
use text.Mathlib.TextEquality.{eq_iff}
use ngfw_sh.Prelude.{
  eqb, ◌==◌, Option-cases, filter, head?, any, first_none, filter-not, head?-perm, ℕ, ◌/◌, ◌≤◌,
  String, ◌≡◌, refl, ◌⊎◌, inl, inr, Bool, false, not, Option, none, some, List, [], ◌∷◌, map, Perm,
  arith,
}
use ngfw_sh.Platform.Http.{error, Reply, ok, refused, value}
use ngfw_sh.Platform.Database.{Descending, Database, up_to, below_zero}
use ngfw_sh.Ips.{
  IpsRuleRow, IpsRule, ips_rule, CreateFields, create_fields, new_rule, rule_id, numbered,
  owned_rule, RuleQuery, wanted_rule, by_priority, rule_create, rule_delete, rule_list,
}

abbrev of_user : String → IpsRuleRow → Bool
of_user user r = r.owner_id == user

IsSet-rows : IsSet IpsRuleRow
IsSet-rows = hlevel (String-set)

-- With the new number on no row, the rows of that number are the new one.
alone :
    (id : ℕ) (rs : List IpsRuleRow)
    → any (λ r. eqb (rule_id r) id) rs ≡ false
    → filter (numbered id) rs ≡ []
alone id [] h = refl
alone id (r ∷ rs) h = ground (arith, alone id rs)

not-of_user :
    (id : Option ℕ) (user mate : String) (rs : List IpsRuleRow)
    → (mate == user) ≡ false
    → filter (of_user mate) (filter (λ r. not (owned_rule id user r)) rs) ≡ filter (of_user mate) rs
not-of_user id user mate [] h = refl
not-of_user none user mate (r ∷ rs) h = ground (arith, not-of_user none user mate rs h)
not-of_user (some n) user mate (r ∷ rs) h = ground (
  arith,
  not-of_user (some n) user mate rs h,
  eq_iff r.owner_id user,
  eq_iff r.owner_id mate,
  eq_iff mate user,
)

module _ (d1 : Database) where
  open d1 use {
    Table, rows, select, delete, insert_next, page, select_lem, delete_lem, insert_next_lem,
    page_lem,
  }

  -- A rule is created with a number that no rule had and a priority of 1 to 10 (5 where none is
  -- given), as the one row added, and the answer shows that row.
  rule_create_lem :
      (user : String) (body : CreateFields) (now : ℕ) (t : Table IpsRuleRow) {out : Option IpsRule}
      → (rule_create d1 user body now t).0 ≡ value (ok 201 out)
      → (id : ℕ) × (any (λ r. eqb (rule_id r) id) (rows t) ≡ false)
        × (rows (rule_create d1 user body now t).1 ≡ new_rule user body (now / 1000) id ∷ rows t)
        × (out ≡ some (ips_rule (new_rule user body (now / 1000) id)))
        × (1 ≤ (new_rule user body (now / 1000) id).priority)
        × ((new_rule user body (now / 1000) id).priority ≤ 10)
  unfolding rule_create create_fields new_rule
  rule_create_lem user body now t {out = out} h =
      elim (Option-cases (insert_next rule_id (new_rule user body (now / 1000)) t)) [
        | inl e ↦ ground arith
        | inr ((t', id), e) ↦
            let added = insert_next_lem rule_id (new_rule user body (now / 1000)) t e in
            elim (Option-cases (select (numbered id) t')) [
              | inl f ↦ ground arith
              | inr (found, f) ↦
                  let new = new_rule user body (now / 1000) id in
                  let one : filter (numbered id) (rows t') ≡ new ∷ [] =
                    rw added.0 (ground (arith, alone id (rows t) added.1)) in
                  let first : head? found ≡ some new =
                    head?-perm IsSet-rows found (rw one at (select_lem (numbered id) t' f)) in
                  (
                    id,
                    added.1,
                    ground (arith, added.0),
                    ground (arith, first),
                    ground arith,
                    ground arith,
                  )
            ]
      ]

  -- A rule that is deleted is the user's own and is gone, and the rules of others stay. Where the
  -- answer is 404 the user has no such rule and nothing changes.
  rule_delete_lem :
      (user : String) (id : Option ℕ) (t : Table IpsRuleRow) {a : Reply (Unit {0})}
      → (rule_delete d1 user id t).0 ≡ value a
      → let t' = (rule_delete d1 user id t).1 in
        (filter (owned_rule id user) (rows t') ≡ [])
        × ((mate : String)
            → (mate == user) ≡ false
            → filter (of_user mate) (rows t') ≡ filter (of_user mate) (rows t))
        × ((a ≡ ok 200 tt) ⊎ ((a ≡ refused 404 (error "Rule not found")) × (t' ≡ t)))
  unfolding rule_delete
  rule_delete_lem user id t {a = a} h = elim (Option-cases (select (owned_rule id user) t)) [
    | inl e ↦ ground arith
    | inr ([], e) ↦
        let missing =
          first_none (owned_rule id user) (rows t) (select_lem (owned_rule id user) t e) refl in
        (ground (arith, missing), (λ mate differs. ground arith), inr (ground arith, ground arith))
    | inr (r ∷ rs, e) ↦ elim (Option-cases (delete (owned_rule id user) t)) [
      | inl f ↦ ground arith
      | inr (t', f) ↦
          let left = delete_lem (owned_rule id user) t f in
          (
            ground (arith, left, filter-not (owned_rule id user) (rows t)),
            (λ mate differs. ground (arith, left, not-of_user id user mate (rows t) differs)),
            inl (ground arith),
          )
    ]
  ]

  -- A list is the user's rules that match the query, all of them, by falling priority and then by
  -- falling number.
  rule_list_lem :
      (user : String) (q : RuleQuery) (t : Table IpsRuleRow) {rs : List IpsRule}
      → (rule_list d1 user q t).0 ≡ value (ok 200 rs)
      → (all : List IpsRuleRow) × Perm all (filter (wanted_rule user q) (rows t))
        × Descending by_priority all
        × (rs ≡ map ips_rule all)
  unfolding rule_list
  rule_list_lem user q t {rs = rs} h =
      elim (Option-cases (page (wanted_rule user q) by_priority below_zero (up_to 0) t)) [
        | inl e ↦ ground arith
        | inr (found, e) ↦
            let (all, same, down, cut) =
              page_lem (wanted_rule user q) by_priority below_zero (up_to 0) t e in
            (all, same, down, ground (arith, cut))
      ]
