-- ===== src/Qos/Laws.antt =====
-- What an update of the traffic shaping configuration writes and answers.
use ngfw_sh.Prelude.{
  ◌≢◌, refl, Bool-cases, Option-cases, filter, All, first_mem, first_some, first_none, map-eq-nil,
  All-mem, ℕ, ◌/◌, ◌≡◌, refl, sym, ap, ◌∙◌, ◌⊎◌, inl, inr, true, false, List, [], ◌∷◌, map, Mem,
  arith,
}
use ngfw_sh.Prelude.Pairs.{Pairwise}
use ngfw_sh.Platform.Http.{Refusal, Reply, Outcome, ok, refused, value, thrown}
use ngfw_sh.Platform.Database.{updated, Database}
use ngfw_sh.Qos.{
  QosRow, QosConfig, qos_config, UpdateFields, no_fields, set_clauses, the_row, config_update,
}
use ngfw_sh.Qos.Rewriting.{
  IsBlank, Rewrites, Shows, IsAnswered, no_fields-IsBlank, qos_config-Shows, updated-Rewrites,
  settled-IsAnswered, names_field, none_is_one,
}

the_row-updated :
    (u : UpdateFields) (now : ℕ) (rs : List QosRow)
    → filter the_row (updated the_row (set_clauses u now) rs)
      ≡ map (set_clauses u now) (filter the_row rs)
unfolding set_clauses
the_row-updated u now [] = refl
the_row-updated u now (r ∷ rs) = ground (arith, the_row-updated u now rs)

QosRow-set : IsSet QosRow
QosRow-set = hlevel

again :
    (u : UpdateFields) (now : ℕ) (r : QosRow)
    → set_clauses u now (set_clauses u now r) ≡ set_clauses u now r
unfolding set_clauses
again u now r = ground arith

-- Row 1 after an update shows the update: writing it again changes nothing.
settled :
    (u : UpdateFields) (now : ℕ) (rs : List QosRow) {x : QosRow}
    → Mem x (filter the_row (updated the_row (set_clauses u now) rs))
    → set_clauses u now x ≡ x
settled u now rs m =
    All-mem (λ x. set_clauses u now x ≡ x) (λ x. QosRow-set _ _) _ (all_settled (filter the_row rs))
      (rw (the_row-updated u now rs) at m)
  where
    all_settled : (l : List QosRow) → All (λ x. set_clauses u now x ≡ x) (map (set_clauses u now) l)
    all_settled [] = tt
    all_settled (r ∷ l) = (again u now r, all_settled l)

module _ (d1 : Database) where
  open d1 use {Table, rows, select, update, select_lem, update_lem}

  -- An accepted update names some field and rewrites row 1 alone, and it answers row 1 as the
  -- update left it: the given fields are in the answer.
  config_update_accepted :
      (u : UpdateFields) (now : ℕ) (t : Table QosRow) {c : QosConfig}
      → (config_update d1 u now t).0 ≡ value (ok 200 c)
      → (no_fields u ≡ false)
        × (rows (config_update d1 u now t).1
            ≡ updated the_row (set_clauses u (now / 1000)) (rows t))
        × ((x : QosRow) × Mem x (rows (config_update d1 u now t).1)
            × (the_row x ≡ true)
            × (set_clauses u (now / 1000) x ≡ x)
            × (c ≡ qos_config x))
  unfolding config_update
  config_update_accepted u now t {c = c} h =
      elim (Option-cases (update the_row (set_clauses u (now / 1000)) t)) [
        | inl e ↦ ground arith
        | inr (t', e) ↦ elim (Option-cases (select the_row t')) [
          | inl f ↦ ground arith
          | inr ([], f) ↦ ground arith
          | inr (x ∷ xs, f) ↦
              let found = first_some the_row (rows t') (select_lem the_row t' f) refl in
              let ends : (config_update d1 u now t).1 ≡ t' = ground arith in
              let written = update_lem the_row (set_clauses u (now / 1000)) t {t' = t'} e in
              (
                ground arith,
                rw ends written,
                rw ends (
                  x,
                  found.0,
                  found.1,
                  settled u (now / 1000) (rows t)
                      (rw written at (first_mem (select_lem the_row t' f) refl)),
                  ground arith,
                ),
              )
        ]
      ]

  -- An update that is refused is refused with 400, and then it names no field and changes nothing,
  -- or with 500, and then it names a field and there is no row 1.
  config_update_refused :
      (u : UpdateFields) (now : ℕ) (t : Table QosRow) (status : ℕ) (message : Refusal)
      → (config_update d1 u now t).0 ≡ value (refused status message)
      → ((status ≡ 400) × (no_fields u ≡ true) × ((config_update d1 u now t).1 ≡ t))
        ⊎ ((status ≡ 500) × (no_fields u ≡ false) × (filter the_row (rows t) ≡ []))
  unfolding config_update
  config_update_refused u now t status message h =
      elim (Option-cases (update the_row (set_clauses u (now / 1000)) t)) [
        | inl e ↦ ground arith
        | inr (t', e) ↦ elim (Option-cases (select the_row t')) [
          | inl f ↦ ground arith
          | inr ([], f) ↦
              let gone = first_none the_row (rows t') (select_lem the_row t' f) refl in
              let none_before : map (set_clauses u (now / 1000)) (filter the_row (rows t)) ≡ [] =
                sym (the_row-updated u (now / 1000) (rows t))
                ∙ ap (filter the_row) (sym (update_lem the_row (set_clauses u (now / 1000)) t e))
                ∙ gone in
              elim (Bool-cases (no_fields u)) [
                | inl blank ↦ inl (ground arith, blank, ground arith)
                | inr some_field ↦
                    inr
                      (ground arith, some_field, map-eq-nil _ (filter the_row (rows t)) none_before)
              ]
          | inr (x ∷ xs, f) ↦ ground arith
        ]
      ]

  config_update_status :
      (u : UpdateFields) (now : ℕ) (t : Table QosRow) {status : ℕ} {c : QosConfig}
      → (config_update d1 u now t).0 ≡ value (ok status c)
      → status ≡ 200
  unfolding config_update
  config_update_status u now t h = ground arith

  -- What an answer says of the table before it and after it.
  abbrev pub Explains : UpdateFields → ℕ → Table QosRow → Outcome (Reply QosConfig) → Type 0
  Explains u now t (value (ok status c)) =
      (status ≡ 200)
      × (¬ IsBlank u)
      × Pairwise (Rewrites u (now / 1000)) (rows t) (rows (config_update d1 u now t).1)
      × ((x : QosRow) × Mem x (rows (config_update d1 u now t).1) × (x.id ≡ 1) × Shows x c)
      × IsAnswered u (now / 1000) c
  Explains u now t (value (refused status message)) =
      ((status ≡ 400) × IsBlank u × ((config_update d1 u now t).1 ≡ t))
      ⊎ ((status ≡ 500) × (¬ IsBlank u) × All (λ r. r.id ≢ 1) (rows t))
  Explains u now t (thrown e) = Unit

  explained_accepted :
      (u : UpdateFields) (now : ℕ) (t : Table QosRow) (c : QosConfig)
      → (config_update d1 u now t).0 ≡ value (ok 200 c)
      → Explains u now t (value (ok 200 c))
  explained_accepted u now t c h =
      let (some_field, written, (x, m, one, same, shown)) =
        config_update_accepted u now t {c = c} h in
      let is_one : x.id ≡ 1 = ground arith in
      (
        refl,
        names_field u some_field,
        rw written (updated-Rewrites u (now / 1000) (rows t)),
        (x, m, is_one, rw shown (qos_config-Shows x)),
        rw shown (settled-IsAnswered u (now / 1000) x is_one same),
      )

  explained_refused :
      (u : UpdateFields) (now : ℕ) (t : Table QosRow) (status : ℕ) (message : Refusal)
      → (config_update d1 u now t).0 ≡ value (refused status message)
      → Explains u now t (value (refused status message))
  explained_refused u now t status message h =
      elim (config_update_refused u now t status message h) [
        | inl (e, blank, same) ↦ inl (e, no_fields-IsBlank u blank, same)
        | inr (e, some_field, gone) ↦ inr (e, names_field u some_field, none_is_one (rows t) gone)
      ]

  -- An update that is accepted has a given field. It rewrites row 1 alone, where each given field is as it
  -- was given, the others are as they were and the time is the update's; and it answers row 1 as it is
  -- then, with the given fields and the time. One that is refused has no given field and changes nothing
  -- (400), or has one where there is no row 1 (500).
  pub config_update-Explains :
      (u : UpdateFields) (now : ℕ) (t : Table QosRow)
      → Explains u now t (config_update d1 u now t).0
  config_update-Explains u now t = explained (config_update d1 u now t).0 refl
    where
      explained :
          (o : Outcome (Reply QosConfig)) → (config_update d1 u now t).0 ≡ o → Explains u now t o
      explained (value (ok status c)) e =
          let two_hundred = config_update_status u now t e in
          rw two_hundred (explained_accepted u now t c (rw two_hundred at e))
      explained (value (refused status message)) e = explained_refused u now t status message e
      explained (thrown f) e = tt
