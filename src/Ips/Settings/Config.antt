-- ===== src/Ips/Settings/Config.antt =====
-- The configuration that packages/schema/src/endpoints/ips keeps for a user.
use text.Mathlib.TextPositions.{eq_refl}
use ngfw_sh.Prelude.{
  ◌==◌, if◌then◌else◌, Bool-cases, Option-cases, truthy-eq, ℕ, ◌/◌, String, ◌≡◌, refl, inl, inr,
  true, false, Option, none, some, arith,
}
use ngfw_sh.Platform.Http.{stored, ok, value}
use ngfw_sh.Platform.Kv.{Entry, visible, Kv}
use ngfw_sh.Ips.Settings.{
  IpsConfig, UpdateFields, update_fields, valid_config, default_config, spread, config_key, Json,
  parsed_or_else, config_read, config_update,
}

-- `JSON.parse` reads a value back from its `JSON.stringify`, which is not empty.
abbrev pub ReadsBack : {A : Type 0} → Json A → A → Type 0
ReadsBack json a = (json.parse (json.stringify a) ≡ some a) × ((json.stringify a == "") ≡ false)

pub parsed_or_else_lem :
    {A : Type 0} (json : Json A) (d a : A)
    → ReadsBack json a
    → parsed_or_else json d (some (json.stringify a)) ≡ some a
unfolding parsed_or_else
parsed_or_else_lem json d a (back, full) = ground arith

spread-valid_config :
    (u : UpdateFields) (now : ℕ) (c : IpsConfig)
    → update_fields u ≡ true
    → valid_config c ≡ true
    → valid_config (spread u now c) ≡ true
unfolding spread valid_config update_fields
spread-valid_config u now c h v = ground arith

visible_value :
    {V : Type 0} (now : ℕ) (x : V) (expiry : Option ℕ) {y : V}
    → visible now (some (x, expiry)) ≡ some y
    → x ≡ y
visible_value now x none e = cc
visible_value now x (some t) e = ground arith

default_config-valid_config : valid_config default_config ≡ true
unfolding valid_config
default_config-valid_config = refl

module _ (kv : Kv) (json : Json IpsConfig) where
  open kv use {Store, entry, get, put, get_lem, put_done, put_failed}

  -- An update that is accepted answers what a read at the same time would have answered, with the
  -- given fields and the time over it, and stores that under the user's key and nothing elsewhere.
  config_update_lem :
      (user : String) (u : UpdateFields) (now : ℕ) (s : Store String) {c : IpsConfig}
      → (config_update kv json user u now s).0 ≡ value (ok 200 c)
      → (update_fields u ≡ true)
        × ((old : IpsConfig) × ((config_read kv json user now s).0 ≡ value (ok 200 old))
            × (c ≡ spread u (now / 1000) old))
        × ((k : String)
            → entry k (config_update kv json user u now s).1
              ≡ (if config_key user == k then some (json.stringify c, none) else entry k s))
  unfolding config_update config_read
  config_update_lem user u now s {c = c} h =
      elim (Option-cases (get (config_key user) (now / 1000) s)) [
        | inl e ↦ ground arith
        | inr (raw, e) ↦ elim (Option-cases (parsed_or_else json default_config raw)) [
          | inl f ↦ ground arith
          | inr (old, f) ↦
              let new : Entry String = (json.stringify (spread u (now / 1000) old), none) in
              elim (Bool-cases (put (config_key user) new s).1) [
                | inl done ↦ (
                  ground arith,
                  (old, ground arith, ground arith),
                  λ k. ground (arith, put_done (config_key user) new s k done),
                )
                | inr failed ↦ ground arith
              ]
        ]
      ]

  -- A read after an accepted update, at whatever time, answers what the update answered, if the
  -- JSON text of that answer is read back.
  pub config_read-config_update :
      (user : String) (u : UpdateFields) (now later : ℕ) (s : Store String) {c d : IpsConfig}
      → ReadsBack json c
      → (config_update kv json user u now s).0 ≡ value (ok 200 c)
      → (config_read kv json user later (config_update kv json user u now s).1).0 ≡ value (ok 200 d)
      → d ≡ c
  unfolding config_read
  config_read-config_update user u now later s {c = c} r h k =
      let s' = (config_update kv json user u now s).1 in
      let (good, merged, stored) = config_update_lem user u now s h in
      elim (Option-cases (get (config_key user) (later / 1000) s')) [
        | inl e ↦ ground arith
        | inr (raw, e) ↦
            let seen : raw ≡ some (json.stringify c) = ground (
              arith,
              get_lem (config_key user) (later / 1000) s' e,
              stored (config_key user),
              eq_refl (config_key user),
            ) in
            ground (arith, seen, parsed_or_else_lem json default_config c r)
      ]

  -- Every configuration that is stored is within its bounds.
  abbrev pub AreValid : Store String → Type 0
  AreValid s =
      (user text : String) (gone : Option ℕ) (c : IpsConfig)
      → entry (config_key user) s ≡ some (text, gone)
      → json.parse text ≡ some c
      → valid_config c ≡ true

  config_read-valid_config :
      (user : String) (now : ℕ) (s : Store String) {c : IpsConfig}
      → AreValid s
      → (config_read kv json user now s).0 ≡ value (ok 200 c)
      → valid_config c ≡ true
  unfolding config_read parsed_or_else valid_config
  config_read-valid_config user now s {c = c} v h =
      elim (Option-cases (get (config_key user) (now / 1000) s)) [
        | inl e ↦ ground arith
        | inr (raw, e) ↦
            go raw e (entry (config_key user) s) refl (get_lem (config_key user) (now / 1000) s e)
      ]
    where
      go :
          (raw : Option String)
          → get (config_key user) (now / 1000) s ≡ some raw
          → (x : Option (Entry String)) → entry (config_key user) s ≡ x
          → raw ≡ visible (now / 1000) (entry (config_key user) s)
          → valid_config c ≡ true
      go none e x f seen = ground (arith, default_config-valid_config)
      go (some text) e none f seen = ground arith
      go (some text) e (some (stored, expiry)) f seen =
          let same : stored ≡ text =
            visible_value (now / 1000) stored expiry (ground (arith, seen)) in
          elim (truthy-eq text) [
            | inl empty ↦ ground (arith, default_config-valid_config)
            | inr full ↦
                let read : json.parse text ≡ some c = ground arith in
                v user text expiry c (ground (arith)) read
          ]

  -- Where every stored configuration is within its bounds, an accepted update answers one within its
  -- bounds and leaves them all so, if the JSON text of its answer is read back.
  pub config_update-AreValid :
      (user : String) (u : UpdateFields) (now : ℕ) (s : Store String) {c : IpsConfig}
      → ReadsBack json c
      → AreValid s
      → (config_update kv json user u now s).0 ≡ value (ok 200 c)
      → AreValid (config_update kv json user u now s).1 × (valid_config c ≡ true)
  config_update-AreValid user u now s {c = c} r v h =
      let (good, (old, read, merged), stored) = config_update_lem user u now s h in
      let valid : valid_config c ≡ true = rw merged (
        spread-valid_config u (now / 1000) old good (config_read-valid_config user now s v read)) in
      (kept stored valid, valid)
    where
      kept :
          ((k : String)
            → entry k (config_update kv json user u now s).1
              ≡ (if config_key user == k then some (json.stringify c, none) else entry k s))
          → valid_config c ≡ true
          → AreValid (config_update kv json user u now s).1
      kept stored valid mate text gone d e p =
          ground (arith, stored (config_key mate), r.0, v mate text gone d)
